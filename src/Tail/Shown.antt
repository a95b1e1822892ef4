-- ===== src/Tail/Shown.antt =====
-- tail.c: what tail_file has shown when it returns.
use task_spooler.Base.{
  subst, ◌≡◌, refl, sym, ◌∙◌, ap, ℕ, ◌≤◌, Bool, true, false, List, [], ◌∷◌, ◌++◌, Option, none,
  some, length, if◌then◌else◌, All, Bool-cases, inl, inr, arith,
}
use mathlib.Core.List.{append_assoc, append-nil}
use task_spooler.Base.Int.{ℤ}
use task_spooler.State.{Text}
use task_spooler.Printing.Output.{write_loop_whole}
use task_spooler.Tail.Follow.{
  Reading, bytes, again, failed, Round, Follow, Followed, returned, still, tail_error, hear_end,
  is_empty, show_bytes, goes_on, follow_loop, at_start, tail_file,
}

-- stdout takes what it is given, and the file can be read.
abbrev Taken : List (Option ℕ) → ℕ → Type 0
Taken [] n = ⊥
Taken (none ∷ rooms) n = ⊥
Taken (some room ∷ rooms) n = n ≤ room

abbrev pub text_read : Reading → Text
text_read (bytes buf) = buf
text_read r = []

abbrev is_failed : Reading → Bool
is_failed failed = true
is_failed r = false

abbrev pub IsSmooth : Round → Type 0
IsSmooth r =
    (is_failed r.reading ≡ false)
    × (r.stdout_error ≡ false)
    × Taken r.rooms (length (text_read r.reading))

-- What was read in the rounds, and the first error level that the server told.
unfoldable pub text_of_rounds : List Round → Text
text_of_rounds [] = []
text_of_rounds (r ∷ rounds) = text_read r.reading ++ text_of_rounds rounds

unfoldable pub first_end : List Round → Option ℤ
first_end [] = none
first_end (r ∷ rounds) = elim r.job_end [ some e ↦ some e | none ↦ first_end rounds ]

unfoldable pub end_of : Follow → List Round → Option ℤ
unfolding first_end
end_of f rounds = if f.waiting_end then first_end rounds else some f.end_res

-- A run that returns has heard of the end of the job, has come to the end of the file, and has written
-- what was read in the rounds that it used.
pub record Shown (f : Follow) (rounds : List Round) (t : Follow) : Type 0 where
  pub rest : List Round
  pub used : List Round
  pub split : rounds ≡ used ++ rest
  pub ended : t.waiting_end ≡ false
  pub at_end : t.endfile_reached ≡ true
  pub result : end_of f used ≡ some t.end_res
  pub written : t.written ≡ f.written ++ text_of_rounds used

unfoldable pub Shows : Follow → List Round → Followed → Type 0
unfolding text_of_rounds
Shows f rounds tail_error = ⊥
Shows f rounds (still t) = (goes_on t ≡ true) × (t.written ≡ f.written ++ text_of_rounds rounds)
Shows f rounds (returned t) = Shown f rounds t

hear_end-end_of :
    (r : Round) (f : Follow) (rounds : List Round)
    → end_of (hear_end r.job_end f) rounds ≡ end_of f (r ∷ rounds)
unfolding hear_end end_of
hear_end-end_of r f rounds = ground arith

show_bytes-whole :
    (buf : Text) (rooms : List (Option ℕ)) (f : Follow)
    → Taken rooms (length buf)
    → show_bytes buf false rooms f
      ≡ record f { endfile_reached = is_empty buf; could_write = true; written = f.written ++ buf }
unfolding show_bytes
show_bytes-whole buf [] f h = absurd h
show_bytes-whole buf (none ∷ rooms) f h = absurd h
show_bytes-whole buf (some room ∷ rooms) f h =
    rw (write_loop_whole rooms room buf (length buf) f.written refl h) refl

-- A smooth round.
reading_effect : Reading → Follow → Follow
reading_effect (bytes buf) f = record f {
  endfile_reached = is_empty buf;
  could_write = true;
  written = f.written ++ buf;
}
reading_effect r f = f

after_round : Round → Follow → Follow
after_round r f = reading_effect r.reading (hear_end r.job_end f)

reading_effect_lem :
    (r : Reading) (f : Follow)
    → f.could_write ≡ true
    → ((reading_effect r f).waiting_end ≡ f.waiting_end)
      × ((reading_effect r f).end_res ≡ f.end_res)
      × ((reading_effect r f).could_write ≡ true)
      × ((reading_effect r f).written ≡ f.written ++ text_read r)
unfolding reading_effect
reading_effect_lem (bytes buf) f h = (refl, refl, refl, refl)
reading_effect_lem again f h = (refl, refl, h, sym (append-nil f.written))
reading_effect_lem failed f h = (refl, refl, h, sym (append-nil f.written))

hear_end_lem :
    (o : Option ℤ) (f : Follow)
    → ((hear_end o f).could_write ≡ f.could_write) × ((hear_end o f).written ≡ f.written)
unfolding hear_end
hear_end_lem none f = (refl, refl)
hear_end_lem (some e) f = ground arith

-- What a round makes of its reading, with the rounds behind it.
abbrev round_of : Reading → Bool → List (Option ℕ) → List Round → Follow → Followed
unfolding show_bytes follow_loop
round_of failed stdout_error rooms rounds heard = tail_error
round_of again stdout_error rooms rounds heard =
    if goes_on heard then follow_loop rounds heard else returned heard
round_of (bytes buf) stdout_error rooms rounds heard =
    let shown = show_bytes buf stdout_error rooms heard in
    if goes_on shown then follow_loop rounds shown else returned shown

round_of-smooth :
    (q : Reading) (rooms : List (Option ℕ)) (rounds : List Round) (heard : Follow)
    → is_failed q ≡ false
    → Taken rooms (length (text_read q))
    → round_of q false rooms rounds heard ≡ (
        if goes_on (reading_effect q heard)
        then follow_loop rounds (reading_effect q heard)
        else returned (reading_effect q heard))
unfolding reading_effect round_of
round_of-smooth failed rooms rounds heard h k = cc
round_of-smooth again rooms rounds heard h k = refl
round_of-smooth (bytes buf) rooms rounds heard h k =
    ap (λ x. if goes_on x then follow_loop rounds x else returned x)
      (show_bytes-whole buf rooms heard k)

follow_loop-round_of :
    (r : Round) (rounds : List Round) (f : Follow)
    → follow_loop (r ∷ rounds) f
      ≡ round_of r.reading r.stdout_error r.rooms rounds (hear_end r.job_end f)
unfolding follow_loop round_of
follow_loop-round_of r rounds f = ground arith

follow_loop_step :
    (r : Round) (rounds : List Round) (f : Follow)
    → IsSmooth r
    → follow_loop (r ∷ rounds) f ≡ (
        if goes_on (after_round r f)
        then follow_loop rounds (after_round r f)
        else returned (after_round r f))
unfolding after_round
follow_loop_step r rounds f h =
    follow_loop-round_of r rounds f
    ∙ (ap (λ b. round_of r.reading b r.rooms rounds (hear_end r.job_end f)) h.1
        ∙ round_of-smooth r.reading r.rooms rounds (hear_end r.job_end f) h.0 h.2)

goes_on-false :
    (f : Follow)
    → goes_on f ≡ false
    → f.could_write ≡ true
    → (f.endfile_reached ≡ true) × (f.waiting_end ≡ false)
goes_on-false f h k = ground arith

module _ (r : Round) (rounds : List Round) (f : Follow) (can_write : f.could_write ≡ true) where
  effect :
      ((after_round r f).waiting_end ≡ (hear_end r.job_end f).waiting_end)
      × ((after_round r f).end_res ≡ (hear_end r.job_end f).end_res)
      × ((after_round r f).could_write ≡ true)
      × ((after_round r f).written ≡ f.written ++ text_read r.reading)
  unfolding after_round
  effect =
      let (w, e, c, t) =
        reading_effect_lem r.reading (hear_end r.job_end f)
          ((hear_end_lem r.job_end f).0 ∙ can_write) in
      (w, e, c, t ∙ ap (λ x. x ++ text_read r.reading) (hear_end_lem r.job_end f).1)

  end_of-after_round : (used : List Round) → end_of (after_round r f) used ≡ end_of f (r ∷ used)
  unfolding end_of
  end_of-after_round used =
      (λ i. if effect.0 i then first_end used else some (effect.1 i)) ∙ hear_end-end_of r f used

  stops : goes_on (after_round r f) ≡ false → Shown f (r ∷ rounds) (after_round r f)
  unfolding end_of text_of_rounds
  stops h =
      let (at_end, ended) = goes_on-false (after_round r f) h effect.2 in
      record {
        rest = rounds;
        used = r ∷ [];
        split = refl;
        ended = ended;
        at_end = at_end;
        result = sym (end_of-after_round []) ∙ rw ended refl;
        written = effect.3 ∙ ap (λ x. f.written ++ x) (sym (append-nil (text_read r.reading)));
      }

  continues : (t : Follow) → Shown (after_round r f) rounds t → Shown f (r ∷ rounds) t
  unfolding text_of_rounds
  continues t h = record {
    rest = h.rest;
    used = r ∷ h.used;
    split = ap (λ l. r ∷ l) h.split;
    ended = h.ended;
    at_end = h.at_end;
    result = sym (end_of-after_round h.used) ∙ h.result;
    written =
        h.written
        ∙ (ap (λ x. x ++ text_of_rounds h.used) effect.3
            ∙ append_assoc f.written (text_read r.reading) (text_of_rounds h.used));
  }

continues_any :
    (r : Round) (rounds : List Round) (f : Follow)
    → f.could_write ≡ true
    → (x : Followed) → Shows (after_round r f) rounds x
    → Shows f (r ∷ rounds) x
unfolding Shows text_of_rounds
continues_any r rounds f can_write (returned t) h = continues r rounds f can_write t h
continues_any r rounds f can_write (still t) h = (
  h.0,
  h.1
      ∙ (ap (λ x. x ++ text_of_rounds rounds) (effect r rounds f can_write).3
          ∙ append_assoc f.written (text_read r.reading) (text_of_rounds rounds)),
)
continues_any r rounds f can_write tail_error h = h

follow_loop-Shows :
    (rounds : List Round) (f : Follow)
    → All IsSmooth rounds
    → f.could_write ≡ true
    → goes_on f ≡ true
    → Shows f rounds (follow_loop rounds f)
unfolding follow_loop Shows
follow_loop-Shows [] f h can_write going = (going, sym (append-nil f.written))
follow_loop-Shows (r ∷ rounds) f h can_write going =
    let g = after_round r f in
    subst (Shows f (r ∷ rounds)) (sym (follow_loop_step r rounds f h.0))
      (elim (Bool-cases (goes_on g)) [
        | inl more ↦ rw more (
            continues_any r rounds f can_write (follow_loop rounds g)
              (follow_loop-Shows rounds g h.1 (effect r rounds f can_write).2 more))
        | inr last ↦ rw last (stops r rounds f can_write last)
      ])

-- If each call of write takes what it is given, stdout has no error and no read fails: where
-- tail_file returns, it has heard of the end of the job and come to the end of the file, its value
-- is the first error level that the server told, and it has written what it read, in order; where
-- it goes on, it has written what it read, and the end of the job or of the file is still to come.
pub tail_file-Shows :
    (rounds : List Round) → All IsSmooth rounds → Shows at_start rounds (tail_file rounds)
unfolding tail_file
tail_file-Shows rounds h = follow_loop-Shows rounds at_start h refl refl
