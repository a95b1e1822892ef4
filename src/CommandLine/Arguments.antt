-- ===== src/CommandLine/Arguments.antt =====
-- main.c: the numbers of an argument against the array that holds them, and a command line that only queues.
use task_spooler.Base.{
  ◌≡◌, refl, ap, ◌∙◌, ◌≤◌, ◌+◌, ℕ, suc, Bool, true, false, List, [], ◌∷◌, ◌++◌, map, length,
  length-append, ◌==◌, arith, inl, inr, Bool-cases, All,
}
use task_spooler.Base.Int.{ℤ, pos}
use task_spooler.Base.Run.{Run, ok, ◌>>=◌}
use task_spooler.State.{Text}
use task_spooler.CommandLine.{
  c_queue, c_list, CommandLine, default_command_line, strtok, strtok_int, ended_piece,
}
use task_spooler.CommandLine.Options.{
  depend_last, no_store, gzip, foreground, depend_on_well, no_wait_enqueuing, stderr_apart,
  depend_on, slots, gpu_indices, gpus, label, logfile, Opt, parse_opt, parse_loop, parse_opts,
  finish_opts, take_command, set_keep, set_need_server,
}

length-map {ℓ κ} :
    {A : Type ℓ} {B : Type κ} (f : A → B) (xs : List A) → length (map f xs) ≡ length xs
length-map f [] = refl
length-map f (x ∷ xs) = ap suc (length-map f xs)

length-ended_piece : (piece : Text) → length (ended_piece piece) ≤ length piece
length-ended_piece piece = ground arith

length-strtok :
    (delim : ℕ) (piece str : Text) → length (strtok delim piece str) ≤ length piece + length str
unfolding strtok
length-strtok delim piece [] = omega (arith, length-ended_piece piece)
length-strtok delim piece (c ∷ str) = elim (Bool-cases (c == delim)) [
  | inl hit ↦ ground (
    arith,
    length-append (ended_piece piece) (strtok delim [] str),
    length-ended_piece piece,
    length-strtok delim [] str,
  )
  | inr miss ↦
      ground (arith, length-strtok delim (piece ++ c ∷ []) str, length-append piece (c ∷ []))
]

length-strtok_int : (atoi : Text → ℤ) (str : Text) → length (strtok_int atoi str) ≤ length str
unfolding strtok_int
length-strtok_int atoi str =
    omega (arith, length-map atoi (strtok b',' [] str), length-strtok b',' [] str)

-- The options that say how to queue, and ask for nothing else; `-m` is not one of them.
abbrev is_modifier : Opt → Bool
is_modifier depend_last = true
is_modifier (logfile arg) = true
is_modifier no_store = true
is_modifier (label arg) = true
is_modifier gzip = true
is_modifier foreground = true
is_modifier (gpus arg) = true
is_modifier (gpu_indices arg) = true
is_modifier (slots arg) = true
is_modifier (depend_on arg) = true
is_modifier (depend_on_well arg) = true
is_modifier no_wait_enqueuing = true
is_modifier stderr_apart = true
is_modifier o = false

abbrev Plain : CommandLine → Type 0
Plain c = (c.request ≡ c_list) × (c.send_output_by_mail ≡ pos 0)

parse_opt-Plain :
    (atoi : Text → ℤ) (o : Opt) (c : CommandLine)
    → is_modifier o ≡ true
    → Plain c
    → (c' : CommandLine) × ((parse_opt atoi o c ≡ ok c') × Plain c')
unfolding parse_opt
parse_opt-Plain atoi depend_last c m h = (_, (refl, h))
parse_opt-Plain atoi (logfile arg) c m h = (_, (refl, h))
parse_opt-Plain atoi no_store c m h = (_, (refl, h))
parse_opt-Plain atoi (label arg) c m h = (_, (refl, h))
parse_opt-Plain atoi gzip c m h = (_, (refl, h))
parse_opt-Plain atoi foreground c m h = (_, (refl, h))
parse_opt-Plain atoi (gpus arg) c m h = (_, (refl, h))
parse_opt-Plain atoi (gpu_indices arg) c m h = (_, (refl, h))
parse_opt-Plain atoi (slots arg) c m h = (_, (refl, h))
parse_opt-Plain atoi (depend_on arg) c m h = (_, (refl, h))
parse_opt-Plain atoi (depend_on_well arg) c m h = (_, (refl, h))
parse_opt-Plain atoi no_wait_enqueuing c m h = (_, (refl, h))
parse_opt-Plain atoi stderr_apart c m h = (_, (refl, h))
parse_opt-Plain atoi o c m h = ground arith

parse_loop-Plain :
    (atoi : Text → ℤ) (opts : List Opt) (c : CommandLine)
    → All (λ o. is_modifier o ≡ true) opts
    → Plain c
    → (c' : CommandLine) × ((parse_loop atoi opts c ≡ ok c') × Plain c')
unfolding parse_loop
parse_loop-Plain atoi [] c m h = (c, (refl, h))
parse_loop-Plain atoi (o ∷ opts) c (m, ms) h =
    let (c', (e, h')) = parse_opt-Plain atoi o c m h in
    let (d, (k, h'')) = parse_loop-Plain atoi opts c' ms h' in
    (d, (ap (λ r. r >>= parse_loop atoi opts) e ∙ k, h''))

abbrev queued_as : Text → List Text → CommandLine → CommandLine
queued_as a rest c = set_keep (set_need_server (record c { request = c_queue; command = a ∷ rest }))

finish_opts-queues :
    (a : Text) (rest : List Text) (c : CommandLine)
    → Plain c
    → finish_opts (a ∷ rest) c ≡ ok (queued_as a rest c)
unfolding finish_opts take_command
finish_opts-queues a rest c (r, m) = ground arith

abbrev pub Queues : Text → List Text → Run CommandLine → Type 0
Queues a rest m =
    (c : CommandLine) × ((m ≡ ok c) × ((c.request ≡ c_queue) × (c.command ≡ a ∷ rest)))

-- With options that only say how to queue, without mail, and a command behind them, parse_opts
-- returns, and the request is to queue that command.
pub parse_opts-Queues :
    (atoi : Text → ℤ) (opts : List Opt) (a : Text) (rest : List Text)
    → All (λ o. is_modifier o ≡ true) opts
    → Queues a rest (parse_opts atoi opts (a ∷ rest) default_command_line)
unfolding parse_opts
parse_opts-Queues atoi opts a rest m =
    let (c, (e, h)) = parse_loop-Plain atoi opts default_command_line m (refl, refl) in
    (
      queued_as a rest c,
      (ap (λ r. r >>= finish_opts (a ∷ rest)) e ∙ finish_opts-queues a rest c h, (refl, refl)),
    )
