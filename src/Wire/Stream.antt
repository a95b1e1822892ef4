-- ===== src/Wire/Stream.antt =====
-- client.c and jobs.c: s_newjob reads from the wire the job that c_new_job wrote.
use mathlib.Core.List.{append_assoc}
use task_spooler.Base.{
  ◌≡◌, ◌≢◌, refl, sym, ap, ◌∙◌, ◌+◌, ◌<◌, ◌^◌, Bool, true, false, List, [], ◌∷◌, ◌++◌, Option, none,
  some, length, length-append, take-append_le, drop-append_le, take-length, drop-length, leb,
  if◌then◌else◌, ◌==◌, arith, All, Bool-cases, inl, inr,
}
use task_spooler.Base.Int.{ℤ, IsInt}
use task_spooler.Base.Run.{ok}
use task_spooler.State.{Text}
use task_spooler.Jobs.Notices.{is_true}
use task_spooler.Jobs.NewJob.{NewJobMsg}
use task_spooler.Wire.Ints.{send_ints, recv_ints, recv_ints-send_ints}
use task_spooler.Wire.NewJob.{
  size_of, text_bytes, header_of, sent_gpus, sent_deps, sent_behind, c_string, recv_text,
  recv_optional, recv_gpus, recv_deps, recv_newjob,
}

abbrev NoNul : Text → Type 0
NoNul text = All (λ c. c ≢ 0) text

abbrev NoNul? : Option Text → Type 0
NoNul? none = Unit
NoNul? (some text) = NoNul text

-- An array that send_ints can tell the size of.
abbrev IsArray : List ℤ → Type 0
IsArray xs = All IsInt xs × (length xs < 2 ^ 31)

abbrev EmptyIf : Bool → List ℤ → Type 0
EmptyIf true xs = xs ≡ []
EmptyIf false xs = Unit

c_string-text : (text later : Text) → NoNul text → c_string (text ++ 0 ∷ later) ≡ text
unfolding c_string
c_string-text [] later h = refl
c_string-text (c ∷ text) later (h, hs) = ground (arith, c_string-text text later hs)

recv_text-text :
    (text later : Text)
    → NoNul text
    → recv_text (length text + 1) ((text ++ 0 ∷ []) ++ later) ≡ ok (text, later)
unfolding recv_text
recv_text-text text later h =
    let size : length text + 1 ≡ length (text ++ 0 ∷ []) =
      omega (arith, length-append text (0 ∷ [])) in
    let there : leb (length (text ++ 0 ∷ [])) (length ((text ++ 0 ∷ []) ++ later)) ≡ true =
      ground (arith, length-append (text ++ 0 ∷ []) later) in
    rw
      (
        size,
        there,
        take-append_le (length (text ++ 0 ∷ [])) (text ++ 0 ∷ []) later (omega arith),
        drop-append_le (length (text ++ 0 ∷ [])) (text ++ 0 ∷ []) later (omega arith),
        take-length (text ++ 0 ∷ []),
        drop-length (text ++ 0 ∷ []),
        c_string-text text [] h,
      )
      refl

recv_optional-text :
    (o : Option Text) (later : Text)
    → NoNul? o
    → recv_optional (size_of o) (text_bytes o ++ later) ≡ ok (o, later)
recv_optional-text none later h = refl
recv_optional-text (some text) later h =
    let some_size : (length text + 1 == 0) ≡ false = ground arith in
    rw (some_size, recv_text-text text later h) refl

recv_gpus-sent :
    (m : NewJobMsg) (env : Option Text) (later : Text)
    → IsArray m.gpu_ids
    → EmptyIf (is_true m.wait_free_gpus) m.gpu_ids
    → recv_gpus (header_of m env) (sent_gpus m ++ later) ≡ ok (m.gpu_ids, later)
unfolding recv_gpus sent_gpus header_of
recv_gpus-sent m env later (h, n) e = elim (Bool-cases (is_true m.wait_free_gpus)) [
  | inl waits ↦ rw waits (ap (λ xs. ok (xs, later)) (sym (rw waits at e)))
  | inr sends ↦ rw sends (recv_ints-send_ints m.gpu_ids later h n)
]

array-sent :
    (xs : List ℤ) (later : Text)
    → IsArray xs
    → (if length xs == 0
        then ok ([], (if length xs == 0 then [] else send_ints xs) ++ later)
        else recv_ints ((if length xs == 0 then [] else send_ints xs) ++ later))
      ≡ ok (xs, later)
array-sent [] later h = refl
array-sent (a ∷ xs) later (h, n) =
    let some_size : (length (a ∷ xs) == 0) ≡ false = ground arith in
    rw some_size (recv_ints-send_ints (a ∷ xs) later h n)

recv_deps-sent :
    (m : NewJobMsg) (env : Option Text) (later : Text)
    → IsArray m.depend_on
    → recv_deps (header_of m env) (sent_deps m ++ later) ≡ ok (m.depend_on, later)
unfolding recv_deps sent_deps header_of
recv_deps-sent m env later h = array-sent m.depend_on later h

-- C strings, arrays whose sizes are ints, and no GPU ids for a job that waits for free GPUs.
pub record IsSendable (m : NewJobMsg) (env : Option Text) : Type 0 where
  pub command : NoNul m.command
  pub label : NoNul? m.label
  pub environment : NoNul? env
  pub depend_on : IsArray m.depend_on
  pub gpu_ids : IsArray m.gpu_ids
  pub no_gpu_ids : EmptyIf (is_true m.wait_free_gpus) m.gpu_ids

append_five :
    (a b c d e later : Text)
    → (a ++ (b ++ (c ++ (d ++ e)))) ++ later ≡ a ++ (b ++ (c ++ (d ++ (e ++ later))))
append_five a b c d e later =
    rw
      (
        append_assoc a (b ++ (c ++ (d ++ e))) later,
        append_assoc b (c ++ (d ++ e)) later,
        append_assoc c (d ++ e) later,
        append_assoc d e later,
      )
      refl

-- s_newjob reads back the message, the GPU ids, the dependencies, the command, the label and the
-- environment that c_new_job sent, and leaves on the wire what follows them: for texts without a
-- NUL, arrays of ints whose sizes are ints, and a job that sends no GPU ids if it waits for free
-- GPUs.
pub recv_newjob-sent_behind :
    (m : NewJobMsg) (env : Option Text) (later : Text)
    → IsSendable m env
    → recv_newjob (header_of m env) (sent_behind m env ++ later) ≡ ok (m, env, later)
unfolding recv_newjob sent_behind header_of
recv_newjob-sent_behind m env later h =
    let env_on = text_bytes env ++ later in
    let label_on = text_bytes m.label ++ env_on in
    let command_on = text_bytes (some m.command) ++ label_on in
    let deps_on = sent_deps m ++ command_on in
    ap (λ wire. recv_newjob (header_of m env) wire)
      (append_five (sent_gpus m) (sent_deps m) (text_bytes (some m.command)) (text_bytes m.label)
        (text_bytes env) later)
    ∙ rw
        (
          recv_newjob,
          recv_gpus-sent m env deps_on h.gpu_ids h.no_gpu_ids,
          recv_deps-sent m env command_on h.depend_on,
          recv_text-text m.command label_on h.command,
          recv_optional-text m.label env_on h.label,
          recv_optional-text env later h.environment,
        )
        refl
