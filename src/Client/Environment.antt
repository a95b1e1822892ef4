-- ===== src/Client/Environment.antt =====
-- env.c: the output of the command of TS_ENV, which goes with a new job.
use task_spooler.Base.{
  ◌≡◌, refl, sym, ◌∙◌, ap, ◌≢◌, ℕ, ◌+◌, ◌≤◌, List, [], ◌∷◌, ◌++◌, map, Option, none, some, length,
  ltb, leb, if◌then◌else◌, All, arith,
}
use mathlib.Core.List.{append_assoc, append-nil}
use task_spooler.Base.Run.{Run, ok, exits, fault, ◌>>=◌}
use task_spooler.State.{Text}
use task_spooler.Printing.{concat}

-- The memory after realloc, for 1000 bytes behind the text.
unfoldable pub grown : Text → ℕ → ℕ
grown text alloc = if ltb alloc (length text + 1000) then length text + 1000 else alloc

-- ptr[bytes] = '\0'.
unfoldable pub terminate : Text → ℕ → Run Text
terminate text alloc = if ltb (length text) alloc then ok text else fault

-- The loop: `reads` is what each read gives, none for an error, and no bytes at the end. The text so far
-- and the size of its memory.
unfoldable pub read_loop : List (Option Text) → Text → ℕ → Run Text
unfolding grown terminate
read_loop [] text alloc = terminate text (grown text alloc)
read_loop (none ∷ reads) text alloc = exits
read_loop (some [] ∷ reads) text alloc = terminate text (grown text alloc)
read_loop (some (c ∷ chunk) ∷ reads) text alloc =
    let rest = read_loop reads (text ++ c ∷ chunk) (grown text alloc) in
    if leb (length text + length (c ∷ chunk)) (grown text alloc) then rest else fault

-- None is the null pointer of a client without TS_ENV.
unfoldable pub get_environment : Option Text → List (Option Text) → Run (Option Text)
unfolding read_loop
get_environment none reads = ok none
get_environment (some command) reads = do text ← read_loop reads [] 0; ok (some text)

-- A read gives some bytes, and no more than it was asked for.
abbrev pub IsChunk : Text → Type 0
IsChunk chunk = (chunk ≢ []) × (length chunk ≤ 1000)

grown_ge : (text : Text) (alloc : ℕ) → length text + 1000 ≤ grown text alloc
unfolding grown
grown_ge text alloc = ground arith

terminate-grown : (text : Text) (alloc : ℕ) → terminate text (grown text alloc) ≡ ok text
unfolding terminate
terminate-grown text alloc = ground (arith, grown_ge text alloc)

read_loop-concat :
    (chunks : List Text) (rest : List (Option Text)) (text : Text) (alloc : ℕ)
    → All IsChunk chunks
    → read_loop (map some chunks ++ some [] ∷ rest) text alloc ≡ ok (text ++ concat chunks)
unfolding read_loop concat
read_loop-concat [] rest text alloc h = terminate-grown text alloc ∙ ap ok (sym (append-nil text))
read_loop-concat ([] ∷ chunks) rest text alloc h = absurd (h.0.0 refl)
read_loop-concat ((c ∷ chunk) ∷ chunks) rest text alloc h = ground (
  arith,
  grown_ge text alloc,
  read_loop-concat chunks rest (text ++ c ∷ chunk) (grown text alloc) h.1,
  append_assoc text (c ∷ chunk) (concat chunks),
)

-- If each read gives between 1 and 1000 bytes, up to the end of the output, get_environment returns
-- the whole output of the command and writes within its memory.
pub get_environment-concat :
    (command : Text) (chunks : List Text) (rest : List (Option Text))
    → All IsChunk chunks
    → get_environment (some command) (map some chunks ++ some [] ∷ rest) ≡ ok (some (concat chunks))
unfolding get_environment
get_environment-concat command chunks rest h = rw (read_loop-concat chunks rest [] 0 h) refl
