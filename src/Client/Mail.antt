-- ===== src/Client/Mail.antt =====
-- mail.c: the mail about a job that has ended.
use task_spooler.Base.{
  ◌<◌, ◌≡◌, refl, ap, ℕ, ◌+◌, ◌≤◌, List, [], ◌∷◌, ◌++◌, map, Option, none, some, length,
  length-append, leb, if◌then◌else◌, All, arith,
}
use task_spooler.Base.Int.{ℤ}
use task_spooler.Base.Run.{Run, ok, exits, fault, ◌>>=◌}
use task_spooler.Base.Strings.{codes}
use task_spooler.State.{Text}
use task_spooler.Printing.{decimal, concat, fd_nprintf}
use task_spooler.Printing.Numbers.{length-decimal}
use task_spooler.Printing.Output.{fd_nprintf_whole}
use task_spooler.Columns.Sizes.{length-concat}
use task_spooler.Client.Environment.{IsChunk}

abbrev user_of : Option Text → Text
user_of none = codes "nobody"
user_of (some user) = user

-- strcpy into the 101 bytes of `to`.
abbrev to_array : Text → Run Text
to_array name = if leb (length name) 100 then ok name else fault

-- TS_MAILTO, if it fits in the array, or else USER, which is not measured.
unfoldable pub recipient : Option Text → Option Text → Run Text
recipient none user = to_array (user_of user)
recipient (some env_to) user =
    if leb (length env_to) 100 then ok env_to else to_array (user_of user)

-- A pipe takes the whole of each write. What is left and what is written.
unfoldable pub piped : ℕ → Text → Run Text
unfolding fd_nprintf
piped maxsize text = do
  (left, written) ← fd_nprintf (some (length text) ∷ []) maxsize text
  ok written

unfoldable pub subject : ℤ → ℤ → Text
unfolding decimal concat
subject jobid errorlevel = concat (
    codes "Subject: the task "
    ∷ decimal jobid
    ∷ codes " finished with error "
    ∷ decimal errorlevel
    ∷ codes ". "
    ∷ (b'\n' ∷ [])
    ∷ [])

unfoldable pub write_header : Text → Text → ℤ → ℤ → Run Text
write_header dest command jobid errorlevel = do
  from ← piped 100 (codes "From: Task Spooler <taskspooler>" ++ b'\n' ∷ [])
  to ← piped 500 (codes "To: " ++ (dest ++ b'\n' ∷ []))
  about ← piped 500 (subject jobid errorlevel)
  ran ← piped (13 + length command) (b'\n' ∷ codes "Command: " ++ (command ++ b'\n' ∷ []))
  output ← piped 500 (codes "Output:" ++ b'\n' ∷ [])
  ok (from ++ (to ++ (about ++ (ran ++ output))))

-- What each read of the file gives: none for an error, no bytes at the end.
unfoldable pub copy_output : List (Option Text) → Text
copy_output [] = []
copy_output (none ∷ reads) = []
copy_output (some [] ∷ reads) = []
copy_output (some (c ∷ chunk) ∷ reads) = (c ∷ chunk) ++ copy_output reads

-- None for a file that cannot be opened. What is written to sendmail.
unfoldable pub send_mail :
    Option Text → Option Text → Text → ℤ → ℤ → Option (List (Option Text)) → Run Text
send_mail env_to user command jobid errorlevel file = do
  to ← recipient env_to user
  header ← write_header to command jobid errorlevel
  elim file [ none ↦ exits | some reads ↦ ok (header ++ copy_output reads) ]

copy_output-concat :
    (chunks : List Text) (rest : List (Option Text))
    → All IsChunk chunks
    → copy_output (map some chunks ++ some [] ∷ rest) ≡ concat chunks
unfolding copy_output concat
copy_output-concat [] rest h = refl
copy_output-concat ([] ∷ chunks) rest h = absurd (h.0.0 refl)
copy_output-concat ((c ∷ chunk) ∷ chunks) rest h =
    ap (λ t. (c ∷ chunk) ++ t) (copy_output-concat chunks rest h.1)

piped_whole : (maxsize : ℕ) (text : Text) → length text < maxsize → piped maxsize text ≡ ok text
unfolding piped
piped_whole maxsize text h =
    rw (fd_nprintf_whole [] maxsize (length text) text h (omega arith)) refl

recipient_le :
    (env_to user : Option Text) (to : Text) → recipient env_to user ≡ ok to → length to ≤ 100
unfolding recipient
recipient_le none user to e = ground arith
recipient_le (some text) user to e = ground arith

length-subject : (jobid errorlevel : ℤ) → length (subject jobid errorlevel) ≤ 80
unfolding subject
length-subject jobid errorlevel = omega (
  arith,
  length-concat (
      codes "Subject: the task "
      ∷ decimal jobid
      ∷ codes " finished with error "
      ∷ decimal errorlevel
      ∷ codes ". "
      ∷ (b'\n' ∷ [])
      ∷ []),
  length-decimal jobid,
  length-decimal errorlevel,
)

-- The text before the output.
unfoldable pub mail_text : Text → Text → ℤ → ℤ → Text
mail_text to command jobid errorlevel =
    (codes "From: Task Spooler <taskspooler>" ++ b'\n' ∷ [])
    ++ ((codes "To: " ++ (to ++ b'\n' ∷ []))
        ++ (subject jobid errorlevel
            ++ ((b'\n' ∷ codes "Command: " ++ (command ++ b'\n' ∷ []))
                ++ (codes "Output:" ++ b'\n' ∷ []))))

write_header_whole :
    (to command : Text) (jobid errorlevel : ℤ)
    → length to ≤ 100
    → write_header to command jobid errorlevel ≡ ok (mail_text to command jobid errorlevel)
unfolding write_header mail_text
write_header_whole to command jobid errorlevel h =
    rw
      (
        piped_whole 100 (codes "From: Task Spooler <taskspooler>" ++ b'\n' ∷ []) (omega arith),
        piped_whole 500 (codes "To: " ++ (to ++ b'\n' ∷ []))
            (omega (arith, h, length-append to (b'\n' ∷ []))),
        piped_whole 500 (subject jobid errorlevel) (omega (arith, length-subject jobid errorlevel)),
        piped_whole (13 + length command) (b'\n' ∷ codes "Command: " ++ (command ++ b'\n' ∷ []))
            (omega (arith, length-append command (b'\n' ∷ []))),
        piped_whole 500 (codes "Output:" ++ b'\n' ∷ []) (omega arith),
      )
      refl

-- The mail has its header in full and the whole output, whoever it goes to.
pub send_mail-mail_text :
    (env_to user : Option Text) (to command : Text) (jobid errorlevel : ℤ) (chunks : List Text)
    (rest : List (Option Text))
    → recipient env_to user ≡ ok to
    → All IsChunk chunks
    → send_mail env_to user command jobid errorlevel (some (map some chunks ++ some [] ∷ rest))
      ≡ ok (mail_text to command jobid errorlevel ++ concat chunks)
unfolding send_mail
send_mail-mail_text env_to user to command jobid errorlevel chunks rest e h =
    rw
      (
        e,
        write_header_whole to command jobid errorlevel (recipient_le env_to user to e),
        copy_output-concat chunks rest h,
      )
      refl
