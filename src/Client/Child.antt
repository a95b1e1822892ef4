-- ===== src/Client/Child.antt =====
-- execute.c: run_child, which prepares the output of a command.
use task_spooler.Base.{
  inl, inr, ◌⊎◌, ◌≡◌, refl, ◌+◌, ◌≤◌, Bool, true, List, [], ◌∷◌, ◌++◌, Option, none, some, length,
  length-append, leb, if◌then◌else◌, arith,
}
use task_spooler.Base.Run.{Run, ok, fault, ◌>>=◌}
use task_spooler.Base.Strings.{codes}
use task_spooler.State.{Text}
use task_spooler.Jobs.Notices.{is_true}
use task_spooler.CommandLine.{CommandLine}
use task_spooler.Client.Queue.{build_command_string, append_arguments}

-- Where a stream of the command goes: where the client's goes, to a file, or through gzip to a file.
pub data Sink : Type 0 where
  inherited : Sink
  to_file through_gzip : Text → Sink

-- What the child sends its parent and how its command is run.
pub record Prepared : Type 0 where
  pub sent_filename : Option Text
  pub header : Text
  pub stdout : Sink
  pub stderr : Sink
  pub stdin_closed : Bool

abbrev pub outfname_at : Option Text → Text
outfname_at none = codes "/ts-out.XXXXXX"
outfname_at (some logfile) = b'/' ∷ (logfile ++ codes ".XXXXXX")

unfoldable pub outfname_of : CommandLine → Text
outfname_of cl = outfname_at cl.logfile

abbrev outdir_of : Option Text → Text
outdir_of none = codes "/tmp"
outdir_of (some tmpdir) = tmpdir

unfoldable pub outfname_full : CommandLine → Option Text → Text
unfolding outfname_of
outfname_full cl tmpdir = outdir_of tmpdir ++ outfname_of cl

-- errfname has the bytes of a pointer and 2 more: strncpy leaves no NUL in it unless the name is shorter,
-- and strncat adds ".e" and a NUL.
unfoldable pub errfname_of : Text → Run Text
errfname_of name = if leb (length name + 3) 10 then ok (name ++ codes ".e") else fault

-- stdout of the command; gzip writes its file.
unfoldable pub out_sink : CommandLine → Text → Sink
out_sink cl name = if is_true cl.gzip then through_gzip name else to_file name

-- With gzip, an assert tests the 1 that dup2 has returned for 0.
unfoldable pub err_sink : CommandLine → Text → Run Sink
unfolding errfname_of out_sink
err_sink cl name =
    if is_true cl.stderr_apart
    then (do errfname ← errfname_of name; if is_true cl.gzip then fault else ok (to_file errfname))
    else ok (out_sink cl name)

-- mkstemp makes a name of a template and opens it. The second byte that is written behind the command is
-- the NUL of "\n".
unfoldable pub run_child : (Text → Text) → CommandLine → Option Text → Run Prepared
unfolding build_command_string outfname_full err_sink out_sink
run_child mkstemp cl tmpdir = do
  cmd ← build_command_string cl.command
  if is_true cl.store_output
      then (do
        let name = mkstemp (outfname_full cl tmpdir)
        stderr ← err_sink cl name
        ok (record {
          sent_filename = some name;
          header = cmd ++ b'\n' ∷ 0 ∷ [];
          stdout = out_sink cl name;
          stderr = stderr;
          stdin_closed = is_true cl.should_go_background;
        }))
      else ok (record {
        sent_filename = none;
        header = [];
        stdout = inherited;
        stderr = inherited;
        stdin_closed = is_true cl.should_go_background;
      })

errfname_fault : (name : Text) → 8 ≤ length name → errfname_of name ≡ fault
unfolding errfname_of
errfname_fault name h = ground arith

-- The command is there, or its first argument is read though there is none.
built_or_not :
    (command : List Text)
    → ((text : Text) × (build_command_string command ≡ ok text))
      ⊎ (build_command_string command ≡ fault)
unfolding build_command_string
built_or_not [] = inr refl
built_or_not (a ∷ rest) = inl (append_arguments a rest, refl)

length-outfname_full :
    (cl : CommandLine) (tmpdir : Option Text) → 8 ≤ length (outfname_full cl tmpdir)
unfolding outfname_full outfname_of
length-outfname_full cl tmpdir =
    omega (arith, length-append (outdir_of tmpdir) (outfname_of cl), length-outfname_of cl.logfile)
  where
    length-outfname_of : (logfile : Option Text) → 8 ≤ length (outfname_at logfile)
    length-outfname_of none = omega arith
    length-outfname_of (some logfile) = omega (arith, length-append logfile (codes ".XXXXXX"))

-- With -E and an output that is stored, run_child writes past errfname, if mkstemp keeps the length
-- of the template.
pub run_child_fault :
    (mkstemp : Text → Text) (cl : CommandLine) (tmpdir : Option Text)
    → length (mkstemp (outfname_full cl tmpdir)) ≡ length (outfname_full cl tmpdir)
    → is_true cl.store_output ≡ true
    → is_true cl.stderr_apart ≡ true
    → run_child mkstemp cl tmpdir ≡ fault
unfolding run_child err_sink
run_child_fault mkstemp cl tmpdir same stores apart = elim (built_or_not cl.command) [
  | inl (cmd, e) ↦
      rw
        (
          e,
          stores,
          apart,
          errfname_fault (mkstemp (outfname_full cl tmpdir))
              (omega (arith, same, length-outfname_full cl tmpdir)),
        )
        refl
  | inr none_built ↦ rw none_built refl
]
