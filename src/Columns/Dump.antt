-- ===== src/Columns/Dump.antt =====
-- jobs.c and list.c: the script that a server leaves when SIGTERM ends it.
use task_spooler.Base.{ℕ, List, [], ◌∷◌, ◌++◌}
use task_spooler.Base.Run.{Run, ok, ◌>>=◌}
use task_spooler.Base.Strings.{codes}
use task_spooler.State.{Text, Job, Server}
use task_spooler.Printing.{decimal, on_left, concat, snprintf}
use task_spooler.Columns.Lines.{Floats, newline, joblist_line, joblistdump_torun}

unfoldable pub joblistdump_headers : Text
unfolding snprintf concat
joblistdump_headers = snprintf 600 (
    concat (
      codes "#!/bin/sh"
      ∷ newline
      ∷ codes "# - task spooler (ts) job dump"
      ∷ newline
      ∷ codes "# This file has been created because a SIGTERM killed"
      ∷ newline
      ∷ codes "# your queue server."
      ∷ newline
      ∷ codes "# The finished commands are listed first."
      ∷ newline
      ∷ codes "# The commands running or to be run are stored as you would"
      ∷ newline
      ∷ codes "# probably run them. Take care - some quotes may have got broken"
      ∷ newline
      ∷ newline
      ∷ []))

abbrev title : ℕ → Text → Text
unfolding on_left
title w s = on_left w s ++ b' ' ∷ []

unfoldable pub joblist_headers : Server → Text
unfolding title snprintf concat decimal
joblist_headers s = snprintf 100 (
    concat (
      title 4 (codes "ID")
      ∷ title 10 (codes "State")
      ∷ title 20 (codes "Output")
      ∷ title 8 (codes "E-Level")
      ∷ title 6 (codes "Time")
      ∷ title 5 (codes "GPUs")
      ∷ codes "Command [run="
      ∷ decimal s.busy_slots
      ∷ codes "/"
      ∷ decimal s.max_slots
      ∷ codes "]"
      ∷ newline
      ∷ []))

-- The loop over the finished jobs, as comments.
unfoldable pub dump_finished : Floats → ℕ → List Job → Run Text
unfolding joblist_line
dump_finished fl term_width [] = ok []
dump_finished fl term_width (p ∷ rest) = do
  line ← joblist_line fl term_width p
  more ← dump_finished fl term_width rest
  ok (codes "# " ++ (line ++ more))

-- The loop over the queue.
unfoldable pub dump_queue : List Job → Text
unfolding joblistdump_torun
dump_queue [] = []
dump_queue (p ∷ rest) = joblistdump_torun p ++ dump_queue rest

unfoldable pub joblist_dump : Floats → ℕ → Server → Run Text
unfolding joblistdump_headers joblist_headers dump_finished dump_queue
joblist_dump fl term_width s = do
  finished_lines ← dump_finished fl term_width s.first_finished
  ok (
      joblistdump_headers
      ++ (codes "# " ++ (joblist_headers s ++ (finished_lines ++ (newline ++ dump_queue s.jobs)))))
