-- ===== src/Jobs/Notices.antt =====
-- jobs.c: the list of clients that wait for a job, and the error levels that jobs wait for.
use task_spooler.Base.{Bool, true, false, List, [], ◌∷◌, ◌++◌, ite, not, ◌&&◌, ◌||◌, if◌then◌else◌}
use task_spooler.Base.Int.{ℤ, pos, ℤ_discrete, add_int, abs}
use task_spooler.Base.Run.{Run, ok, exits, fault, ◌>>=◌, or_fault}
use task_spooler.State.{Job, Notify, Reply, waitjob_ok, Server}
use task_spooler.Jobs.Find.{findjob, get_job, update_any, is_some, is_finished, is_skipped}

-- An int as a condition.
abbrev pub is_true : ℤ → Bool
is_true a = ite (ℤ_discrete a (pos 0)) false true

unfoldable pub send_msg : ℤ → Reply → Server → Server
send_msg socket m s = record s { sent = (socket, m) ∷ s.sent }

unfoldable pub in_notify_list : ℤ → List Notify → Bool
in_notify_list jobid [] = false
in_notify_list jobid (n ∷ rest) = ite (ℤ_discrete n.jobid jobid) true (in_notify_list jobid rest)

-- The new entry goes to the end.
unfoldable pub add_to_notify_list : ℤ → ℤ → Server → Server
add_to_notify_list socket jobid s = record s {
  notifies = s.notifies ++ record { socket = socket; jobid = jobid } ∷ [];
}

-- The list without the first entry for the socket.
unfoldable pub remove_socket : ℤ → List Notify → List Notify
remove_socket socket [] = []
remove_socket socket (n ∷ rest) =
    ite (ℤ_discrete n.socket socket) rest (n ∷ remove_socket socket rest)

unfoldable pub s_remove_notification : ℤ → Server → Server
unfolding remove_socket
s_remove_notification socket s = record s { notifies = remove_socket socket s.notifies }

-- `notified->dependency_errorlevel += abs(errorlevel)`.
abbrev pub add_errorlevel : ℤ → Job → Job
add_errorlevel errorlevel p = record p {
  dependency_errorlevel = add_int p.dependency_errorlevel (abs errorlevel);
}

-- The loop of notify_errorlevel over notify_errorlevel_to. A job that is gone is passed over.
unfoldable pub notify_loop : ℤ → List ℤ → Server → Server
notify_loop errorlevel [] s = s
notify_loop errorlevel (jobid ∷ rest) s =
    notify_loop errorlevel rest
      (if is_some (get_job jobid s) then update_any jobid (add_errorlevel errorlevel) s else s)

unfoldable pub notify_errorlevel : Job → Server → Server
unfolding notify_loop
notify_errorlevel p s =
    notify_loop p.result.errorlevel p.notify_errorlevel_to
      (record s { last_errorlevel = p.result.errorlevel })

-- The list less the node `j`, which is the first with its jobid, unless `queued` says that `j` is
-- still in the queue. The source's loop steps by `++i` and not by `i = i->next`, so past the first
-- node it leaves the list.
unfoldable pub destroy_finished_job : (queued : Bool) → ℤ → List Job → Run (List Job)
destroy_finished_job queued jobid [] = exits
destroy_finished_job true jobid (f ∷ rest) = fault
destroy_finished_job false jobid (f ∷ []) = ite (ℤ_discrete f.jobid jobid) (ok []) fault
destroy_finished_job false jobid (f ∷ g ∷ rest) =
    ite (ℤ_discrete f.jobid jobid) (ok (g ∷ rest))
      (ite (ℤ_discrete g.jobid jobid) (ok (f ∷ rest)) fault)

-- What happens to a waiting client of a job that has ended.
unfoldable pub answer_waiter : Notify → Job → Server → Run Server
unfolding send_msg s_remove_notification in_notify_list destroy_finished_job
answer_waiter n j s =
    let s' =
      s_remove_notification n.socket (send_msg n.socket (waitjob_ok j.result.errorlevel) s) in
    if not (in_notify_list n.jobid s'.notifies) && not (is_true j.should_keep_finished)
    then (do
      rest ← destroy_finished_job (is_some (findjob n.jobid s'.jobs)) n.jobid s'.first_finished
      ok (record s' { first_finished = rest }))
    else ok s'

-- The loop of check_notify_list. What it removes is never behind the node that it stands at, so the
-- nodes that it still visits are those of the list at the start.
unfoldable pub check_notify_loop : ℤ → List Notify → Server → Run Server
unfolding answer_waiter
check_notify_loop jobid [] s = ok s
check_notify_loop jobid (n ∷ rest) s =
    ite (ℤ_discrete n.jobid jobid)
      (do
        j ← or_fault (get_job jobid s)
        if is_finished j.state || is_skipped j.state then answer_waiter n j s else ok s)
      (ok s)
    >>= check_notify_loop jobid rest

unfoldable pub check_notify_list : ℤ → Server → Run Server
unfolding check_notify_loop
check_notify_list jobid s = check_notify_loop jobid s.notifies s
