-- ===== src/Jobs/Keep/Waiters.antt =====
-- check_notify_list leaves the queue alone.
use task_spooler.Base.{
  ◌≡◌, refl, ◌∙◌, Bool-cases, inl, inr, not, ◌&&◌, ◌||◌, List, [], ◌∷◌, ite, if_pos, if_neg,
  if◌then◌else◌,
}
use task_spooler.Base.Int.{ℤ, ℤ_discrete}
use task_spooler.Base.Run.{ok, ◌>>=◌, Ensures, Ensures-step, Ensures-ok, Ensures-mono, or_fault}
use task_spooler.State.{Job, Notify, Server, waitjob_ok}
use task_spooler.Jobs.Find.{findjob, get_job, is_finished, is_skipped, is_some}
use task_spooler.Jobs.Notices.{
  send_msg, is_true, in_notify_list, s_remove_notification, destroy_finished_job, answer_waiter,
  check_notify_loop, check_notify_list,
}

abbrev SameQueued : Server → Server → Type 0
SameQueued s t = t.jobs ≡ s.jobs

answer_waiter-SameQueued :
    (n : Notify) (j : Job) (s : Server) → Ensures (SameQueued s) (answer_waiter n j s)
unfolding answer_waiter s_remove_notification send_msg
answer_waiter-SameQueued n j s =
    let s' =
      s_remove_notification n.socket (send_msg n.socket (waitjob_ok j.result.errorlevel) s) in
    elim (Bool-cases
      (not (in_notify_list n.jobid s'.notifies) && not (is_true j.should_keep_finished))) [
        | inl last ↦ rw last (
            Ensures-step (SameQueued s)
              (destroy_finished_job (is_some (findjob n.jobid s.jobs)) n.jobid s.first_finished) _
              λ rest e. refl)
        | inr more ↦ rw more refl
      ]

check_one-SameQueued :
    (jobid : ℤ) (n : Notify) (s : Server)
    → Ensures (SameQueued s) (
        ite
          (ℤ_discrete n.jobid jobid)
          (or_fault (get_job jobid s) >>= λ j.
            if is_finished j.state || is_skipped j.state then answer_waiter n j s else ok s)
          (ok s))
check_one-SameQueued jobid n s = elim (ℤ_discrete n.jobid jobid) [
  | yes hit ↦ rw (if_pos _ hit) (
      Ensures-step (SameQueued s) (or_fault (get_job jobid s)) _ λ j e.
        elim (Bool-cases (is_finished j.state || is_skipped j.state)) [
          | inl over ↦ rw over (answer_waiter-SameQueued n j s)
          | inr still ↦ rw still refl
        ])
  | no miss ↦ rw (if_neg _ miss) refl
]

check_notify_loop-SameQueued :
    (jobid : ℤ) (ns : List Notify) (s : Server)
    → Ensures (SameQueued s) (check_notify_loop jobid ns s)
unfolding check_notify_loop
check_notify_loop-SameQueued jobid [] s = refl
check_notify_loop-SameQueued jobid (n ∷ ns) s =
    Ensures-step (SameQueued s) _ (check_notify_loop jobid ns) λ t e.
      Ensures-mono (check_notify_loop jobid ns t) (check_notify_loop-SameQueued jobid ns t)
        λ u k. k ∙ Ensures-ok (SameQueued s) _ (check_one-SameQueued jobid n s) e

pub check_notify_list-SameQueued :
    (jobid : ℤ) (s : Server) → Ensures (SameQueued s) (check_notify_list jobid s)
unfolding check_notify_list
check_notify_list-SameQueued jobid s = check_notify_loop-SameQueued jobid s.notifies s
