-- ===== src/Jobs/Finish/Waiters.antt =====
-- check_notify_list: the clients that wait for a job which has ended and is kept.
use task_spooler.Base.{
  ℕ, zero, suc, ◌≤◌, ◌<◌, ◌≡◌, refl, sym, ◌∙◌, ap, ◌||◌, ◌&&◌, Bool-cases, inl, inr, not, Bool,
  true, false, List, [], ◌∷◌, ite, if_pos, if_neg, subst, ◌≢◌, some, arith,
}
use task_spooler.Base.Int.{ℤ, ℤ_discrete}
use task_spooler.Base.Run.{ok}
use task_spooler.State.{Reply, waitjob_ok, Notify, Job, Server, Result}
use task_spooler.Jobs.Find.{findjob, get_job, last_job, is_finished, is_skipped}
use task_spooler.Jobs.Notices.{
  in_notify_list, remove_socket, is_true, send_msg, s_remove_notification, answer_waiter,
  check_notify_loop, check_notify_list,
}
use task_spooler.Jobs.Finish.{mark_ended, end_state}
use task_spooler.Jobs.Finish.Effect.{told-fields}
use task_spooler.Jobs.Finish.Outcome.{ended, IsEnded}
use task_spooler.Jobs.Lookup.{count, told}
use task_spooler.Jobs.Ids.{ids, copies, findjob-none}

-- What the waiting clients of the job are sent, on top of what was sent before.
unfoldable pub answers_on : ℤ → ℤ → List Notify → List (ℤ × Reply) → List (ℤ × Reply)
answers_on jobid errorlevel [] sent = sent
answers_on jobid errorlevel (n ∷ rest) sent =
    answers_on jobid errorlevel rest
      (ite (ℤ_discrete n.jobid jobid) ((n.socket, waitjob_ok errorlevel) ∷ sent) sent)

-- All but the notify list and what was sent.
pub record Told (jobid errorlevel : ℤ) (ns : List Notify) (s t : Server) : Type 0 where
  pub jobs : t.jobs ≡ s.jobs
  pub first_finished : t.first_finished ≡ s.first_finished
  pub conns : t.conns ≡ s.conns
  pub last_errorlevel : t.last_errorlevel ≡ s.last_errorlevel
  pub last_finished_jobid : t.last_finished_jobid ≡ s.last_finished_jobid
  pub busy_slots : t.busy_slots ≡ s.busy_slots
  pub sent : t.sent ≡ answers_on jobid errorlevel ns s.sent

-- A job that has ended and is kept.
abbrev pub IsKept : ℤ → Job → Server → Type 0
IsKept jobid j s =
    (get_job jobid s ≡ some j)
    × ((is_finished j.state || is_skipped j.state) ≡ true)
    × (is_true j.should_keep_finished ≡ true)

abbrev told_waiter : ℤ → Notify → Server → Server
unfolding send_msg s_remove_notification
told_waiter errorlevel n s =
    s_remove_notification n.socket (send_msg n.socket (waitjob_ok errorlevel) s)

and_false : (b : Bool) → (b && false) ≡ false
and_false true = refl
and_false false = refl

answer_waiter_kept :
    (n : Notify) (j : Job) (s : Server)
    → is_true j.should_keep_finished ≡ true
    → answer_waiter n j s ≡ ok (told_waiter j.result.errorlevel n s)
unfolding answer_waiter
answer_waiter_kept n j s keep =
    rw keep (rw (and_false (not (in_notify_list n.jobid (remove_socket n.socket s.notifies)))) refl)

after_waiter : ℤ → ℤ → Notify → Server → Server
after_waiter jobid errorlevel n s = ite (ℤ_discrete n.jobid jobid) (told_waiter errorlevel n s) s

module _ (jobid errorlevel : ℤ) (n : Notify) (s : Server) where
  after_waiter_hit :
      n.jobid ≡ jobid → after_waiter jobid errorlevel n s ≡ told_waiter errorlevel n s
  unfolding after_waiter
  after_waiter_hit hit = if_pos (ℤ_discrete n.jobid jobid) hit _ _

  after_waiter_miss : n.jobid ≢ jobid → after_waiter jobid errorlevel n s ≡ s
  unfolding after_waiter
  after_waiter_miss miss = if_neg (ℤ_discrete n.jobid jobid) miss _ _

after_waiter-IsKept :
    (jobid errorlevel : ℤ) (n : Notify) (j : Job) (s : Server)
    → IsKept jobid j s
    → IsKept jobid j (after_waiter jobid errorlevel n s)
unfolding get_job told_waiter
after_waiter-IsKept jobid errorlevel n j s h = elim (ℤ_discrete n.jobid jobid) [
  | yes hit ↦ subst (IsKept jobid j) (sym (after_waiter_hit jobid errorlevel n s hit)) h
  | no miss ↦ subst (IsKept jobid j) (sym (after_waiter_miss jobid errorlevel n s miss)) h
]

check_notify_loop_step :
    (jobid : ℤ) (n : Notify) (ns : List Notify) (j : Job) (s : Server)
    → IsKept jobid j s
    → check_notify_loop jobid (n ∷ ns) s
      ≡ check_notify_loop jobid ns (after_waiter jobid j.result.errorlevel n s)
unfolding check_notify_loop
check_notify_loop_step jobid n ns j s h = elim (ℤ_discrete n.jobid jobid) [
  | yes hit ↦
      rw (if_pos _ hit, h.0, h.1, answer_waiter_kept n j s h.2)
        (ap (check_notify_loop jobid ns) (sym (after_waiter_hit jobid j.result.errorlevel n s hit)))
  | no miss ↦
      rw (if_neg _ miss) (
        ap (check_notify_loop jobid ns)
          (sym (after_waiter_miss jobid j.result.errorlevel n s miss)))
]

Told-step :
    (jobid errorlevel : ℤ) (n : Notify) (ns : List Notify) (s t : Server)
    → Told jobid errorlevel ns (after_waiter jobid errorlevel n s) t
    → Told jobid errorlevel (n ∷ ns) s t
unfolding answers_on told_waiter
Told-step jobid errorlevel n ns s t h = elim (ℤ_discrete n.jobid jobid) [
  | yes hit ↦
      (let k =
          subst (λ u. Told jobid errorlevel ns u t) (after_waiter_hit jobid errorlevel n s hit) h in
        record {
          jobs = k.jobs;
          first_finished = k.first_finished;
          conns = k.conns;
          last_errorlevel = k.last_errorlevel;
          last_finished_jobid = k.last_finished_jobid;
          busy_slots = k.busy_slots;
          sent =
              k.sent
              ∙ sym
                  (ap (answers_on jobid errorlevel ns) (if_pos (ℤ_discrete n.jobid jobid) hit _ _));
        })
  | no miss ↦
      (let k =
          subst (λ u. Told jobid errorlevel ns u t) (after_waiter_miss jobid errorlevel n s miss)
            h in
        record {
          jobs = k.jobs;
          first_finished = k.first_finished;
          conns = k.conns;
          last_errorlevel = k.last_errorlevel;
          last_finished_jobid = k.last_finished_jobid;
          busy_slots = k.busy_slots;
          sent =
              k.sent
              ∙ sym (
                  ap (answers_on jobid errorlevel ns) (if_neg (ℤ_discrete n.jobid jobid) miss _ _));
        })
]

check_notify_loop_kept :
    (jobid : ℤ) (ns : List Notify) (j : Job) (s : Server)
    → IsKept jobid j s
    → (t : Server) × (check_notify_loop jobid ns s ≡ ok t) × Told jobid j.result.errorlevel ns s t
unfolding check_notify_loop answers_on
check_notify_loop_kept jobid [] j s h = (s, refl, ground arith)
check_notify_loop_kept jobid (n ∷ ns) j s h =
    let u = after_waiter jobid j.result.errorlevel n s in
    let (t, e, k) =
      check_notify_loop_kept jobid ns j u (after_waiter-IsKept jobid j.result.errorlevel n j s h) in
    (t, check_notify_loop_step jobid n ns j s h ∙ e, Told-step jobid j.result.errorlevel n ns s t k)

-- Each client that waits for a job which has ended and is kept is told its error level.
pub check_notify_list_kept :
    (jobid : ℤ) (j : Job) (s : Server)
    → IsKept jobid j s
    → (t : Server) × (check_notify_list jobid s ≡ ok t)
      × Told jobid j.result.errorlevel s.notifies s t
unfolding check_notify_list
check_notify_list_kept jobid j s h = check_notify_loop_kept jobid s.notifies j s h

last_job-pos : (jobs : List Job) (p : Job) → last_job jobs ≡ some p → 0 < count p.jobid (ids jobs)
unfolding last_job count
last_job-pos [] p e = cc
last_job-pos (q ∷ []) p e = ground arith
last_job-pos (q ∷ r ∷ rest) p e = ground (arith, last_job-pos (r ∷ rest) p)

findjob-last_job :
    (jobs : List Job) (p : Job)
    → last_job jobs ≡ some p
    → count p.jobid (ids jobs) ≤ 1
    → findjob p.jobid jobs ≡ some p
unfolding last_job count findjob
findjob-last_job [] p e h = cc
findjob-last_job (q ∷ []) p e h = ground arith
findjob-last_job (q ∷ r ∷ rest) p e h = elim (ℤ_discrete q.jobid p.jobid) [
  | yes hit ↦ absurd (ground (arith, last_job-pos (r ∷ rest) p e))
  | no miss ↦ rw (if_neg _ miss) (findjob-last_job (r ∷ rest) p e (ground arith))
]

-- The job that ended last is the one that a search for its jobid finds.
pub get_job-last_job :
    (s : Server) (p : Job)
    → last_job s.first_finished ≡ some p
    → copies p.jobid s ≤ 1
    → get_job p.jobid s ≡ some p
unfolding get_job
get_job-last_job s p e h = ground (
  arith,
  findjob-none p.jobid s.jobs,
  last_job-pos s.first_finished p e,
  findjob-last_job s.first_finished p e,
)

told-result : (n : ℕ) (e : ℤ) (p : Job) → (told n e p).result ≡ p.result
unfolding told
told-result zero e p = refl
told-result (suc n) e p = told-result n e _

pub ended-result : (r : Result) (p : Job) → (ended r p).result ≡ r
ended-result r p = told-result (count p.jobid p.notify_errorlevel_to) r.errorlevel (mark_ended r p)

end_state_ended : (r : Result) → (is_finished (end_state r) || is_skipped (end_state r)) ≡ true
end_state_ended r = elim (Bool-cases (is_true r.skipped)) [
  | inl skip ↦ rw skip refl
  | inr ran ↦ rw ran refl
]

-- A job that was to be kept is kept when it has ended.
pub ended-IsKept :
    (r : Result) (p : Job) (s t : Server)
    → IsEnded r p s t
    → is_true p.should_keep_finished ≡ true
    → copies p.jobid t ≤ 1
    → IsKept p.jobid (ended r p) t
ended-IsKept r p s t h keep one =
    let (state, id, kept) =
      told-fields (count p.jobid p.notify_errorlevel_to) r.errorlevel (mark_ended r p) in
    (
      subst (λ x. get_job x t ≡ some (ended r p)) id
          (get_job-last_job t (ended r p) (h.kept (rw keep refl))
            (subst (λ x. copies x t ≤ 1) (sym id) one)),
      rw state (end_state_ended r),
      rw kept keep,
    )
