-- ===== src/Connections/Sound.antt =====
-- What the messages of clients keep of the server.
use task_spooler.Base.{
  ℕ, zero, suc, ◌+◌, ◌-◌, ◌^◌, ◌≡◌, refl, Bool-cases, inl, inr, true, false, not, ◌&&◌, List, [],
  ◌∷◌, Option, some, none, ite, arith, length, take, set, get_elem?,
}
use task_spooler.Base.Int.{ℤ, ℤ_discrete, pos, ◌≤ℤ◌, ◌<ℤ◌}
use task_spooler.Base.Run.{ok, Ensures, Ensures-step, Ensures-ok, Ensures-mono, or_fault-eq_ok}
use task_spooler.State.{ClientConn, Result, Server, closed}
use task_spooler.Jobs.Notices.{send_msg, is_true, check_notify_list, s_remove_notification}
use task_spooler.Jobs.Finish.{job_finished}
use task_spooler.Jobs.Keep.{Keeps, Keeps-refl, Keeps-trans, IsSound, Keeps-IsSound}
use task_spooler.Jobs.Keep.Ending.{job_finished-Keeps, check_notify_list-Keeps}
use task_spooler.Jobs.Keep.Removal.{s_remove_job-Keeps}
use task_spooler.Jobs.NewJob.{NewJobMsg, s_newjob}
use task_spooler.Jobs.NewJob.Join.{s_newjob-IsSound}
use task_spooler.Jobs.Remove.{s_remove_job}
use task_spooler.Connections.{
  conn_at, set_conn, shift_loop, remove_connection, killed, end_job, clean_after_client_disappeared,
  s_newjob_ok, s_newjob_nok,
}
use task_spooler.Connections.Requests.{
  World, max_finished, close_connection, job_is_holding_client, answer_newjob, read_newjob,
  close_if_of_job, close_of_job, read_removejob,
}

-- A change of the connections alone.
pub conns-Keeps : (s : Server) (conns : List ClientConn) → Keeps s (record s { conns = conns })
conns-Keeps s conns = record { accounted = λ a. a; no_more = λ id. omega arith; counter = refl }

-- The connection, if there is one, has no job.
abbrev pub IsIdleAt : ℕ → List ClientConn → Type 0
IsIdleAt index conns = (c : ClientConn) → get_elem? conns index ≡ some c → c.hasjob ≡ false

remove_connection-Keeps :
    (index : ℕ) (s : Server)
    → IsIdleAt index s.conns
    → Ensures (Keeps s) (remove_connection index s)
unfolding remove_connection
remove_connection-Keeps index s idle = Ensures-step (Keeps s) (conn_at index s) _ λ c e.
    rw (idle c (or_fault-eq_ok _ e)) (
      Ensures-step (Keeps s) (shift_loop (length s.conns - 1 - index) index s.conns) _
        λ conns e'. conns-Keeps s (take (length s.conns - 1) conns))

pub close_connection-Keeps :
    (socket : ℤ) (index : ℕ) (s : Server)
    → IsIdleAt index s.conns
    → Ensures (Keeps s) (close_connection socket index s)
unfolding close_connection send_msg
close_connection-Keeps socket index s idle =
    Ensures-mono (remove_connection index (send_msg socket closed s))
      (remove_connection-Keeps index (send_msg socket closed s) idle)
      λ t k. record { accounted = k.accounted; no_more = k.no_more; counter = k.counter }

get_elem?-set :
    (conns : List ClientConn) (index : ℕ) (c d : ClientConn)
    → get_elem? (set conns index c) index ≡ some d
    → d ≡ c
get_elem?-set [] index c d e = cc
get_elem?-set (x ∷ conns) zero c d e = cc
get_elem?-set (x ∷ conns) (suc index) c d e = get_elem?-set conns index c d e

set-IsIdleAt :
    (conns : List ClientConn) (index : ℕ) (c : ClientConn)
    → c.hasjob ≡ false
    → IsIdleAt index (set conns index c)
set-IsIdleAt conns index c h d e = rw (get_elem?-set conns index c d e) h

-- The job of a connection ends: the server keeps sound, and the connection has no job any more.
pub end_job-Keeps :
    (max : ℤ) (r : Result) (index : ℕ) (s : Server)
    → Ensures (λ t. Keeps s t × IsIdleAt index t.conns) (end_job max r index s)
unfolding end_job
end_job-Keeps max r index s = Ensures-step _ (conn_at index s) _ λ c e0.
    Ensures-step _ (job_finished max r c.jobid s) _ λ s1 e1.
      Ensures-step _ (check_notify_list c.jobid s1) _ λ s2 e2.
        let k1 = Ensures-ok (Keeps s) _ (job_finished-Keeps max r c.jobid s) e1 in
        let k2 = Ensures-ok (Keeps s1) _ (check_notify_list-Keeps c.jobid s1) e2 in
        (
          Keeps-trans k1 (Keeps-trans k2 (conns-Keeps s2 _)),
          set-IsIdleAt s2.conns index (record c { hasjob = false }) refl,
        )

idle_at :
    {o : Option ClientConn} (c d : ClientConn)
    → o ≡ some c
    → o ≡ some d
    → c.hasjob ≡ false
    → d.hasjob ≡ false
idle_at c d e e' h = cc

pub clean_after_client_disappeared-Keeps :
    (max socket : ℤ) (index : ℕ) (s : Server)
    → Ensures (Keeps s) (clean_after_client_disappeared max socket index s)
unfolding clean_after_client_disappeared s_remove_notification close_connection
clean_after_client_disappeared-Keeps max socket index s =
    Ensures-step (Keeps s) (conn_at index s) _ λ c e. elim (Bool-cases c.hasjob) [
      | inl job ↦ rw job (
          Ensures-step (Keeps s) (end_job max killed index s) _ λ t e'.
            let (k, idle) = Ensures-ok _ _ (end_job-Keeps max killed index s) e' in
            Ensures-mono (close_connection socket index t)
              (close_connection-Keeps socket index t idle) λ u k'. Keeps-trans k k')
      | inr free ↦ rw free (
          let t = s_remove_notification socket s in
          Ensures-mono (close_connection socket index t)
            (close_connection-Keeps socket index t λ d e'. idle_at c d (or_fault-eq_ok _ e) e' free)
            λ u k. record { accounted = k.accounted; no_more = k.no_more; counter = k.counter })
    ]

pub s_newjob_ok-Keeps : (index : ℕ) (s : Server) → Ensures (Keeps s) (s_newjob_ok index s)
unfolding s_newjob_ok send_msg
s_newjob_ok-Keeps index s = Ensures-step (Keeps s) (conn_at index s) _ λ c e.
    elim (Bool-cases c.hasjob) [
      | inl job ↦
          rw job (record { accounted = λ a. a; no_more = λ id. omega arith; counter = refl })
      | inr free ↦ rw free tt
    ]

s_newjob_nok-Keeps : (index : ℕ) (s : Server) → Ensures (Keeps s) (s_newjob_nok index s)
unfolding s_newjob_nok send_msg
s_newjob_nok-Keeps index s = Ensures-step (Keeps s) (conn_at index s) _ λ c e.
    elim (Bool-cases c.hasjob) [
      | inl job ↦
          rw job (record { accounted = λ a. a; no_more = λ id. omega arith; counter = refl })
      | inr free ↦ rw free tt
    ]

answer_newjob-Keeps :
    (w : World) (socket : ℤ) (index : ℕ) (jobid wait_enqueuing : ℤ) (s : Server)
    → Ensures (Keeps s) (answer_newjob w socket index jobid wait_enqueuing s)
unfolding answer_newjob
answer_newjob-Keeps w socket index jobid wait_enqueuing s =
    elim (Bool-cases (not (job_is_holding_client jobid s))) [
      | inl queued ↦ rw queued (s_newjob_ok-Keeps index s)
      | inr held ↦ rw held (elim (Bool-cases (not (is_true wait_enqueuing))) [
        | inl leaves ↦ rw leaves (
            Ensures-step (Keeps s) (s_newjob_nok index s) _ λ t e.
              Ensures-mono (clean_after_client_disappeared (max_finished w s) socket index t)
                (clean_after_client_disappeared-Keeps (max_finished w s) socket index t)
                λ u k. Keeps-trans (Ensures-ok (Keeps s) _ (s_newjob_nok-Keeps index s) e) k)
        | inr waits ↦ rw waits (Keeps-refl s)
      ])
    ]

pub read_newjob-IsSound :
    (w : World) (index : ℕ) (m : NewJobMsg) (s : Server)
    → pos 0 ≤ℤ s.jobids
    → s.jobids <ℤ pos (2 ^ 31 - 1)
    → IsSound s
    → Ensures IsSound (read_newjob w index m s)
unfolding read_newjob
read_newjob-IsSound w index m s p q h = Ensures-step IsSound (conn_at index s) _ λ c e.
    Ensures-step IsSound (s_newjob w.raw m s) _ λ (id, t) e'.
      let u = set_conn index (record c { hasjob = true; jobid = id }) t in
      let sound =
        Keeps-IsSound (conns-Keeps t u.conns)
          (Ensures-ok _ _ (s_newjob-IsSound w.raw m s p q h) e') in
      Ensures-mono (answer_newjob w c.socket index id m.wait_enqueuing u)
        (answer_newjob-Keeps w c.socket index id m.wait_enqueuing u) λ v k. Keeps-IsSound k sound

close_if_of_job-Keeps :
    (jobid : ℤ) (i : ℕ) (c : ClientConn) (s : Server)
    → Ensures (Keeps s) (close_if_of_job jobid i c s)
unfolding close_if_of_job
close_if_of_job-Keeps jobid i c s =
    elim (Bool-cases (c.hasjob && ite (ℤ_discrete c.jobid jobid) true false)) [
      | inl its ↦
          let t = set_conn i (record c { hasjob = false }) s in
          rw its (
            Ensures-mono (close_connection c.socket i t)
              (close_connection-Keeps c.socket i t
                (set-IsIdleAt s.conns i (record c { hasjob = false }) refl))
              λ u k. Keeps-trans (conns-Keeps s t.conns) k)
      | inr other ↦ rw other (Keeps-refl s)
    ]

close_one-Keeps :
    (jobid : ℤ) (i : ℕ) (o : Option ClientConn) (s : Server)
    → Ensures (Keeps s) (elim o [ none ↦ ok s | some c ↦ close_if_of_job jobid i c s ])
close_one-Keeps jobid i none s = Keeps-refl s
close_one-Keeps jobid i (some c) s = close_if_of_job-Keeps jobid i c s

close_of_job-Keeps :
    (jobid : ℤ) (rounds i : ℕ) (s : Server) → Ensures (Keeps s) (close_of_job jobid rounds i s)
unfolding close_of_job
close_of_job-Keeps jobid zero i s = Keeps-refl s
close_of_job-Keeps jobid (suc rounds) i s =
    Ensures-step (Keeps s) _ (close_of_job jobid rounds (i + 1)) λ t e.
      Ensures-mono (close_of_job jobid rounds (i + 1) t) (close_of_job-Keeps jobid rounds (i + 1) t)
        λ u k.
          Keeps-trans (Ensures-ok (Keeps s) _ (close_one-Keeps jobid i (get_elem? s.conns i) s) e) k

close_removed-Keeps :
    (removed : Option ℤ) (s : Server)
    → Ensures
        (Keeps s)
        (elim removed [ none ↦ ok s | some id ↦ close_of_job id (length s.conns) 0 s ])
close_removed-Keeps none s = Keeps-refl s
close_removed-Keeps (some id) s = close_of_job-Keeps id (length s.conns) 0 s

pub read_removejob-Keeps :
    (socket jobid : ℤ) (s : Server) → IsSound s → Ensures (Keeps s) (read_removejob socket jobid s)
unfolding read_removejob
read_removejob-Keeps socket jobid s h =
    Ensures-step (Keeps s) (s_remove_job socket jobid s) _ λ (removed, t) e.
      Ensures-mono (elim removed [ none ↦ ok t | some id ↦ close_of_job id (length t.conns) 0 t ])
        (close_removed-Keeps removed t)
        λ u k. Keeps-trans (Ensures-ok _ _ (s_remove_job-Keeps socket jobid s h.1) e) k
