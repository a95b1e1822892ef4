-- ===== src/Client/Kill.antt =====
-- client.c with jobs.c: `-T` ends the jobs that run, and the loops over the PIDs of both sides agree.
use task_spooler.Base.{
  ◌≡◌, refl, ap, ◌∙◌, ℕ, List, [], ◌∷◌, ◌++◌, map, length, if◌then◌else◌, arith, ℕ,
}
use mathlib.Core.List.{append-nil}
use task_spooler.Base.Int.{ℤ, pos, sub_int}
use task_spooler.Base.Run.{ok, ◌>>=◌}
use task_spooler.State.{Reply, Job, Server, running_pid, count_running}
use task_spooler.Jobs.Find.{is_running}
use task_spooler.Jobs.Notices.{send_msg}
use task_spooler.Jobs.Query.{running_jobs, send_pids, s_count_running_jobs, s_kill_all_jobs}
use task_spooler.Connections.Requests
use task_spooler.Connections.Requests.{World, handle}
use task_spooler.Client.{Client, goes_on, recv_msg, recv_whole}
use task_spooler.Client.Ask.{recv_pid, kill_pids, c_kill_all_jobs}
use task_spooler.Client.Answers.{inbox_of, answers, fresh}

-- The PIDs of the jobs that run, in the order of the queue.
unfoldable pub pids : List Job → List ℤ
pids [] = []
pids (p ∷ rest) = if is_running p.state then p.pid ∷ pids rest else pids rest

-- SIGTERM to each process group, on top of what was sent before.
unfoldable pub killed_on : List ℤ → List ℤ → List ℤ
killed_on [] killed = killed
killed_on (pid ∷ rest) killed = killed_on rest (sub_int (pos 0) pid ∷ killed)

length-pids : (jobs : List Job) → length (pids jobs) ≡ running_jobs jobs
unfolding pids running_jobs
length-pids [] = refl
length-pids (p ∷ rest) = ground (arith, length-pids rest)

inbox_of-send_pids :
    (socket : ℤ) (jobs : List Job) (s : Server) (later : List Reply)
    → inbox_of socket (send_pids socket jobs s).sent later
      ≡ inbox_of socket s.sent (map running_pid (pids jobs) ++ later)
unfolding inbox_of send_pids pids send_msg
inbox_of-send_pids socket [] s later = refl
inbox_of-send_pids socket (p ∷ rest) s later = ground (
  arith,
  inbox_of-send_pids socket rest s later,
  inbox_of-send_pids socket rest (send_msg socket (running_pid p.pid) s) later,
)

kill_pids-all :
    (ps : List ℤ) (c : Client)
    → kill_pids (length ps) (record c { inbox = map running_pid ps })
      ≡ goes_on tt (record c { inbox = []; killed = killed_on ps c.killed })
unfolding kill_pids killed_on recv_pid
kill_pids-all [] c = refl
kill_pids-all (pid ∷ ps) c = kill_pids-all ps (record c { killed = sub_int (pos 0) pid ∷ c.killed })

inbox_of-kill_all :
    (socket : ℤ) (s : Server)
    → inbox_of socket (s_kill_all_jobs socket (record s { sent = [] })).sent []
      ≡ count_running (length (pids s.jobs)) ∷ map running_pid (pids s.jobs)
unfolding s_kill_all_jobs s_count_running_jobs send_msg inbox_of
inbox_of-kill_all socket s = ground (
  arith,
  inbox_of-send_pids socket s.jobs (s_count_running_jobs socket (record s { sent = [] })) [],
  append-nil (map running_pid (pids s.jobs)),
  length-pids s.jobs,
)

-- A client that asks to kill all jobs gets as many PIDs as the server has announced, those of the
-- running jobs, and sends SIGTERM to each of their process groups once, in the order of the queue.
pub kill_all-kills :
    (w : World) (socket : ℤ) (index : ℕ) (s : Server)
    → (do inbox ← answers w socket index Requests.kill_all s; ok (c_kill_all_jobs (fresh inbox)))
      ≡ ok (
          goes_on tt (record (fresh []) {
            asked = Requests.kill_all ∷ [];
            killed = killed_on (pids s.jobs) [];
          }))
unfolding answers handle s_kill_all_jobs s_count_running_jobs send_msg c_kill_all_jobs recv_whole
    recv_msg
kill_all-kills w socket index s =
    ap (λ inbox. ok (c_kill_all_jobs (fresh inbox))) (inbox_of-kill_all socket s)
    ∙ ap (λ e. ok e)
        (kill_pids-all (pids s.jobs) (record (fresh []) { asked = Requests.kill_all ∷ [] }))
