-- ===== src/Witnesses/Starts.antt =====
-- The theorems on the start of a server, its GPUs and the end of a file, at small data.
use task_spooler.Base.{All, arith, ◌*◌, ◌≡◌, refl, ℕ, true, List, [], ◌∷◌, Option, some, none}
use task_spooler.Base.Int.{ℤ, pos, negsuc}
use task_spooler.Base.Run.{ok, Ensures}
use task_spooler.State.{Text, queued}
use task_spooler.Connections.Requests.{getenv}
use task_spooler.Gpu.Listed.{Nvml, get_visible_gpus, get_gpu_list}
use task_spooler.Gpu.Offered.{AllOffered, get_gpu_list-AllOffered}
use task_spooler.Start.{server_main}
use task_spooler.Jobs.NewJob.{s_newjob}
use task_spooler.Jobs.NewJob.Back.{IsBack, Behind, s_newjob-IsBack}
use task_spooler.Witnesses.Data.{a_job, busy_server, new_ls}
use task_spooler.Start.Settings.{IsStarted, server_main-IsStarted}

-- `a`, `b` and `c`, each on a line.
abbrev three_lines : Text
three_lines = b'a' ∷ b'\n' ∷ b'b' ∷ b'\n' ∷ b'c' ∷ b'\n' ∷ []

-- Two devices, the first of them full.
abbrev memory_of : ℤ → Option (ℕ × ℕ)
memory_of (negsuc n) = none
memory_of (pos n) = some (n * 1000, 1000)

abbrev two_gpus : Nvml
two_gpus = record { init = true; memory = memory_of }

get_gpu_list-AllOffered_example :
    (o : Option (List ℤ)) × ((get_gpu_list two_gpus (λ t. pos 2) 2 [] (pos 90) ≡ ok o)
      × AllOffered two_gpus (pos 90) (pos 0 ∷ pos 0 ∷ []) o)
unfolding get_visible_gpus getenv
get_gpu_list-AllOffered_example =
    get_gpu_list-AllOffered two_gpus (pos 90) (pos 0 ∷ pos 0 ∷ []) (λ n. refl) (λ t. pos 2) []
      (pos 0 ∷ pos 1 ∷ []) refl

server_main-IsStarted_example : Ensures IsStarted (server_main (λ t. pos 2) [] (some 1024) 2)
server_main-IsStarted_example = server_main-IsStarted (λ t. pos 2) [] (some 1024) 2

busy_server-Behind : Behind (pos 8) busy_server
busy_server-Behind = (
  (omega arith, (omega arith, (omega arith, (omega arith, tt)))),
  ((omega arith, tt), (tt, ((omega arith, tt), (tt, (tt, tt))))),
)

s_newjob-IsBack_example :
    Ensures
      (λ (id, t). All IsBack t.jobs)
      (s_newjob (a_job (pos 0) queued (pos 0) []) new_ls busy_server)
s_newjob-IsBack_example =
    s_newjob-IsBack (a_job (pos 0) queued (pos 0) []) new_ls busy_server (omega arith)
      busy_server-Behind
