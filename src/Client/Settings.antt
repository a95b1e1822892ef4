-- ===== src/Client/Settings.antt =====
-- client.c: the settings of the server, and the requests that are not answered.
use task_spooler.Base.{none, some, if◌then◌else◌, List, [], ◌∷◌}
use task_spooler.State.{Text, Reply, env_value, free_percentage_reply}
use task_spooler.Connections.Requests
use task_spooler.Connections.Requests.{Request}
use task_spooler.CommandLine.{CommandLine, strtok}
use task_spooler.Client.{
  Talk, ◌>>=◌, ◌>>◌, warning, send, print, recv_whole, lost, is_list_line, server_line, empty_line,
  number,
}

-- The label of a command line, which strlen reads.
abbrev with_label : CommandLine → (Text → Talk (Unit {0})) → Talk (Unit {0})
with_label cl f = elim cl.label [ none ↦ lost | some text ↦ f text ]

abbrev get_env_line : Reply → Talk (Unit {0})
get_env_line (env_value none) = print empty_line
get_env_line m = if is_list_line m then print (server_line m) else warning

abbrev get_env_of : Text → Talk (Unit {0})
get_env_of text = do send (Requests.get_env text); m ← recv_whole; get_env_line m

unfoldable pub c_get_env : CommandLine → Talk (Unit {0})
unfolding recv_whole
c_get_env cl = with_label cl get_env_of

-- The server cuts the text with strtok.
abbrev set_env_request : List Text → Request
set_env_request [] = Requests.set_env none none
set_env_request (name ∷ []) = Requests.set_env (some name) none
set_env_request (name ∷ value ∷ rest) = Requests.set_env (some name) (some value)

unfoldable pub c_set_env : CommandLine → Talk (Unit {0})
unfolding strtok
c_set_env cl = with_label cl (λ text. send (set_env_request (strtok b'=' [] text)))

unfoldable pub c_unset_env : CommandLine → Talk (Unit {0})
c_unset_env cl = with_label cl (λ text. send (Requests.unset_env text))

unfoldable pub c_set_free_percentage : CommandLine → Talk (Unit {0})
c_set_free_percentage cl = send (Requests.set_free_perc cl.gpus)

abbrev free_percentage_line : Reply → Talk (Unit {0})
free_percentage_line (free_percentage_reply n) = print (number n)
free_percentage_line m = warning

unfoldable pub c_get_free_percentage : Talk (Unit {0})
unfolding recv_whole
c_get_free_percentage = do send Requests.get_free_perc; m ← recv_whole; free_percentage_line m

unfoldable pub c_set_logdir : CommandLine → Talk (Unit {0})
c_set_logdir cl = with_label cl (λ text. send (Requests.set_logdir text))

unfoldable pub c_send_max_slots : CommandLine → Talk (Unit {0})
c_send_max_slots cl = send (Requests.set_max_slots cl.max_slots)

unfoldable pub c_shutdown_server : Talk (Unit {0})
c_shutdown_server = send Requests.kill_server

unfoldable pub c_clear_finished : Talk (Unit {0})
c_clear_finished = send Requests.clear_finished
