-- ===== src/Client/Show.antt =====
-- client.c: the functions that print all that the server sends until it closes the connection.
use task_spooler.Base.{List, [], ◌∷◌, if◌then◌else◌}
use task_spooler.State.{Reply, closed, running_pid, job_info, info_data}
use task_spooler.Connections.Requests
use task_spooler.CommandLine.{CommandLine}
use task_spooler.Client.{
  goes_on, waits, lost, Talk, ◌>>◌, send, is_list_line, server_line, info_text,
}

-- The loop of c_wait_server_lines over the messages that come; one of another type is passed over.
unfoldable pub server_lines : List Reply → Talk (Unit {0})
server_lines [] c = waits (record c { inbox = [] })
server_lines (closed ∷ rest) c = goes_on tt (record c { inbox = closed ∷ rest })
server_lines (running_pid pid ∷ rest) c = lost (record c { inbox = running_pid pid ∷ rest })
server_lines (job_info p ∷ rest) c = lost (record c { inbox = job_info p ∷ rest })
server_lines (m ∷ rest) c =
    server_lines rest
      (if is_list_line m then record c { printed = server_line m ∷ c.printed } else c)

unfoldable pub c_wait_server_lines : Talk (Unit {0})
unfolding server_lines
c_wait_server_lines c = server_lines c.inbox c

unfoldable pub c_list_jobs : CommandLine → Talk (Unit {0})
c_list_jobs cl = send (Requests.list_request cl.list_format)

unfoldable pub c_list_gpu_jobs : Talk (Unit {0})
c_list_gpu_jobs = send Requests.list_gpu_request

-- After INFO_DATA all is printed as it comes; a message there would be printed as its bytes.
unfoldable pub raw_text : List Reply → Talk (Unit {0})
raw_text [] c = waits (record c { inbox = [] })
raw_text (closed ∷ rest) c = goes_on tt (record c { inbox = closed ∷ rest })
raw_text (job_info p ∷ rest) c = raw_text rest (record c { printed = info_text p ∷ c.printed })
raw_text (m ∷ rest) c = lost (record c { inbox = m ∷ rest })

-- The loop of c_show_info.
unfoldable pub info_loop : List Reply → Talk (Unit {0})
unfolding raw_text
info_loop [] c = waits (record c { inbox = [] })
info_loop (closed ∷ rest) c = goes_on tt (record c { inbox = closed ∷ rest })
info_loop (running_pid pid ∷ rest) c = lost (record c { inbox = running_pid pid ∷ rest })
info_loop (job_info p ∷ rest) c = lost (record c { inbox = job_info p ∷ rest })
info_loop (info_data ∷ rest) c = raw_text rest c
info_loop (m ∷ rest) c =
    info_loop rest (if is_list_line m then record c { printed = server_line m ∷ c.printed } else c)

unfoldable pub c_show_info : CommandLine → Talk (Unit {0})
unfolding info_loop
c_show_info cl = do send (Requests.info cl.jobid); λ c. info_loop c.inbox c
