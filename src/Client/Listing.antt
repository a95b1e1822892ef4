-- ===== src/Client/Listing.antt =====
-- client.c with jobs.c: `-l` prints what the server lists, until the server closes the connection.
use mathlib.Core.List.{append_assoc, map-append}
use task_spooler.Base.{
  ◌≡◌, refl, sym, ap, ◌∙◌, false, List, [], ◌∷◌, ◌++◌, map, if_pos, length, arith,
}
use task_spooler.Base.Int.{ℤ, ℤ_discrete}
use task_spooler.Base.Run.{ok, ◌>>=◌}
use task_spooler.State.{
  Reply, Job, ClientConn, ListFormat, default_format, json, tab, Server, list_line, list_json,
  headers, job_line, closed,
}
use task_spooler.Jobs.Notices.{send_msg}
use task_spooler.Jobs.Query.{send_queue, send_finished, shown, s_list}
use task_spooler.Connections.Closing.{remove_connection_lem}
use task_spooler.Connections.Requests
use task_spooler.Connections.Requests.{World, handle, close_connection}
use task_spooler.CommandLine.{CommandLine}
use task_spooler.Client.{Client, Printed, server_line, ◌>>◌, goes_on}
use task_spooler.Client.Show.{server_lines, c_wait_server_lines, c_list_jobs}
use task_spooler.Client.Answers.{inbox_of, answers, fresh}

abbrev line_of : Job → Reply
line_of p = list_line (job_line p)

-- What a list shows: the queue without the jobs that hold their clients, and then what has ended.
unfoldable pub listing : ListFormat → Server → List Reply
listing default_format s = list_line headers ∷ map line_of (shown s.jobs ++ s.first_finished)
listing tab s = map line_of (shown s.jobs ++ s.first_finished)
listing json s = list_json (shown s.jobs ++ s.first_finished) ∷ []

-- Lines printed one after the other, on top of what was printed before.
unfoldable pub printed_on : List Reply → List Printed → List Printed
printed_on [] printed = printed
printed_on (m ∷ rest) printed = printed_on rest (server_line m ∷ printed)

inbox_of-send_queue :
    (socket : ℤ) (jobs : List Job) (s : Server) (later : List Reply)
    → inbox_of socket (send_queue socket jobs s).sent later
      ≡ inbox_of socket s.sent (map line_of (shown jobs) ++ later)
unfolding inbox_of send_queue shown send_msg
inbox_of-send_queue socket [] s later = refl
inbox_of-send_queue socket (p ∷ rest) s later = ground (
  arith,
  inbox_of-send_queue socket rest s later,
  inbox_of-send_queue socket rest (send_msg socket (line_of p) s) later,
)

inbox_of-send_finished :
    (socket : ℤ) (jobs : List Job) (s : Server) (later : List Reply)
    → inbox_of socket (send_finished socket jobs s).sent later
      ≡ inbox_of socket s.sent (map line_of jobs ++ later)
unfolding inbox_of send_finished send_msg
inbox_of-send_finished socket [] s later = refl
inbox_of-send_finished socket (p ∷ rest) s later =
    ground (arith, inbox_of-send_finished socket rest (send_msg socket (line_of p) s) later)

inbox_of-own :
    (socket : ℤ) (m : Reply) (sent : List (ℤ × Reply))
    → inbox_of socket ((socket, m) ∷ sent) [] ≡ inbox_of socket sent (m ∷ [])
unfolding inbox_of
inbox_of-own socket m sent =
    ap (λ l. inbox_of socket sent l) (if_pos (ℤ_discrete socket socket) refl _ _)

-- The lines of the two lists, the queue's after the server `t` has sent what it sends first.
inbox_of-lines :
    (socket : ℤ) (jobs finished : List Job) (t : Server) (later : List Reply)
    → inbox_of socket (send_finished socket finished (send_queue socket jobs t)).sent later
      ≡ inbox_of socket t.sent (map line_of (shown jobs ++ finished) ++ later)
inbox_of-lines socket jobs finished t later =
    inbox_of-send_finished socket finished (send_queue socket jobs t) later
    ∙ inbox_of-send_queue socket jobs t (map line_of finished ++ later)
    ∙ ap (λ l. inbox_of socket t.sent l)
        (sym (append_assoc (map line_of (shown jobs)) (map line_of finished) later)
          ∙ ap (λ l. l ++ later) (sym (map-append line_of (shown jobs) finished)))

inbox_of-s_list :
    (socket : ℤ) (f : ListFormat) (s : Server) (later : List Reply)
    → inbox_of socket (s_list socket f (record s { sent = [] })).sent later ≡ listing f s ++ later
unfolding s_list listing send_msg inbox_of
inbox_of-s_list socket default_format s later =
    inbox_of-lines socket s.jobs s.first_finished
      (send_msg socket (list_line headers) (record s { sent = [] })) later
    ∙ if_pos (ℤ_discrete socket socket) refl _ _
inbox_of-s_list socket tab s later =
    inbox_of-lines socket s.jobs s.first_finished (record s { sent = [] }) later
inbox_of-s_list socket json s later = if_pos (ℤ_discrete socket socket) refl _ _

conns-send_queue :
    (socket : ℤ) (jobs : List Job) (s : Server) → (send_queue socket jobs s).conns ≡ s.conns
unfolding send_queue send_msg
conns-send_queue socket [] s = refl
conns-send_queue socket (p ∷ rest) s = ground (
  arith,
  conns-send_queue socket rest s,
  conns-send_queue socket rest (send_msg socket (line_of p) s),
)

conns-send_finished :
    (socket : ℤ) (jobs : List Job) (s : Server) → (send_finished socket jobs s).conns ≡ s.conns
unfolding send_finished send_msg
conns-send_finished socket [] s = refl
conns-send_finished socket (p ∷ rest) s =
    conns-send_finished socket rest (send_msg socket (line_of p) s)

conns-s_list : (socket : ℤ) (f : ListFormat) (s : Server) → (s_list socket f s).conns ≡ s.conns
unfolding s_list send_msg
conns-s_list socket default_format s =
    conns-send_finished socket s.first_finished _
    ∙ conns-send_queue socket s.jobs (send_msg socket (list_line headers) s)
conns-s_list socket tab s =
    conns-send_finished socket s.first_finished _ ∙ conns-send_queue socket s.jobs s
conns-s_list socket json s = refl

server_lines-all :
    (lines : List Job) (c : Client)
    → server_lines (map line_of lines ++ closed ∷ []) c
      ≡ goes_on tt
          (record c { inbox = closed ∷ []; printed = printed_on (map line_of lines) c.printed })
unfolding server_lines printed_on
server_lines-all [] c = refl
server_lines-all (p ∷ lines) c =
    server_lines-all lines (record c { printed = server_line (line_of p) ∷ c.printed })

-- A client prints the listing, and stops at the end of the stream.
server_lines-listing :
    (f : ListFormat) (s : Server) (c : Client)
    → server_lines (listing f s ++ closed ∷ []) c
      ≡ goes_on tt (record c { inbox = closed ∷ []; printed = printed_on (listing f s) c.printed })
unfolding server_lines printed_on listing
server_lines-listing default_format s c =
    server_lines-all (shown s.jobs ++ s.first_finished)
      (record c { printed = server_line (list_line headers) ∷ c.printed })
server_lines-listing tab s c = server_lines-all (shown s.jobs ++ s.first_finished) c
server_lines-listing json s c = refl

module _ (w : World) (socket : ℤ) (s : Server) (a : List ClientConn) (c : ClientConn)
    (b : List ClientConn) where
  -- The connection is closed behind the listing.
  answers-list :
      (f : ListFormat)
      → s.conns ≡ a ++ c ∷ b
      → c.hasjob ≡ false
      → answers w socket (length a) (Requests.list_request f) s ≡ ok (listing f s ++ closed ∷ [])
  unfolding answers handle close_connection send_msg
  answers-list f e idle =
      let t = s_list socket f (record s { sent = [] }) in
      ap (λ r. r >>= λ s'. ok (inbox_of socket s'.sent []))
        (remove_connection_lem (send_msg socket closed t) a c b
          (conns-s_list socket f (record s { sent = [] }) ∙ e) idle)
      ∙ ap (λ l. ok l)
          (inbox_of-own socket closed t.sent ∙ inbox_of-s_list socket f s (closed ∷ []))

  -- On a connection without a job, a client that asks for the list prints the headers of the
  -- format, the jobs of the queue that do not hold their client and the finished jobs, each once
  -- and in order, and ends at the end of the stream.
  pub list_jobs-prints :
      (cl : CommandLine)
      → s.conns ≡ a ++ c ∷ b
      → c.hasjob ≡ false
      → (do
        inbox ← answers w socket (length a) (Requests.list_request cl.list_format) s
        ok ((c_list_jobs cl >> c_wait_server_lines) (fresh inbox)))
        ≡ ok (
            goes_on tt (record (fresh (closed ∷ [])) {
              asked = Requests.list_request cl.list_format ∷ [];
              printed = printed_on (listing cl.list_format s) [];
            }))
  unfolding c_list_jobs c_wait_server_lines
  list_jobs-prints cl e idle =
      ap (λ r. r >>= λ inbox. ok ((c_list_jobs cl >> c_wait_server_lines) (fresh inbox)))
        (answers-list cl.list_format e idle)
      ∙ ap (λ r. ok r)
          (server_lines-listing cl.list_format s
            (record (fresh (listing cl.list_format s ++ closed ∷ [])) {
              asked = Requests.list_request cl.list_format ∷ [];
            }))
