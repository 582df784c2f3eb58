-- ===== src/ProxySession.antt =====
-- load_balancer/src/ProxySession.cpp: a session forwards the requests of one client to the backends
-- that the router names. The console output is left out.
pub mod Messages
pub mod Progress
pub mod Exchange
pub mod Talk
pub mod Choice
pub mod Replies
pub mod Failover
pub mod Requests
pub mod Traffic
pub mod Pipelining
unfoldable pub use load_tester_project.ProxySession.Messages.{
  sin_port, is_write_request, request_payload, replaces, note, reply_to_write, answer_of,
  find_candidates,
}
pub use load_tester_project.ProxySession.Messages.{
  unavailable, Written, nothing_written, Next, Answer, returns, goes_on, unreachable, no_answer,
  answered,
}
use load_tester_project.Base.{
  ℕ, zero, suc, ◌+◌, ◌-◌, ◌%◌, ◌^◌, Bool, true, false, ◌||◌, List, [], ◌∷◌, ◌++◌, Option, none,
  some, Bytes, codes, if◌then◌else◌, length, take, drop, str_eq, find, ltb,
}
use load_tester_project.Base.Decimal.{ℤ, pos, negsuc, int_eq}
use load_tester_project.Base.Result.{
  Result, ok, throw, runtime_error, length_error, blocked, killed, still_running, out_of_fuel,
  ◌>>=◌,
}
use load_tester_project.Backend.{Backend}
use load_tester_project.Router.{
  Router, get_write_backends_for_key, get_read_backends_for_key, mark_backend_down,
}
use load_tester_project.HttpParser.{HttpRequest, HttpParseResult, get_key, parse_http_request}
use load_tester_project.HttpParser as Request
use load_tester_project.HttpResponse.{
  HttpResponse, HttpResponseParseResult, complete, incomplete, error, parse_http_response,
}
use load_tester_project.Sockets.{Sockets, gives, waits_forever, Received, takes, stuck, broken_pipe}

module _ (o : Sockets) (hasher : Bytes → ℕ) where
  -- The members of `ProxySession`, with the router it refers to and the system. `none` is -1.
  pub record Session : Type 0 where
    pub router : Router
    pub backend_socket : Option ℕ
    pub os : o.Os

  -- The loop of `sendAll` on what is left of the data; each round sends a byte at least.
  unfoldable pub send_rest : ℕ → ℕ → Bytes → Session → Result (Bool × Session)
  send_rest fuel socket [] s = ok (true, s)
  send_rest zero socket (c ∷ rest) s = throw out_of_fuel
  send_rest (suc fuel) socket (c ∷ rest) s =
      let (sent, os') = o.send socket (c ∷ rest) s.os in
      elim sent [
        | takes zero ↦ ok (false, record s { os = os' })
        | takes (suc n) ↦ send_rest fuel socket (drop (suc n) (c ∷ rest)) (record s { os = os' })
        | stuck ↦ throw blocked
        | broken_pipe ↦ throw killed
      ]

  -- `ProxySession::sendAll`; the descriptor -1 is refused.
  unfoldable pub send_all : Option ℕ → Bytes → Session → Result (Bool × Session)
  unfolding send_rest
  send_all none bytes s = elim bytes [ [] ↦ ok (true, s) | _ ↦ ok (false, s) ]
  send_all (some socket) bytes s = send_rest (length bytes) socket bytes s

  -- `ProxySession::connectToBackend`
  unfoldable pub connect_to_backend : Backend → Session → Bool × Session
  unfolding sin_port
  connect_to_backend b s = elim s.backend_socket [
    | some _ ↦ (true, s)
    | none ↦
        let (made, os1) = o.socket s.os in
        elim made [
          | none ↦ (false, record s { os = os1 })
          | some fd ↦
              let (connected, os2) = o.connect fd b.ip (sin_port b.port) os1 in
              if connected
              then (true, record s { backend_socket = some fd; os = os2 })
              else (false, record s { os = o.close fd os2 })
        ]
  ]

  -- `ProxySession::closeBackend`
  unfoldable pub close_backend : Session → Session
  close_backend s = elim s.backend_socket [
    | none ↦ s
    | some fd ↦ record s { backend_socket = none; os = o.close fd s.os }
  ]

  -- `recv(backendSocket_, ...)`
  unfoldable pub recv_backend : Session → Received × Session
  recv_backend s = elim s.backend_socket [
    | none ↦ (gives [], s)
    | some fd ↦ let (given, os') = o.recv fd s.os in (given, record s { os = os' })
  ]

  -- A buffer with more bytes; a text of 2 ^ 63 bytes is longer than `std::string` holds.
  unfoldable pub append_bytes : Bytes → Bytes → Result Bytes
  append_bytes buffer bytes =
      if ltb (length (buffer ++ bytes)) (2 ^ 63) then ok (buffer ++ bytes) else throw length_error

  -- `ProxySession::readBackendResponse`, with what was received so far; each round adds a byte at
  -- least.
  unfoldable pub read_backend_response :
      ℕ → Bytes → Session → Result (HttpResponseParseResult × Session)
  unfolding recv_backend append_bytes
  read_backend_response zero buffer s = throw out_of_fuel
  read_backend_response (suc fuel) buffer s = elim (parse_http_response buffer) [
    | complete r n ↦ ok (complete r n, s)
    | error why ↦ ok (error why, s)
    | incomplete ↦
        let (given, s') = recv_backend s in
        elim given [
          | gives [] ↦ ok (error (codes "Backend connection closed or error"), s')
          | gives (c ∷ cs) ↦
              append_bytes buffer (c ∷ cs) >>= λ more. read_backend_response fuel more s'
          | waits_forever ↦ throw blocked
        ]
  ]

  -- `router_.markBackendDown(backend.port)`
  unfoldable pub mark_down : Backend → Session → Session
  mark_down b s = record s { router = mark_backend_down hasher b.port s.router }

  -- Connect, send the request, read the response.
  unfoldable pub exchange : Backend → Bytes → Session → Result (Answer × Session)
  unfolding connect_to_backend send_all read_backend_response answer_of
  exchange b payload s =
      let (connected, s1) = connect_to_backend b s in
      if connected
      then (do
        sent ← send_all s1.backend_socket payload s1
        response ← read_backend_response (2 ^ 63) [] sent.1
        ok (answer_of response.0, response.1))
      else ok (unreachable, s1)

  -- The loop over the candidates of a write.
  unfoldable pub write_to_all :
      List Backend → Bytes → Written → Session → Result (Written × Session)
  unfolding exchange close_backend mark_down replaces
  write_to_all [] payload w s = ok (w, s)
  write_to_all (b ∷ bs) payload w s = do
    a ← exchange b payload s
    elim a.0 [
      | unreachable ↦ write_to_all bs payload w (mark_down b a.1)
      | no_answer ↦ write_to_all bs payload w (close_backend a.1)
      | answered r ↦ write_to_all bs payload (note r w) (close_backend a.1)
    ]

  -- The branch of a write request; it always goes on.
  unfoldable pub forward_write : ℕ → HttpRequest → List Backend → Session → Result (Next × Session)
  unfolding write_to_all request_payload reply_to_write
  forward_write client request candidates s = do
    w ← write_to_all candidates (request_payload request) nothing_written s
    sent ← send_all (some client) (reply_to_write w.0) w.1
    ok (goes_on, sent.1)

  -- The loop over the candidates of a read: the response, if there is one, is sent to the client
  -- before the connection to its backend is closed.
  unfoldable pub read_from_first : ℕ → List Backend → Bytes → Session → Result (Bool × Session)
  unfolding exchange close_backend mark_down
  read_from_first client [] payload s = ok (false, s)
  read_from_first client (b ∷ bs) payload s = do
    a ← exchange b payload s
    elim a.0 [
      | unreachable ↦ read_from_first client bs payload (mark_down b a.1)
      | no_answer ↦ read_from_first client bs payload (mark_down b (close_backend a.1))
      | answered r ↦ (do
        sent ← send_all (some client) r.raw_response a.1
        ok (true, close_backend sent.1))
    ]

  -- The branch of a read request.
  unfoldable pub forward_read : ℕ → HttpRequest → List Backend → Session → Result (Next × Session)
  unfolding read_from_first
  forward_read client request candidates s = do
    r ← read_from_first client candidates request.raw_request s
    elim r.0 [
      | true ↦ ok (goes_on, r.1)
      | false ↦ (do sent ← send_all (some client) unavailable r.1; ok (returns, sent.1))
    ]

  -- What `forwardTraffic` does with a complete request.
  unfoldable pub forward_request : ℕ → HttpRequest → Session → Result (Next × Session)
  unfolding find_candidates is_write_request forward_write forward_read send_all
  forward_request client request s = do
    candidates ← find_candidates hasher request s.router
    elim candidates [
      | [] ↦ (do sent ← send_all (some client) unavailable s; ok (returns, sent.1))
      | (b ∷ bs) ↦
          if is_write_request request
          then forward_write client request (b ∷ bs) s
          else forward_read client request (b ∷ bs) s
    ]

  -- The inner loop of `forwardTraffic`; what is left of `clientBuffer`, if the session goes on.
  unfoldable pub process_requests : ℕ → ℕ → Bytes → Session → Result (Option Bytes × Session)
  unfolding forward_request
  process_requests fuel client [] s = ok (some [], s)
  process_requests zero client (c ∷ buffer) s = throw out_of_fuel
  process_requests (suc fuel) client (c ∷ buffer) s = elim (parse_http_request (c ∷ buffer)) [
    | Request.incomplete ↦ ok (some (c ∷ buffer), s)
    | Request.error why ↦ ok (none, s)
    | Request.complete request consumed ↦ (do
      r ← forward_request client request s
      elim r.0 [
        | returns ↦ ok (none, r.1)
        | goes_on ↦ process_requests fuel client (drop consumed (c ∷ buffer)) r.1
      ])
  ]

  -- `ProxySession::forwardTraffic`, for as many rounds as the fuel.
  unfoldable pub forward_traffic : ℕ → ℕ → Bytes → Session → Result Session
  unfolding process_requests append_bytes
  forward_traffic zero client buffer s = throw still_running
  forward_traffic (suc fuel) client buffer s =
      let (given, os') = o.recv client s.os in
      elim given [
        | gives [] ↦ ok (record s { os = os' })
        | gives (c ∷ cs) ↦ (do
          more ← append_bytes buffer (c ∷ cs)
          r ← process_requests (length more) client more (record s { os = os' })
          elim r.0 [ none ↦ ok r.1 | some rest ↦ forward_traffic fuel client rest r.1 ])
        | waits_forever ↦ throw blocked
      ]

  -- `ProxySession::ProxySession` and `ProxySession::start`
  unfoldable pub start : ℕ → ℕ → Router → o.Os → Result Session
  unfolding forward_traffic
  start fuel client r os =
      forward_traffic fuel client [] (record { router = r; backend_socket = none; os = os })
