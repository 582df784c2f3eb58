-- ===== src/Tests/Wire.antt =====
-- A session over a toy system: the client is descriptor 0 and sends one request; the backend on
-- port 9001 accepts connections and answers each once.
use load_tester_project.Base.{
  find_byte_from, str_eq, find_byte, ℕ, ◌≤◌, Bool, true, false, List, [], Option, none, some, Bytes,
  codes, ◌≡◌, ◌≢◌, refl, arith, ◌==◌, if◌then◌else◌, length, ◌∷◌, find, find_byte, ◌++◌, take,
}
use load_tester_project.Base.Result.{◌>>=◌}
use load_tester_project.Sockets.{Sockets, Received, gives, takes}
use load_tester_project.HttpParser.{HttpRequest, parse_http_request, incomplete, get_content_length}
use load_tester_project.ProxySession.{Session, process_requests}
use load_tester_project.ProxySession.Pipelining.{
  IsText, sent_at_once, forward_all, leaving, process_requests-texts,
}
use load_tester_project.Tests.Samples.{toy_hash}
use load_tester_project.Tests.Routing.{started}

-- Whether the client, and the backend, have something left to send; and what was sent.
record Wire : Type 0 where
  asks : Bool
  replies : Bool
  log : ℕ → Bytes × Bytes

abbrev request_text : Bytes
request_text = codes "PUT /kvstore/foo HTTP/1.1\r\nContent-Length: 3\r\n\r\nbar"

abbrev response_text : Bytes
response_text = codes "HTTP/1.1 200 OK\r\nContent-Length: 2\r\n\r\nOK"

note_sent : ℕ → Bytes → Wire → Wire
note_sent s bytes w = record w {
  log = λ q. if q == s then ((w.log q).0 ++ take (length bytes) bytes, (w.log q).1) else w.log q;
}

note_received : ℕ → Bytes → Wire → Wire
note_received s bytes w = record w {
  log = λ q. if q == s then ((w.log q).0, (w.log q).1 ++ bytes) else w.log q;
}

-- What there is to receive.
arrived : ℕ → Wire → Bytes
arrived s w =
    if s == 0
    then (if w.asks then request_text else [])
    else (if w.replies then response_text else [])

receive : ℕ → Wire → Received × Wire
unfolding note_received arrived
receive s w =
    let taken = note_received s (arrived s w) w in
    (
      gives (arrived s w),
      if s == 0 then record taken { asks = false } else record taken { replies = false },
    )

dial : ℕ → ℕ → Wire → Bool × Wire
dial s port w = (port == 9001, if s == 0 then w else record w { replies = true })

dial_log : (c s port : ℕ) (w : Wire) → (dial s port w).1.log c ≡ w.log c
unfolding dial
dial_log c s port w = ground arith

send_others : (c s : ℕ) (bytes : Bytes) (w : Wire) → c ≢ s → (note_sent s bytes w).log c ≡ w.log c
unfolding note_sent
send_others c s bytes w ne = ground (arith, ne)

send_own :
    (s : ℕ) (bytes : Bytes) (n : ℕ) (w : Wire)
    → takes (length bytes) ≡ takes n
    → (note_sent s bytes w).log s ≡ ((w.log s).0 ++ take n bytes, (w.log s).1)
unfolding note_sent
send_own s bytes n w e =
    let same : length bytes ≡ n = ground (arith, e) in rw (← same) (ground arith)

receive_others : (c s : ℕ) (w : Wire) → c ≢ s → (receive s w).1.log c ≡ w.log c
unfolding receive note_received
receive_others c s w ne = ground (arith, ne)

receive_own :
    (s : ℕ) (bytes : Bytes) (w : Wire)
    → (receive s w).0 ≡ gives bytes
    → (receive s w).1.log s ≡ ((w.log s).0, (w.log s).1 ++ bytes)
unfolding receive note_received
receive_own s bytes w e =
    let same : arrived s w ≡ bytes = ground (arith, e) in rw (← same) (ground arith)

send_bound : (bytes : Bytes) (n : ℕ) → takes (length bytes) ≡ takes n → n ≤ length bytes
send_bound bytes n e = ground (arith, e)

not_new : (c : ℕ) → (c == 0) ≡ true → ◌≢◌ {A = Option ℕ} (some 1) (some c)
not_new c e p = ground (arith, p)

abbrev toy_sockets : Sockets
toy_sockets = record {
  Os = Wire;
  socket = λ w. (some 1, w);
  connect = λ s ip port w. dial s port w;
  close = λ s w. w;
  send = λ s bytes w. (takes (length bytes), note_sent s bytes w);
  recv = receive;
  is_open = λ c w. c == 0;
  traffic = λ c w. w.log c;
  socket_law = λ c w e. e;
  socket_fresh = λ c w. not_new c;
  connect_law = λ c s ip port w ne e. e;
  close_law = λ c s w ne e. e;
  send_law = λ c s bytes w e. e;
  recv_law = λ c s w e. e;
  socket-traffic = λ c w. refl;
  connect-traffic = λ c s ip port w. dial_log c s port w;
  close-traffic = λ c s w. refl;
  send_other = send_others;
  recv_other = receive_others;
  send_takes = send_own;
  send-le = λ s bytes n w e. send_bound bytes n e;
  recv_gives = receive_own;
}

abbrev session : Session toy_sockets toy_hash
session = record {
  router = started;
  backend_socket = none;
  os = record { asks = true; replies = false; log = λ q. ([], []) };
}

abbrev request : HttpRequest
request = record {
  method = codes "PUT";
  path = codes "/kvstore/foo";
  version = codes "HTTP/1.1";
  headers = [];
  body = codes "bar";
  raw_request = request_text;
}

abbrev read_text : Bytes
read_text = codes "GET /kvstore/foo HTTP/1.1\r\nHost: a\r\n\r\n"

abbrev read_request : HttpRequest
read_request = record {
  method = codes "GET";
  path = codes "/kvstore/foo";
  version = codes "HTTP/1.1";
  headers = [];
  body = [];
  raw_request = read_text;
}

program : Unit {0}
unfolding parse_http_request get_content_length find find_byte find_byte_from str_eq
program = tt

write_parsed : IsText (request_text, request)
unfolding program
write_parsed = refl

read_parsed : IsText (read_text, read_request)
unfolding program
read_parsed = refl

start_parsed : parse_http_request (codes "GET /kv") ≡ incomplete
unfolding program
start_parsed = refl

abbrev two_requests : List (Bytes × HttpRequest)
two_requests = (request_text, request) ∷ (read_text, read_request) ∷ []

process_requests-texts_example :
    process_requests toy_sockets toy_hash 200 0
      (sent_at_once two_requests (codes "GET /kv"))
      session
    ≡ (forward_all toy_sockets toy_hash 0 two_requests session
        >>= leaving toy_sockets toy_hash 0 (codes "GET /kv"))
process_requests-texts_example =
    process_requests-texts toy_sockets toy_hash 0 200 two_requests (codes "GET /kv") session
      (write_parsed, (read_parsed, tt)) start_parsed (omega arith) (omega arith)
