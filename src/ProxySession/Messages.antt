-- ===== src/ProxySession/Messages.antt =====
-- What a session sends and reads, apart from the sockets.
use load_tester_project.Base.{
  ℕ, ◌+◌, ◌-◌, ◌%◌, ◌^◌, Bool, true, false, ◌||◌, List, [], ◌∷◌, ◌++◌, none, some, Bytes, codes,
  if◌then◌else◌, take, drop, str_eq, find,
}
use load_tester_project.Base.Decimal.{ℤ, pos, negsuc, int_eq}
use load_tester_project.Base.Result.{Result}
use load_tester_project.Backend.{Backend}
use load_tester_project.Router.{Router, get_write_backends_for_key, get_read_backends_for_key}
use load_tester_project.HttpParser.{HttpRequest, get_key}
use load_tester_project.HttpResponse.{
  HttpResponse, HttpResponseParseResult, complete, incomplete, error,
}

-- `htons(backend.port)`: the low 16 bits.
unfoldable pub sin_port : ℤ → ℕ
sin_port (pos n) = n % 2 ^ 16
sin_port (negsuc n) = 2 ^ 16 - 1 - n % 2 ^ 16

-- `errResp`
abbrev pub unavailable : Bytes
unavailable =
    codes "HTTP/1.1 503 Service Unavailable\r\nContent-Length: 21\r\n\r\n503 Service Unavailable"

-- `isWriteRequest`
unfoldable pub is_write_request : HttpRequest → Bool
is_write_request r =
    str_eq r.method (codes "POST")
    || (str_eq r.method (codes "PUT") || str_eq r.method (codes "DELETE"))

-- `requestPayload`
unfoldable pub request_payload : HttpRequest → Bytes
request_payload r =
    if str_eq r.method (codes "PUT")
    then (elim (find (codes "\r\n") r.raw_request) [
      | none ↦ r.raw_request
      | some i ↦
          take (i + 2) r.raw_request
          ++ (codes "X-Internal-Replication: true\r\n" ++ drop (i + 2) r.raw_request)
    ])
    else r.raw_request

-- `primaryResponse.empty() || current_status == 200 || current_status == 201`
unfoldable pub replaces : HttpResponse → Bytes → Bool
replaces r [] = true
replaces r (c ∷ primary) = int_eq r.status_code (pos 200) || int_eq r.status_code (pos 201)

-- `atLeastOneSuccess` and `primaryResponse`
pub record Written : Type 0 where
  pub success : Bool
  pub primary : Bytes

abbrev pub nothing_written : Written
nothing_written = record { success = false; primary = [] }

-- What a complete response of a backend changes.
unfoldable pub note : HttpResponse → Written → Written
unfolding replaces
note r w = record {
  success = true;
  primary = if replaces r w.primary then r.raw_response else w.primary;
}

-- What the client is sent.
unfoldable pub reply_to_write : Written → Bytes
reply_to_write w = if w.success then w.primary else unavailable

-- What a session does after a request: it ends, or it goes on.
pub data Next : Type 0 where
  returns goes_on : Next

-- What a backend has said to a request.
pub data Answer : Type 0 where
  unreachable no_answer : Answer
  answered : HttpResponse → Answer

unfoldable pub answer_of : HttpResponseParseResult → Answer
answer_of (complete r n) = answered r
answer_of incomplete = no_answer
answer_of (error why) = no_answer

-- `candidates`
unfoldable pub find_candidates : (Bytes → ℕ) → HttpRequest → Router → Result (List Backend)
unfolding is_write_request
find_candidates hasher request r =
    if is_write_request request
    then get_write_backends_for_key hasher (get_key request) 2 r
    else get_read_backends_for_key hasher (get_key request) 2 r
