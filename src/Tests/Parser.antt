-- ===== src/Tests/Parser.antt =====
-- The request parser.
use load_tester_project.Base.{
  [], ◌++◌, Bytes, codes, ◌≡◌, refl, arith, length, find, find_byte, str_eq, find_byte_from,
}
use load_tester_project.Base.Decimal.{pos}
use load_tester_project.HttpParser.{
  HttpRequest, complete, error, parse_http_request, get_key, get_content_length,
}
use load_tester_project.HttpParser.Stability.{parse_http_request-error_append}
use load_tester_project.HttpParser.Framing.{
  IsFramed, parse_http_request-IsFramed, parse_http_request-request_text, head_text, request_text,
}

program : Unit {0}
unfolding parse_http_request get_key get_content_length find find_byte find_byte_from str_eq
program = tt

abbrev fields : Bytes
fields = codes "Host: x\r\nContent-Length: 5"

abbrev head : Bytes
head = head_text (codes "POST") (codes "/kvstore/create") (codes "HTTP/1.1") fields

abbrev body : Bytes
body = codes "foo 1"

abbrev text : Bytes
text = request_text head body

abbrev request : HttpRequest
request = record {
  method = codes "POST";
  path = codes "/kvstore/create";
  version = codes "HTTP/1.1";
  headers = [];
  body = body;
  raw_request = text;
}

parsed : parse_http_request text ≡ complete request (length text)
unfolding program
parsed = refl

key_of_create : get_key request ≡ codes "foo"
unfolding program
key_of_create = refl

key_of_path : get_key (record request { path = codes "/kvstore/bar" }) ≡ codes "bar"
unfolding program
key_of_path = refl

-- The name of a header is looked for in two spellings only.
other_spelling : get_content_length (codes "GET / HTTP/1.1\r\nContent-length: 5") ≡ pos 0
unfolding program
other_spelling = refl

parse_http_request-error_append_example :
    parse_http_request (codes "GET / HTTP/1.0\r\n\r\n" ++ text)
    ≡ error (codes "Malformed HTTP Request Line")
parse_http_request-error_append_example =
    parse_http_request-error_append (codes "GET / HTTP/1.0\r\n\r\n") text
      (codes "Malformed HTTP Request Line") (unfold program in refl)

parse_http_request-IsFramed_example : IsFramed text request (length text)
parse_http_request-IsFramed_example =
    parse_http_request-IsFramed text request (length text) (omega arith) parsed

parse_http_request-request_text_example :
    parse_http_request (text ++ codes "GET /kv") ≡ complete request (length text)
unfolding program
parse_http_request-request_text_example =
    parse_http_request-request_text (codes "POST") (codes "/kvstore/create") (codes "HTTP/1.1")
      fields body (codes "GET /kv") (omega arith) (omega arith) refl refl refl (omega arith)
