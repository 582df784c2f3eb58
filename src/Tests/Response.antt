-- ===== src/Tests/Response.antt =====
-- The response parser.
use load_tester_project.Base.Decimal.{to_string}
use load_tester_project.Base.{
  [], ◌∷◌, ◌++◌, ◌+◌, ◌-◌, Bytes, codes, ◌≡◌, refl, arith, length, find, find_byte, str_eq, take,
  substr,
}
use load_tester_project.Base.Decimal.{pos}
use load_tester_project.Base.UnorderedMap.{assign}
use load_tester_project.Base.Streams.{all_lines}
use load_tester_project.HttpResponse.{HttpResponse, complete, parse_http_response, read_section}
use load_tester_project.HttpResponse.Lengths.{
  parse_http_response-append, parse_http_response_undeclared, parse_http_response_wraps,
}

program : Unit {0}
unfolding parse_http_response read_section all_lines find find_byte str_eq assign
program = tt

abbrev text : Bytes
text = codes "HTTP/1.1 200 OK\r\nContent-Length: 3\r\n\r\nbar"

abbrev response : HttpResponse
response = record {
  version = codes "HTTP/1.1";
  status_code = pos 200;
  status_text = codes "OK";
  headers = (codes "Content-Length", codes "3") ∷ [];
  body = codes "bar";
  raw_response = text;
}

parsed : parse_http_response text ≡ complete response (length text)
unfolding program
parsed = refl

parse_http_response-append_example :
    parse_http_response (text ++ codes "HTTP/1.1") ≡ complete response (length text)
parse_http_response-append_example =
    parse_http_response-append text (codes "HTTP/1.1") 34 3 response (length text)
      (unfold program in refl) (unfold program in refl) (omega arith) (omega arith) parsed

abbrev undeclared : Bytes
undeclared = codes "HTTP/1.1 200 OK\r\n\r\nba"

parse_http_response_undeclared_example :
    (r : HttpResponse) × (parse_http_response undeclared ≡ complete r (length undeclared))
    × (r.raw_response ≡ take (length undeclared) undeclared)
    × (r.body ≡ substr (15 + 4) (length undeclared - (15 + 4)) undeclared)
parse_http_response_undeclared_example =
    parse_http_response_undeclared undeclared 15 (unfold program in refl) (unfold program in refl)
      (omega arith)

abbrev negative : Bytes
negative = codes "HTTP/1.1 200 OK\r\nContent-Length: -5\r\n\r\n"

parse_http_response_wraps_example :
    (r : HttpResponse) × (parse_http_response negative ≡ complete r (35 + 4 - 5))
    × (r.raw_response ≡ take (35 + 4 - 5) negative)
parse_http_response_wraps_example =
    parse_http_response_wraps negative 35 5 (unfold program in refl)
      (unfold program to_string in refl) (omega arith) (omega arith) (omega arith)
