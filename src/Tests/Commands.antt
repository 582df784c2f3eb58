-- ===== src/Tests/Commands.antt =====
-- The command-line client.
use load_tester_project.Base.{
  ℕ, ◌+◌, List, [], ◌∷◌, ◌++◌, some, Bytes, codes, ◌≡◌, ◌≢◌, refl, arith, All, length, str_eq,
}
use load_tester_project.Base.Result.{ok, throw, out_of_fuel}
use load_tester_project.Clients.{Client, get, delete, post, put}
use load_tester_project.KvServer.{split_body}
use load_tester_project.KvServer.Routes.{create, read, update, remove, dispatch, word}
use load_tester_project.KvServer.Routes as Routes
use load_tester_project.KvClient.{run, parse_line, action_of, requests, says}
use load_tester_project.KvClient.Commands.{parse_line-dispatch}
use load_tester_project.KvClient.Input.{run_exit}

-- A server that answers every request, and counts them.
abbrev toy_client : Client
toy_client = record {
  Net = ℕ;
  send = λ call n. (some (record { status = 200; body = codes "OK" }), n + 1);
}

two_values :
    parse_line (codes "create  foo some bar")
    ≡ record { cmd = codes "create"; key = codes "foo"; value = codes "some bar" }
unfolding parse_line
two_values = refl

no_value :
    action_of (parse_line (codes "create foo")) ≡ says (codes "Usage: create <key> <value>\n")
unfolding action_of parse_line str_eq
no_value = refl

bar_no_line_end : All (λ c. c ≢ b'\n') (codes "bar")
bar_no_line_end = ((λ e. cc e), ((λ e. cc e), ((λ e. cc e), tt)))

parse_line-dispatch_example :
    (action_of (parse_line (codes "create foo bar"))
      ≡ requests (post (codes "/kvstore/create") (codes "foo bar")))
    × (dispatch Routes.post (codes "/kvstore/create") ≡ some (create, []))
    × (split_body (codes "foo bar") ≡ (codes "foo", codes "bar"))
    × (action_of (parse_line (codes "update foo bar"))
        ≡ requests (put (codes "/kvstore/foo") (codes "bar")))
    × (dispatch Routes.put (codes "/kvstore/foo") ≡ some (update, codes "foo"))
    × (action_of (parse_line (codes "read foo")) ≡ requests (get (codes "/kvstore/foo")))
    × (dispatch Routes.get (codes "/kvstore/foo") ≡ some (read, codes "foo"))
    × (action_of (parse_line (codes "delete foo")) ≡ requests (delete (codes "/kvstore/foo")))
    × (dispatch Routes.delete (codes "/kvstore/foo") ≡ some (remove, codes "foo"))
parse_line-dispatch_example =
    parse_line-dispatch (codes "foo") (codes "bar") (unfold word in refl) (λ e. cc) (λ e. cc e)
      bar_no_line_end

abbrev one_read : List Bytes
one_read = codes "read foo" ∷ []

run_exit_example :
    ((texts : List Bytes) × (net' : ℕ) × (run toy_client 2 (one_read ++ codes "exit" ∷ []) 0
        ≡ ok (texts, net'))
      × (length texts ≡ 1))
    × (run toy_client 2 one_read 0 ≡ throw out_of_fuel)
run_exit_example = run_exit toy_client one_read [] 2 0 ((λ e. cc e), tt) (omega arith)
