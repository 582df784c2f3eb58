-- ===== src/Tests/Server.antt =====
-- The handlers over a small table, and two requests at once.
use load_tester_project.Base.{
  List, ℕ, true, false, [], ◌∷◌, ◌++◌, none, some, Bytes, codes, ◌≡◌, refl, arith, str_eq, inr, inl,
}
use load_tester_project.Base.UnorderedMap
use load_tester_project.Base.UnorderedMap.{find}
use load_tester_project.Database.{done}
use load_tester_project.LruCache as Cache
use load_tester_project.LruCache.{◌>>=◌}
use load_tester_project.LruCache.Refinement.{init-IsValid}
use load_tester_project.KvServer.{
  Request, Response, Server, handle_create, handle_delete, handle_read, handle_update, handle_sync,
  answer_rows, update_statement, query_value,
}
use load_tester_project.KvServer.Coherence.{IsCoherent, no_doubt}
use load_tester_project.KvServer.Outcomes.{Serves, settled}
use load_tester_project.KvServer.Outcomes.{CreatePost, DeletePost}
use load_tester_project.KvServer.Writes.{handle_create-Serves, handle_delete-Serves}
use load_tester_project.KvServer.Reads.{ReadPost, handle_read-Serves}
use load_tester_project.KvServer.Race.{stale_read}
use load_tester_project.KvServer.Service.{serve_all}
use load_tester_project.KvServer.Routes.{
  Handler, sync, update, read, remove, dispatch, get, put, delete, all_keys, dispatch_unreachable,
}
use load_tester_project.RecoveryManager.{key_lines}
use load_tester_project.RecoveryManager.Keys.{IsLine, key_lines-join_lines}
use load_tester_project.KvServer.{join_lines}
use load_tester_project.Base.{All}
use load_tester_project.Base.Streams.{c_str, getline}
use load_tester_project.Tests.Table.{table}

program : Unit {0}
unfolding table update_statement handle_create handle_delete handle_read handle_update handle_sync
    answer_rows query_value getline c_str find UnorderedMap.assign UnorderedMap.erase str_eq
    Cache.read_key Cache.create_key Cache.update_key Cache.delete_key Cache.init
program = tt

-- A server that has just started, with one row in its database.
abbrev fresh : Server table
fresh = record { cache = Cache.init 1000; db = unfold table in (codes "foo", codes "bar") ∷ [] }

fresh-IsCoherent : IsCoherent table fresh
unfolding program
fresh-IsCoherent = record { valid = (init-IsValid 1000 (omega arith)).0; agrees = tt }

abbrev on_key : Bytes → Bytes → Request
on_key key body = record { matched = key; body = body; is_replication = false }

abbrev foo : Bytes
foo = codes "foo"

create_baz :
    Serves table
      (λ r. no_doubt table)
      (handle_create table (on_key [] (codes "baz 1")) fresh)
      (CreatePost table (on_key [] (codes "baz 1")) fresh)
create_baz =
    handle_create-Serves table (on_key [] (codes "baz 1")) (no_doubt table) fresh fresh-IsCoherent

handle_delete-Serves_example :
    Serves table
      (settled table (no_doubt table) foo)
      (handle_delete table (on_key foo []) fresh)
      (DeletePost table (on_key foo []) fresh)
handle_delete-Serves_example =
    handle_delete-Serves table (on_key foo []) (no_doubt table) fresh fresh-IsCoherent

handle_read-Serves_example :
    Serves table
      (λ r. no_doubt table)
      (handle_read table (on_key foo []) fresh)
      (ReadPost table (on_key foo []) fresh)
handle_read-Serves_example = handle_read-Serves table (on_key foo []) fresh fresh-IsCoherent

abbrev plain : ℕ → Bytes → Response
plain status content = record { status = status; content = content; connection_close = true }

abbrev changed : Server table
changed = record fresh { db = unfold table in (codes "foo", codes "new") ∷ [] }

update_foo :
    handle_update table (on_key foo (codes "new")) fresh
    ≡ some (plain 200 (codes "Updated Successfully\n"), changed)
unfolding program
update_foo = refl

bar_rows : query_value table foo fresh.db ≡ done (codes "bar" ∷ [])
unfolding program
bar_rows = refl

stale_read_example :
    (late after : Server table) × (table.contents fresh.db foo ≡ some (codes "bar"))
    × (answer_rows table foo (codes "bar" ∷ []) changed
        ≡ some (plain 200 (c_str (codes "bar")), late))
    × (table.contents late.db foo ≡ some (codes "new"))
    × (handle_read table (on_key foo []) late ≡ some (plain 200 (c_str (codes "bar")), after))
stale_read_example =
    stale_read table (on_key foo (codes "new")) (on_key foo []) fresh changed
      (plain 200 (codes "Updated Successfully\n")) (codes "bar") [] fresh-IsCoherent refl bar_rows
      (unfold c_str in λ e. cc) update_foo refl

abbrev four_calls : List (Handler × Request)
four_calls =
    (update, on_key foo (codes "new"))
    ∷ (read, on_key foo [])
    ∷ (remove, on_key foo [])
    ∷ (all_keys, on_key [] [])
    ∷ []

four_replies :
    (serve_all table four_calls fresh >>= λ r. some r.0)
    ≡ some (
        plain 200 (codes "Updated Successfully\n")
        ∷ plain 200 (codes "new")
        ∷ plain 200 (codes "Deleted Successfully\n")
        ∷ plain 200 []
        ∷ [])
unfolding program serve_all load_tester_project.KvServer.handle_all_keys
    load_tester_project.Base.StdSet.insert_all
four_replies = refl

abbrev other_calls : List (Handler × Request)
other_calls = (sync, on_key (codes "food") (codes "1")) ∷ (read, on_key foo []) ∷ []

dispatch_unreachable_example :
    (dispatch get (codes "/kvstore/" ++ codes "a-b") ≡ none)
    × (dispatch put (codes "/kvstore/" ++ codes "a-b") ≡ none)
    × (dispatch delete (codes "/kvstore/" ++ codes "a-b") ≡ none)
dispatch_unreachable_example = dispatch_unreachable (codes "a-b") (inr (inr (inl (ground arith))))

allkeys_is_no_key : dispatch get (codes "/kvstore/allkeys") ≡ some (all_keys, [])
unfolding dispatch str_eq
allkeys_is_no_key = refl

two_lines : All IsLine (codes "foo" ∷ codes "bar" ∷ [])
unfolding c_str
two_lines = (
  ((λ e. cc e), refl, ((λ e. cc e), ((λ e. cc e), ((λ e. cc e), tt)))),
  (((λ e. cc e), refl, ((λ e. cc e), ((λ e. cc e), ((λ e. cc e), tt)))), tt),
)

key_lines-join_lines_example :
    key_lines (join_lines table (codes "foo" ∷ codes "bar" ∷ [])) ≡ codes "foo" ∷ codes "bar" ∷ []
key_lines-join_lines_example = key_lines-join_lines table (codes "foo" ∷ codes "bar" ∷ []) two_lines
