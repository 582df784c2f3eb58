-- ===== src/KvServer/Service.antt =====
-- The server over a sequence of calls refines the store.
use load_tester_project.Base.{Bool, List, [], ◌∷◌, ◌++◌, Option, some, Bytes, ◌≡◌, ◌⊎◌, false}
use load_tester_project.Database.{Database}
use load_tester_project.LruCache.{◌>>=◌}
use load_tester_project.KvServer.{
  Request, Response, Server, handle_create, handle_update, handle_delete, handle_read,
  handle_all_keys, handle_health, handle_sync,
}
use load_tester_project.KvServer.Coherence.{IsCoherentBut}
use load_tester_project.KvServer.Outcomes.{Writes}
use load_tester_project.KvServer.Routes.{
  Handler, create, update, remove, all_keys, read, health, sync,
}
use load_tester_project.KvServer.Store.{State, Allows, History}

module _ (d : Database) where
  -- The handlers that `main` registers.
  unfoldable pub serve : Handler → Request → Server d → Option (Response × Server d)
  serve create req s = handle_create d req s
  serve update req s = handle_update d req s
  serve remove req s = handle_delete d req s
  serve all_keys req s = handle_all_keys d req s
  serve read req s = handle_read d req s
  serve health req s = handle_health d req s
  serve sync req s = handle_sync d req s

  -- Calls one after another, with their replies.
  unfoldable pub serve_all : List (Handler × Request) → Server d → Option (List Response × Server d)
  unfolding serve
  serve_all [] s = some ([], s)
  serve_all ((h, req) ∷ cs) s = do
    r ← serve h req s
    rest ← serve_all cs r.1
    some (r.0 ∷ rest.0, rest.1)

  -- A server seen as a store.
  abbrev pub state_of : (Bytes → Bool) → Server d → State
  state_of x s = record { table = d.contents s.db; doubt = x }

  -- The reply of a handler is one that the store allows.
  abbrev Conforms : Handler → Request → (Bytes → Bool) → Server d → Response → Server d → Type 0
  Conforms h req x s r s' = Allows h req (state_of x s) r (d.contents s'.db)

  -- What a sequence of calls comes to.
  pub record Served (cs : List (Handler × Request)) (x : Bytes → Bool) (s : Server d) : Type 0 where
    pub responses : List Response
    pub after : Server d
    pub doubt : Bytes → Bool
    pub served : serve_all cs s ≡ some (responses, after)
    pub history : History cs (state_of x s) responses (state_of doubt after)
    pub coherent : IsCoherentBut d doubt after

  -- A read behind some calls.
  record LastRead (key : Bytes) (others : List (Handler × Request)) (again : Request)
      (x : Bytes → Bool) (s : Server d) : Type 0 where
    replies : List Response
    reply : Response
    after : Server d
    served : serve_all (others ++ (read, again) ∷ []) s ≡ some (replies ++ reply ∷ [], after)
    answers :
        (value : Bytes)
        → x key ≡ false
        → d.contents s.db key ≡ some value
        → (reply.status ≡ 500) ⊎ ((reply.status ≡ 200) × (reply.content ≡ value))
