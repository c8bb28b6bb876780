-- ===== src/Session/Engine/Cache.antt =====
-- The cache of model clients of session/engine.py: at most 32, and the client that was cached last
-- is there.
use fusion_code_modelization.Common.{
  ◌≤◌, String, ◌≡◌, true, none, some, [], ◌∷◌, ◌++◌, length, ltb, length-append, Bool-cases, inl,
  inr, arith, same_text,
}
use fusion_code_modelization.Common.Dict
use fusion_code_modelization.Common.Dict.{Dict, get-remove, get-append, length-remove-lt}
use fusion_code_modelization.Session.Engine.{
  Client, Engine, max_cached_clients, evict, move_to_end, cache_client,
}

evict-le : (cs : Dict Client) → length (evict cs) ≤ max_cached_clients
unfolding evict
evict-le [] = omega arith
evict-le (c ∷ cs) = ground (arith, evict-le cs)

get-last :
    (cs : Dict Client) (sid : String) (c : Client)
    → Dict.get cs sid ≡ none
    → Dict.get (cs ++ (sid, c) ∷ []) sid ≡ some c
unfolding Dict.get
get-last cs sid c h = rw (get-append, h) (rw (same_text sid))

get-tail :
    (k : String) (d : Client) (cs : Dict Client) (sid : String)
    → Dict.get ((k, d) ∷ cs) sid ≡ none
    → Dict.get cs sid ≡ none
unfolding Dict.get
get-tail k d cs sid h = ground arith

evict-last :
    (cs : Dict Client) (sid : String) (c : Client)
    → Dict.get cs sid ≡ none
    → Dict.get (evict (cs ++ (sid, c) ∷ [])) sid ≡ some c
unfolding evict
evict-last [] sid c h = get-last [] sid c h
evict-last ((k, d) ∷ cs) sid c h =
    elim (Bool-cases (ltb max_cached_clients (length ((k, d) ∷ cs ++ (sid, c) ∷ [])))) [
      | inl full ↦ rw (full, evict) (evict-last cs sid c (get-tail k d cs sid h))
      | inr fits ↦ rw (fits, evict) (get-last ((k, d) ∷ cs) sid c h)
    ]

-- Caching a client keeps the bound, and the client is then found under its id.
pub cache_client_bound :
    (e : Engine) (sid : String) (c : Client)
    → (length (cache_client e sid c).clients ≤ max_cached_clients)
      × (Dict.get (cache_client e sid c).clients sid ≡ some c)
unfolding cache_client
cache_client_bound e sid c = (
  evict-le (move_to_end e.clients sid c),
  evict-last (Dict.remove e.clients sid) sid c
      (rw (get-remove e.clients sid sid) (rw (same_text sid))),
)

-- A client that is there moves to the end, and the cache keeps its size.
pub move_to_end_bound :
    (cs : Dict Client) (sid : String) (c : Client)
    → Dict.has cs sid ≡ true
    → (length (move_to_end cs sid c) ≤ length cs) × (Dict.get (move_to_end cs sid c) sid ≡ some c)
move_to_end_bound cs sid c h = (
  omega (arith, length-append (Dict.remove cs sid) ((sid, c) ∷ []), length-remove-lt cs sid h),
  get-last (Dict.remove cs sid) sid c (rw (get-remove cs sid sid) (rw (same_text sid))),
)
