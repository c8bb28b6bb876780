-- ===== src/Trace/Tracker/Edges.antt =====
-- The edges that a trace of trace/tracker.py collects.
use mathlib.Core.List.{Memᴰ}
use fusion_code_modelization.Common.{
  ℕ, ◌+◌, String, Bool, Option, none, some, ◌≡◌, refl, inl, inr, List, [], ◌∷◌, find?, any, leb,
  All, All-append, Bool-cases,
}
use fusion_code_modelization.Common.Dict
use fusion_code_modelization.Trace.Store.{TraceNode, TraceEdge, TraceStore}
use fusion_code_modelization.Trace.Tracker.{
  Direction, Search, same_edge, visit, keep_edge, joins, neighbors_of, offer, expand, round, begin,
  search_from,
}
use fusion_code_modelization.Trace.Tracker.Rounds.{loop_rule}

find-Memᴰ : {A : Type 0} (p : A → Bool) (xs : List A) (x : A) → find? p xs ≡ some x → Memᴰ x xs
find-Memᴰ p [] x h = cc
find-Memᴰ p (y ∷ xs) x h = elim (Bool-cases (p y)) [
  | inl t ↦ (let e : some y ≡ some x = rw t at h in Memᴰ.head (let same : x ≡ y = cc in same))
  | inr f ↦ Memᴰ.tail (find-Memᴰ p xs x (rw f at h))
]

visit-edges :
    (t : Search) (id : String) (d : ℕ) (o : Option TraceNode) → (visit t id d o).edges ≡ t.edges
unfolding visit
visit-edges t id d none = refl
visit-edges t id d (some n) = elim (Bool-cases (Dict.has t.visited id)) [
  | inl y ↦ rw y refl
  | inr f ↦ rw f refl
]

module _ (s : TraceStore) where
  -- Each edge is one of the store.
  abbrev pub AreStored : List TraceEdge → Type 0
  AreStored es = All (λ e. Memᴰ e (Dict.values s.edges)) es

  keep_edge-AreStored :
      (p : TraceEdge → Bool) (t : Search) (o : Option TraceEdge)
      → find? p (Dict.values s.edges) ≡ o
      → AreStored t.edges
      → AreStored (keep_edge t o).edges
  unfolding keep_edge
  keep_edge-AreStored p t none e h = h
  keep_edge-AreStored p t (some x) e h = elim (Bool-cases (any (same_edge x) t.edges)) [
    | inl y ↦ rw y h
    | inr f ↦ rw f (All-append _ t.edges (x ∷ []) h (find-Memᴰ p (Dict.values s.edges) x e, tt))
  ]

  module _ (dir : Direction) where
    offer-AreStored :
        (current : String) (depth : ℕ) (t : Search) (id : String)
        → AreStored t.edges
        → AreStored (offer s dir current depth t id).edges
    unfolding offer
    offer-AreStored current depth t id h =
        let o = Dict.get s.nodes id in
        keep_edge-AreStored (joins dir current id) (visit t id (depth + 1) o) _ refl
          (rw (visit-edges t id (depth + 1) o) h)

    expand-AreStored :
        (current : String) (depth : ℕ) (t : Search) (ids : List String)
        → AreStored t.edges
        → AreStored (expand s dir current depth t ids).edges
    unfolding expand
    expand-AreStored current depth t [] h = h
    expand-AreStored current depth t (id ∷ ids) h =
        expand-AreStored current depth (offer s dir current depth t id) ids
          (offer-AreStored current depth t id h)

    round-AreStored :
        (max_depth : ℕ) (t : Search) (q : String × ℕ) (rest : List (String × ℕ))
        → t.queue ≡ q ∷ rest
        → AreStored t.edges
        → AreStored (round s dir max_depth t rest q.0 q.1).edges
    unfolding round
    round-AreStored max_depth t q rest e h = elim (Bool-cases (leb max_depth q.1)) [
      | inl y ↦ rw y h
      | inr f ↦
          rw f (expand-AreStored q.0 q.1 (record t { queue = rest }) (neighbors_of s dir q.0) h)
    ]

    pub search-AreStored :
        (n : TraceNode) (max_depth : ℕ) (t : Search)
        → search_from s dir n max_depth ≡ some t
        → AreStored t.edges
    search-AreStored n max_depth t e =
        (loop_rule s dir max_depth (λ t. AreStored t.edges) (round-AreStored max_depth) _ (begin n)
          t tt e).0
