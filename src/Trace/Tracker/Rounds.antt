-- ===== src/Trace/Tracker/Rounds.antt =====
-- The rounds of a trace in trace/tracker.py: how many there can be, and what holds after them.
use fusion_code_modelization.Common.{
  ℕ, zero, suc, ◌+◌, ◌≤◌, String, true, false, Option, none, some, ◌≡◌, refl, inl, inr, List, [],
  ◌∷◌, filter, length, not, ◌==◌, eq_iff, contains, arith, ap, ◌∙◌, if◌then◌else◌, find?,
  length-append, List-cases, Bool-cases, length-filter-le,
}
use fusion_code_modelization.Common.Dict
use fusion_code_modelization.Common.Dict.{Dict, get-set, has-keys}
use fusion_code_modelization.Trace.Store.{
  TraceNode, TraceEdge, TraceStore, find_nodes_by_artifact_id,
}
use fusion_code_modelization.Trace.Tracker.{
  Direction, forward, backward, Search, TraceChain, visit, keep_edge, joins, neighbors_of, offer,
  expand, round, loop, begin, search_from, trace_first, chain_of, trace_forward, trace_backward,
  get_trace_chain,
}

-- The keys that were not visited
abbrev unseen : List String → Dict TraceNode → ℕ
unseen ks visited = length (filter (λ k. not (Dict.has visited k)) ks)

pub has-set :
    (m : Dict TraceNode) (k j : String) (n : TraceNode)
    → Dict.has (Dict.set m k n) j ≡ (if k == j then true else Dict.has m j)
has-set m k j n = ground (arith, get-set m k j n)

unseen-set-le :
    (ks : List String) (m : Dict TraceNode) (k : String) (n : TraceNode)
    → unseen ks (Dict.set m k n) ≤ unseen ks m
unseen-set-le [] m k n = omega arith
unseen-set-le (j ∷ ks) m k n = ground (arith, unseen-set-le ks m k n, has-set m k j n)

unseen-set-lt :
    (ks : List String) (m : Dict TraceNode) (k : String) (n : TraceNode)
    → contains ks k ≡ true
    → Dict.has m k ≡ false
    → unseen ks (Dict.set m k n) + 1 ≤ unseen ks m
unseen-set-lt [] m k n h new = cc
unseen-set-lt (j ∷ ks) m k n h new =
    ground (
      arith,
      unseen-set-lt ks m k n,
      unseen-set-le ks m k n,
      has-set m k j n,
      eq_iff j k,
      eq_iff k j,
    )

pub keep_edge-same :
    (t : Search) (e : Option TraceEdge)
    → ((keep_edge t e).visited ≡ t.visited) × ((keep_edge t e).queue ≡ t.queue)
unfolding keep_edge
keep_edge-same t none = (refl, refl)
keep_edge-same t (some e) = ground arith

module _ (s : TraceStore) where
  -- A round takes an entry from the queue, and queues only nodes that it marks.
  abbrev work : Search → ℕ
  work t = unseen (Dict.keys s.nodes) t.visited + length t.queue

  visit-work :
      (t : Search) (id : String) (d : ℕ) (o : Option TraceNode)
      → Dict.get s.nodes id ≡ o
      → work (visit t id d o) ≤ work t
  unfolding visit
  visit-work t id d none h = omega arith
  visit-work t id d (some n) h = elim (Bool-cases (Dict.has t.visited id)) [
    | inl y ↦ rw y (omega arith)
    | inr new ↦ rw new (
        omega (
          arith,
          unseen-set-lt (Dict.keys s.nodes) t.visited id n (has-keys s.nodes id ∙ rw h refl) new,
          length-append t.queue ((id, d) ∷ []),
        ))
  ]

module _ (s : TraceStore) (dir : Direction) where
  offer-work :
      (current : String) (depth : ℕ) (t : Search) (id : String)
      → work s (offer s dir current depth t id) ≤ work s t
  unfolding offer
  offer-work current depth t id =
      let t' = visit t id (depth + 1) (Dict.get s.nodes id) in
      let (a, b) = keep_edge-same t' (find? (joins dir current id) (Dict.values s.edges)) in
      rw (a, b) (visit-work s t id (depth + 1) (Dict.get s.nodes id) refl)

  expand-work :
      (current : String) (depth : ℕ) (t : Search) (ids : List String)
      → work s (expand s dir current depth t ids) ≤ work s t
  unfolding expand
  expand-work current depth t [] = omega arith
  expand-work current depth t (id ∷ ids) = omega (
    arith,
    offer-work current depth t id,
    expand-work current depth (offer s dir current depth t id) ids,
  )

  round-work :
      (max_depth : ℕ) (t : Search) (rest : List (String × ℕ)) (current : String) (depth : ℕ)
      → work s (round s dir max_depth t rest current depth)
        ≤ unseen (Dict.keys s.nodes) t.visited + length rest
  unfolding round
  round-work max_depth t rest current depth =
      ground
        (arith, expand-work current depth (record t { queue = rest }) (neighbors_of s dir current))

  loop-next :
      (max_depth fuel : ℕ) (t : Search) (q : String × ℕ) (rest : List (String × ℕ))
      → t.queue ≡ q ∷ rest
      → loop s dir max_depth (suc fuel) t
        ≡ loop s dir max_depth fuel (round s dir max_depth t rest q.0 q.1)
  unfolding loop
  loop-next max_depth fuel t q rest e = rw e refl

  pub loop_ends :
      (max_depth fuel : ℕ) (t : Search)
      → work s t ≤ fuel
      → (end : Search) × (loop s dir max_depth fuel t ≡ some end)
  unfolding loop
  loop_ends max_depth zero t h = (t, ground arith)
  loop_ends max_depth (suc fuel) t h = elim (List-cases t.queue) [
    | inl empty ↦ (t, rw empty refl)
    | inr (q, rest, e) ↦
        let (end, ends) =
          loop_ends max_depth fuel (round s dir max_depth t rest q.0 q.1)
            (omega (arith, round-work max_depth t rest q.0 q.1, ap length e)) in
        (end, loop-next max_depth fuel t q rest e ∙ ends)
  ]

  -- What each round keeps holds when the queue is empty.
  pub loop_rule {ℓ} :
      (max_depth : ℕ) (P : Search → Type ℓ)
      → ((t : Search) (q : String × ℕ) (rest : List (String × ℕ))
          → t.queue ≡ q ∷ rest
          → P t
          → P (round s dir max_depth t rest q.0 q.1))
      → (fuel : ℕ) (t end : Search) → P t
      → loop s dir max_depth fuel t ≡ some end
      → P end × (end.queue ≡ [])
  unfolding loop
  loop_rule max_depth P keep zero t end p h = ground arith
  loop_rule max_depth P keep (suc fuel) t end p h = elim (List-cases t.queue) [
    | inl empty ↦ ground arith
    | inr (q, rest, e) ↦
        loop_rule max_depth P keep fuel (round s dir max_depth t rest q.0 q.1) end
          (keep t q rest e p) (rw (e, loop) at h)
  ]

length-keys : (m : Dict TraceNode) → length (Dict.keys m) ≡ length m
length-keys [] = refl
length-keys ((k, n) ∷ m) = ap suc (length-keys m)

pub search_from_ends :
    (s : TraceStore) (dir : Direction) (n : TraceNode) (max_depth : ℕ)
    → (t : Search) × (search_from s dir n max_depth ≡ some t)
search_from_ends s dir n max_depth = loop_ends s dir max_depth (length s.nodes + 1) (begin n) (
    omega (
      arith,
      length-keys s.nodes,
      length-filter-le (λ k. not (Dict.has (begin n).visited k)) (Dict.keys s.nodes),
    ))

pub trace_first_ends :
    (s : TraceStore) (dir : Direction) (ns : List TraceNode) (max_depth : ℕ)
    → (c : TraceChain) × (trace_first s dir ns max_depth ≡ some c)
trace_first_ends s dir [] max_depth = (_, refl)
trace_first_ends s dir (n ∷ ns) max_depth =
    let (t, e) = search_from_ends s dir n max_depth in (_, ap (chain_of s dir max_depth n) e)

-- Whatever the store holds, cycles and dangling edges included, a trace in either direction returns a
-- chain: the number of stored nodes and one more bounds the rounds of its loop.
pub get_trace_chain_returns :
    (s : TraceStore) (artifact_id direction : String) (max_depth : ℕ)
    → (c : TraceChain) × (get_trace_chain s artifact_id direction max_depth ≡ some c)
unfolding get_trace_chain trace_forward trace_backward
get_trace_chain_returns s artifact_id direction max_depth =
    let ns = find_nodes_by_artifact_id s artifact_id in
    elim (Bool-cases (direction == "backward")) [
      | inl y ↦ rw y (trace_first_ends s backward ns max_depth)
      | inr n ↦ rw n (trace_first_ends s forward ns max_depth)
    ]
