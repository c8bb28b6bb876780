-- ===== src/Trace/Tracker/Chain.antt =====
-- The chain that a trace of trace/tracker.py returns, against the walks of the graph.
use mathlib.Core.Logic.{◌↔◌}
use fusion_code_modelization.Common.{
  ℕ, ◌+◌, ◌≤◌, String, Bool, true, Option, none, some, ◌≡◌, refl, inl, inr, List, [], ◌∷◌, map,
  ◌==◌, eq_iff, contains, arith, ap, sym, ◌∙◌, if◌then◌else◌, find?, Bool-cases, leb,
}
use fusion_code_modelization.Common.Dict
use fusion_code_modelization.Common.Dict.{Dict, has-keys}
use fusion_code_modelization.Trace.Store.{
  TraceNode, TraceEdge, TraceStore, find_nodes_by_artifact_id, know_node, know_edge, know_nodes,
  know_edges, empty_store, load_store, LogFile, add_node, add_edge,
}
use fusion_code_modelization.Trace.Tracker.{
  Direction, forward, backward, Search, TraceChain, visit, joins, neighbors_of, offer, expand,
  round, begin, search_from, chain_of, get_trace_chain, trace_first, trace_forward, trace_backward,
}
use fusion_code_modelization.Trace.Tracker.Rounds.{keep_edge-same, loop_rule, search_from_ends}
use fusion_code_modelization.Trace.Tracker.Within.{Steps, search_sound}
use fusion_code_modelization.Trace.Tracker.Edges.{AreStored, search-AreStored}
use fusion_code_modelization.Trace.Tracker.Complete.{search_complete}

-- Each node stands under its own id.
abbrev pub IsKeyed : Dict TraceNode → Type 0
IsKeyed [] = Unit
IsKeyed ((k, n) ∷ m) = (n.node_id ≡ k) × IsKeyed m

abbrev pub ids_of : List TraceNode → List String
ids_of ns = map (λ n. n.node_id) ns

IsKeyed-set :
    (m : Dict TraceNode) (k : String) (n : TraceNode)
    → n.node_id ≡ k
    → IsKeyed m
    → IsKeyed (Dict.set m k n)
unfolding Dict.set
IsKeyed-set [] k n e h = (e, tt)
IsKeyed-set ((j, w) ∷ m) k n e h = elim (Bool-cases (j == k)) [
  | inl y ↦ rw y (e ∙ sym ((eq_iff j k).0 y), h.1)
  | inr d ↦ rw d (h.0, IsKeyed-set m k n e h.1)
]

IsKeyed-get :
    (m : Dict TraceNode) (k : String) (n : TraceNode)
    → IsKeyed m
    → Dict.get m k ≡ some n
    → n.node_id ≡ k
unfolding Dict.get
IsKeyed-get [] k n h e = cc
IsKeyed-get ((j, w) ∷ m) k n h e = ground (arith, eq_iff j k, IsKeyed-get m k n)

ids-values : (m : Dict TraceNode) → IsKeyed m → ids_of (Dict.values m) ≡ Dict.keys m
ids-values [] h = refl
ids-values ((k, n) ∷ m) h = rw (h.0) (ap (λ l. k ∷ l) (ids-values m h.1))

-- The nodes of a store stand under their ids.
abbrev pub IsKeyedStore : TraceStore → Type 0
IsKeyedStore s = IsKeyed s.nodes

IsKeyed-nodes :
    (ns : List TraceNode) (s : TraceStore) → IsKeyedStore s → IsKeyedStore (know_nodes s ns)
unfolding know_node
IsKeyed-nodes [] s h = h
IsKeyed-nodes (n ∷ ns) s h =
    IsKeyed-nodes ns (know_node s n) (IsKeyed-set s.nodes n.node_id n refl h)

IsKeyed-edges :
    (es : List TraceEdge) (s : TraceStore) → IsKeyedStore s → IsKeyedStore (know_edges s es)
unfolding know_edge
IsKeyed-edges [] s h = h
IsKeyed-edges (e ∷ es) s h = IsKeyed-edges es (know_edge s e) h

pub load_store-IsKeyed :
    (node_log : LogFile TraceNode) (edge_log : LogFile TraceEdge)
    → IsKeyedStore (load_store node_log edge_log)
unfolding load_store
load_store-IsKeyed node_log edge_log =
    IsKeyed-edges edge_log.lines (know_nodes (empty_store node_log edge_log) node_log.lines)
      (IsKeyed-nodes node_log.lines (empty_store node_log edge_log) tt)

pub add_node-IsKeyed :
    (full : List TraceNode → Bool) (full' : List TraceEdge → Bool) (s : TraceStore) (n : TraceNode)
    → IsKeyedStore s
    → IsKeyedStore (add_node full full' s n)
unfolding add_node know_node
add_node-IsKeyed full full' s n h = IsKeyed-set s.nodes n.node_id n refl h

pub add_edge-IsKeyed :
    (full : List TraceNode → Bool) (full' : List TraceEdge → Bool) (s : TraceStore) (e : TraceEdge)
    → IsKeyedStore s
    → IsKeyedStore (add_edge full full' s e)
unfolding add_edge know_edge
add_edge-IsKeyed full full' s e h = h

module _ (s : TraceStore) (dir : Direction) (keyed : IsKeyedStore s) where
  visit-IsKeyed :
      (t : Search) (id : String) (d : ℕ) (o : Option TraceNode)
      → Dict.get s.nodes id ≡ o
      → IsKeyed t.visited
      → IsKeyed (visit t id d o).visited
  unfolding visit
  visit-IsKeyed t id d none e h = h
  visit-IsKeyed t id d (some n) e h = elim (Bool-cases (Dict.has t.visited id)) [
    | inl y ↦ rw y h
    | inr k ↦ rw k (IsKeyed-set t.visited id n (IsKeyed-get s.nodes id n keyed e) h)
  ]

  offer-IsKeyed :
      (current : String) (depth : ℕ) (t : Search) (id : String)
      → IsKeyed t.visited
      → IsKeyed (offer s dir current depth t id).visited
  unfolding offer
  offer-IsKeyed current depth t id h =
      let t' = visit t id (depth + 1) (Dict.get s.nodes id) in
      rw ((keep_edge-same t' (find? (joins dir current id) (Dict.values s.edges))).0)
        (visit-IsKeyed t id (depth + 1) (Dict.get s.nodes id) refl h)

  expand-IsKeyed :
      (current : String) (depth : ℕ) (t : Search) (ids : List String)
      → IsKeyed t.visited
      → IsKeyed (expand s dir current depth t ids).visited
  unfolding expand
  expand-IsKeyed current depth t [] h = h
  expand-IsKeyed current depth t (id ∷ ids) h =
      expand-IsKeyed current depth (offer s dir current depth t id) ids
        (offer-IsKeyed current depth t id h)

  round-IsKeyed :
      (max_depth : ℕ) (t : Search) (q : String × ℕ) (rest : List (String × ℕ))
      → t.queue ≡ q ∷ rest
      → IsKeyed t.visited
      → IsKeyed (round s dir max_depth t rest q.0 q.1).visited
  unfolding round
  round-IsKeyed max_depth t q rest e h = elim (Bool-cases (leb max_depth q.1)) [
    | inl y ↦ rw y h
    | inr k ↦ rw k (expand-IsKeyed q.0 q.1 (record t { queue = rest }) (neighbors_of s dir q.0) h)
  ]

  search-IsKeyed :
      (n : TraceNode) (max_depth : ℕ) (t : Search)
      → search_from s dir n max_depth ≡ some t
      → IsKeyed t.visited
  search-IsKeyed n max_depth t e =
      (loop_rule s dir max_depth (λ t. IsKeyed t.visited) (round-IsKeyed max_depth) _ (begin n) t
        (refl, tt) e).0

-- `c` is the chain of the nodes that at most `max_depth` edges lead to.
pub record IsBall (s : TraceStore) (dir : Direction) (n : TraceNode) (max_depth : ℕ)
    (c : TraceChain) : Type 0 where
  pub starts : c.start_node_id ≡ n.node_id
  pub toward : c.direction ≡ dir
  pub edges_stored : AreStored s c.edges
  pub members :
      (v : String)
      → (contains (ids_of c.nodes) v ≡ true)
        ↔ ((d : ℕ) × Steps s dir n.node_id v d × (d ≤ max_depth))

pub trace_first-IsBall :
    (s : TraceStore) (dir : Direction) (n : TraceNode) (ns : List TraceNode) (max_depth : ℕ)
    → IsKeyedStore s
    → (c : TraceChain) × (trace_first s dir (n ∷ ns) max_depth ≡ some c)
      × IsBall s dir n max_depth c
trace_first-IsBall s dir n ns max_depth keyed =
    let (t, e) = search_from_ends s dir n max_depth in
    let same = ids-values t.visited (search-IsKeyed s dir keyed n max_depth t e) in
    let listed = λ (v : String). ap (λ l. contains l v) same ∙ has-keys t.visited v in
    let near = (search_sound s dir n max_depth t e).0 in
    (
      _,
      ap (chain_of s dir max_depth n) e,
      record {
        starts = refl;
        toward = refl;
        edges_stored = search-AreStored s dir n max_depth t e;
        members = λ v. (
          λ m. near.seen v (sym (listed v) ∙ m),
          λ (d, walk, le). listed v ∙ search_complete s dir n max_depth t e v d walk le,
        );
      },
    )

abbrev pub direction_of : String → Direction
direction_of direction = if direction == "backward" then backward else forward

-- In a store whose nodes stand under their ids, with `n` the first node of the artifact, a trace in
-- either direction returns a chain from `n` whose nodes are those, and only those, that a walk of at
-- most `max_depth` edges over stored nodes leads to, and whose edges are all stored.
pub get_trace_chain-IsBall :
    (s : TraceStore) (artifact_id direction : String) (max_depth : ℕ) (n : TraceNode)
    (ns : List TraceNode)
    → IsKeyedStore s
    → find_nodes_by_artifact_id s artifact_id ≡ n ∷ ns
    → (c : TraceChain) × (get_trace_chain s artifact_id direction max_depth ≡ some c)
      × IsBall s (direction_of direction) n max_depth c
unfolding get_trace_chain trace_forward trace_backward
get_trace_chain-IsBall s artifact_id direction max_depth n ns keyed found =
    elim (Bool-cases (direction == "backward")) [
      | inl y ↦ rw (y, found) (trace_first-IsBall s backward n ns max_depth keyed)
      | inr k ↦ rw (k, found) (trace_first-IsBall s forward n ns max_depth keyed)
    ]
