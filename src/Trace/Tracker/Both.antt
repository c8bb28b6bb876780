-- ===== src/Trace/Tracker/Both.antt =====
-- The two directions of trace/tracker.py: each adjacency list is the other one turned round.
use fusion_code_modelization.Common.{
  ℕ, suc, String, Bool, true, some, ◌≡◌, refl, List, [], ◌∷◌, ◌++◌, filter, ◌==◌, ◌&&◌, ◌||◌,
  eq_iff, same_text, contains, arith, sym, ◌∙◌, if◌then◌else◌,
}
use fusion_code_modelization.Common.Dict
use fusion_code_modelization.Common.Dict.{Dict}
use fusion_code_modelization.Trace.Store.{
  TraceNode, TraceEdge, TraceStore, find_nodes_by_artifact_id, know_node, know_edge, know_nodes,
  know_edges, empty_store, load_store, LogFile, add_node, add_edge, neighbors,
  get_forward_neighbors, get_backward_neighbors,
}
use fusion_code_modelization.Trace.Store.Laws.{neighbors-connect, neighbors-set_default}
use fusion_code_modelization.Trace.Store.Reload.{
  TraceCall, node_call, edge_call, perform, run_calls,
}
use fusion_code_modelization.Trace.Tracker.{
  Direction, forward, backward, TraceChain, neighbors_of, trace_forward, trace_backward,
}
use fusion_code_modelization.Trace.Tracker.Within.{Steps, here, step}
use fusion_code_modelization.Trace.Tracker.Chain.{
  load_store-IsKeyed, add_node-IsKeyed, add_edge-IsKeyed, IsKeyed, IsKeyedStore, ids_of,
  trace_first-IsBall,
}

-- `v` follows `u` where `u` precedes `v`.
abbrev pub IsMirrored : TraceStore → Type 0
IsMirrored s =
    (u v : String)
    → contains (get_forward_neighbors s u) v ≡ contains (get_backward_neighbors s v) u

contains-append :
    (xs : List String) (b : Bool) (x v : String)
    → contains (xs ++ (if b then x ∷ [] else [])) v ≡ contains xs v || (b && x == v)
contains-append [] b x v = ground arith
contains-append (y ∷ xs) b x v = ground (arith, contains-append xs b x v)

know_node-IsMirrored : (s : TraceStore) (n : TraceNode) → IsMirrored s → IsMirrored (know_node s n)
unfolding know_node get_forward_neighbors get_backward_neighbors
know_node-IsMirrored s n h u v =
    rw
      (
        neighbors-set_default s.adjacency n.node_id u,
        neighbors-set_default s.reverse_adjacency n.node_id v,
      )
      (h u v)

know_edge-IsMirrored : (s : TraceStore) (e : TraceEdge) → IsMirrored s → IsMirrored (know_edge s e)
unfolding know_edge get_forward_neighbors get_backward_neighbors
know_edge-IsMirrored s e h u v =
    rw
      (
        neighbors-connect s.adjacency e.source_id u e.target_id,
        neighbors-connect s.reverse_adjacency e.target_id v e.source_id,
        contains-append (neighbors s.adjacency u) (e.source_id == u) e.target_id v,
        contains-append (neighbors s.reverse_adjacency v) (e.target_id == v) e.source_id u,
      )
      (let k = h u v in ground arith)

IsMirrored-nodes :
    (ns : List TraceNode) (s : TraceStore) → IsMirrored s → IsMirrored (know_nodes s ns)
IsMirrored-nodes [] s h = h
IsMirrored-nodes (n ∷ ns) s h = IsMirrored-nodes ns (know_node s n) (know_node-IsMirrored s n h)

IsMirrored-edges :
    (es : List TraceEdge) (s : TraceStore) → IsMirrored s → IsMirrored (know_edges s es)
IsMirrored-edges [] s h = h
IsMirrored-edges (e ∷ es) s h = IsMirrored-edges es (know_edge s e) (know_edge-IsMirrored s e h)

pub load_store-IsMirrored :
    (node_log : LogFile TraceNode) (edge_log : LogFile TraceEdge)
    → IsMirrored (load_store node_log edge_log)
unfolding load_store get_backward_neighbors get_forward_neighbors Dict.get
load_store-IsMirrored node_log edge_log =
    IsMirrored-edges edge_log.lines (know_nodes (empty_store node_log edge_log) node_log.lines)
      (IsMirrored-nodes node_log.lines (empty_store node_log edge_log) (λ u v. refl))

pub add_node-IsMirrored :
    (full : List TraceNode → Bool) (full' : List TraceEdge → Bool) (s : TraceStore) (n : TraceNode)
    → IsMirrored s
    → IsMirrored (add_node full full' s n)
unfolding add_node know_node get_forward_neighbors get_backward_neighbors
add_node-IsMirrored full full' s n h = know_node-IsMirrored s n h

pub add_edge-IsMirrored :
    (full : List TraceNode → Bool) (full' : List TraceEdge → Bool) (s : TraceStore) (e : TraceEdge)
    → IsMirrored s
    → IsMirrored (add_edge full full' s e)
unfolding add_edge know_edge get_forward_neighbors get_backward_neighbors
add_edge-IsMirrored full full' s e h = know_edge-IsMirrored s e h

-- What the traces rely on.
abbrev pub IsTraceable : TraceStore → Type 0
IsTraceable s = IsKeyedStore s × IsMirrored s

perform-IsTraceable :
    (full : List TraceNode → Bool) (full' : List TraceEdge → Bool) (c : TraceCall) (s : TraceStore)
    → IsTraceable s
    → IsTraceable (perform full full' s c)
unfolding perform
perform-IsTraceable full full' (node_call n) s h =
    (add_node-IsKeyed full full' s n h.0, add_node-IsMirrored full full' s n h.1)
perform-IsTraceable full full' (edge_call e) s h =
    (add_edge-IsKeyed full full' s e h.0, add_edge-IsMirrored full full' s e h.1)

calls-IsTraceable :
    (full : List TraceNode → Bool) (full' : List TraceEdge → Bool) (calls : List TraceCall)
    (s : TraceStore)
    → IsTraceable s
    → IsTraceable (run_calls full full' s calls)
calls-IsTraceable full full' [] s h = h
calls-IsTraceable full full' (c ∷ calls) s h =
    calls-IsTraceable full full' calls (perform full full' s c)
      (perform-IsTraceable full full' c s h)

-- Started on any files and after any calls that add nodes and edges, the nodes of the store stand under
-- their ids, and its two adjacency lists mirror each other.
pub run_calls-IsTraceable :
    (full : List TraceNode → Bool) (full' : List TraceEdge → Bool) (node_log : LogFile TraceNode)
    (edge_log : LogFile TraceEdge) (calls : List TraceCall)
    → IsTraceable (run_calls full full' (load_store node_log edge_log) calls)
run_calls-IsTraceable full full' node_log edge_log calls =
    calls-IsTraceable full full' calls (load_store node_log edge_log)
      (load_store-IsKeyed node_log edge_log, load_store-IsMirrored node_log edge_log)

abbrev opposite : Direction → Direction
opposite forward = backward
opposite backward = forward

module _ (s : TraceStore) (mirror : IsMirrored s) where
  turn :
      (dir : Direction) (u v : String)
      → contains (neighbors_of s dir u) v ≡ true
      → contains (neighbors_of s (opposite dir) v) u ≡ true
  turn forward u v h = sym (mirror u v) ∙ h
  turn backward u v h = mirror v u ∙ h

  first-step :
      (dir : Direction) (a b v : String) (d : ℕ)
      → contains (neighbors_of s dir a) b ≡ true
      → Dict.has s.nodes b ≡ true
      → Steps s dir b v d
      → Steps s dir a v (suc d)
  first-step dir a b _ _ near there here = step b here near there
  first-step dir a b _ _ near there (step v walk next known) =
      step v (first-step dir a b _ _ near there walk) next known

  end-stored :
      (dir : Direction) (a v : String) (d : ℕ)
      → Dict.has s.nodes a ≡ true
      → Steps s dir a v d
      → Dict.has s.nodes v ≡ true
  end-stored dir a _ _ h here = h
  end-stored dir a _ _ h (step v walk next known) = known

  -- A walk turned round.
  turn_round :
      (dir : Direction) (a v : String) (d : ℕ)
      → Dict.has s.nodes a ≡ true
      → Steps s dir a v d
      → Steps s (opposite dir) v a d
  turn_round dir a _ _ h here = here
  turn_round dir a _ _ h (step {u} v walk next known) =
      first-step (opposite dir) v u a _ (turn dir u v next) (end-stored dir a u _ h walk)
        (turn_round dir a u _ h walk)

first-stored :
    (m : Dict TraceNode) (artifact_id : String) (n : TraceNode) (ns : List TraceNode)
    → IsKeyed m
    → filter (λ n. n.artifact_id == artifact_id) (Dict.values m) ≡ n ∷ ns
    → Dict.has m n.node_id ≡ true
unfolding Dict.get
first-stored [] artifact_id n ns keyed e = cc
first-stored ((k, w) ∷ m) artifact_id n ns keyed e =
    ground (arith, first-stored m artifact_id n ns, same_text n.node_id, eq_iff k n.node_id)

-- In a store whose lists mirror each other and whose nodes stand under their ids, the first node of
-- one artifact is in the forward trace from the first node of another exactly where the latter is in
-- the backward trace from the former, at the same depth.
pub trace_forward-backward :
    (s : TraceStore) (artifact_id other_id : String) (max_depth : ℕ) (n m : TraceNode)
    (ns ms : List TraceNode)
    → IsMirrored s
    → IsKeyedStore s
    → find_nodes_by_artifact_id s artifact_id ≡ n ∷ ns
    → find_nodes_by_artifact_id s other_id ≡ m ∷ ms
    → (c c' : TraceChain) × (trace_forward s artifact_id max_depth ≡ some c)
      × (trace_backward s other_id max_depth ≡ some c')
      × (contains (ids_of c.nodes) m.node_id ≡ contains (ids_of c'.nodes) n.node_id)
unfolding trace_forward trace_backward find_nodes_by_artifact_id
trace_forward-backward s artifact_id other_id max_depth n m ns ms mirror keyed found found' =
    let (c, e, ball) = trace_first-IsBall s forward n ns max_depth keyed in
    let (c', e', ball') = trace_first-IsBall s backward m ms max_depth keyed in
    let n_stored = first-stored s.nodes artifact_id n ns keyed found in
    let m_stored = first-stored s.nodes other_id m ms keyed found' in
    let there = λ (h : contains (ids_of c.nodes) m.node_id ≡ true).
      let (d, walk, le) = (ball.members m.node_id).0 h in
      (ball'.members n.node_id).1
        (d, turn_round s mirror forward n.node_id m.node_id d n_stored walk, le) in
    let back = λ (h : contains (ids_of c'.nodes) n.node_id ≡ true).
      let (d, walk, le) = (ball'.members n.node_id).0 h in
      (ball.members m.node_id).1
        (d, turn_round s mirror backward m.node_id n.node_id d m_stored walk, le) in
    (c, c', rw found e, rw found' e', ground (arith, there, back))
