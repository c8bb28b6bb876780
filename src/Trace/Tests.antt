-- ===== src/Trace/Tests.antt =====
-- Tests of fusion_code_modelization/trace.
use fusion_code_modelization.Common.{
  ℕ, ◌⊎◌, String, ◌≡◌, refl, Bool, Option, none, some, List, [], ◌∷◌, ltb, length, if◌then◌else◌,
}
use fusion_code_modelization.Common.Dict
use fusion_code_modelization.Trace.Store.{
  requirement, depends_on, TraceNode, TraceEdge, TraceStore, shift, maybe_rotate, append_line,
  connect, know_node, know_edge, add_node, add_edge, load_store, get_forward_neighbors,
  get_orphan_node_ids,
}
use fusion_code_modelization.Trace.Store.Reload.{
  TraceCall, node_call, edge_call, perform, run_calls, start, KnowsAll, IsRotated, load_store-Knows,
}

abbrev node : String → TraceNode
node id = record {
  node_id = id;
  artifact_type = requirement;
  artifact_id = id;
  name = id;
  metadata = [];
  timestamp = "t";
}

abbrev edge : String → String → String → TraceEdge
edge id a b = record {
  edge_id = id;
  source_id = a;
  target_id = b;
  relationship = depends_on;
  metadata = [];
  timestamp = "t";
}

-- Each file may take up to five lines.
abbrev full_nodes : List TraceNode → Bool
full_nodes ls = ltb 4 (length ls)

abbrev full_edges : List TraceEdge → Bool
full_edges ls = ltb 4 (length ls)

abbrev calls : List TraceCall
calls =
    node_call (node "a")
    ∷ edge_call (edge "e" "a" "b")
    ∷ node_call (node "b")
    ∷ node_call (node "c")
    ∷ edge_call (edge "f" "a" "c")
    ∷ node_call (node "d")
    ∷ []

abbrev store : TraceStore
store = run_calls full_nodes full_edges (start full_nodes full_edges) calls

test_neighbors : get_forward_neighbors store "a" ≡ "b" ∷ "c" ∷ []
unfolding get_forward_neighbors perform add_node add_edge know_node know_edge append_line
    maybe_rotate connect Dict.get Dict.set Dict.set_default
test_neighbors = refl

test_orphans : get_orphan_node_ids store ≡ "d" ∷ []
unfolding get_orphan_node_ids perform add_node add_edge know_node know_edge append_line maybe_rotate
    connect Dict.get Dict.set Dict.set_default
test_orphans = refl

-- Neither file was rotated.
test_fresh : (store.node_log.older 1 ≡ none) × (store.edge_log.older 1 ≡ none)
unfolding perform add_node add_edge know_node know_edge append_line maybe_rotate connect Dict.get
    Dict.set Dict.set_default
test_fresh = (refl, refl)

load_store-Knows_example :
    KnowsAll calls store
    × (IsRotated store.node_log
        ⊎ IsRotated store.edge_log
        ⊎ KnowsAll calls (load_store store.node_log store.edge_log))
load_store-Knows_example = load_store-Knows full_nodes full_edges calls

-- Eleven files, each with its number.
abbrev eleven : ℕ → Option (List ℕ)
eleven i = if ltb i 11 then some (i ∷ []) else none

-- A rotation of files that are all there loses two of them, the tenth and the ninth.
test_two_lost :
    ((shift 10 eleven 10 ≡ none) × (shift 10 eleven 9 ≡ some (8 ∷ [])))
    × (shift 10 eleven 2 ≡ some (1 ∷ []))
unfolding shift
test_two_lost = ((refl, refl), refl)
