-- ===== src/Trace/Tracker/Tests.antt =====
-- Tests of fusion_code_modelization/trace/tracker.py.
use fusion_code_modelization.Common.{
  String, ◌≡◌, ◌⊎◌, refl, Bool, Option, none, some, List, [], ◌∷◌, ltb, length, contains, ◌≢◌,
}
use fusion_code_modelization.Common.Dict
use fusion_code_modelization.Common.Dict.{Dict}
use fusion_code_modelization.Trace.Store.{
  ArtifactType, requirement, review, depends_on, TraceNode, TraceEdge, TraceStore, LogFile,
  append_line, maybe_rotate, connect, know_node, know_edge, add_node, add_edge, load_store,
  get_forward_neighbors, get_backward_neighbors, get_orphan_node_ids, find_nodes_by_artifact_id,
}
use fusion_code_modelization.Trace.Store.Reload.{
  TraceCall, node_call, edge_call, perform, run_calls,
}
use fusion_code_modelization.Trace.Tracker.{
  TraceChain, type_value, get_trace_chain, trace_forward, trace_backward, loop, round, expand,
  offer, visit, keep_edge,
}
use fusion_code_modelization.Trace.Tracker.Rounds.{get_trace_chain_returns}
use fusion_code_modelization.Trace.Tracker.Chain.{
  IsBall, ids_of, direction_of, get_trace_chain-IsBall,
}
use fusion_code_modelization.Trace.Tracker.Both.{
  IsTraceable, run_calls-IsTraceable, trace_forward-backward,
}
use fusion_code_modelization.Trace.Report.{Filters, quotient, create_node, tally, generate_report}
use fusion_code_modelization.Trace.Report.Laws.{IsTrue, generate_report-IsTrue}
use fusion_code_modelization.Trace.Report.Creation.{IsCreated, create_node_cases}

abbrev node : String → TraceNode
node id = record {
  node_id = id;
  artifact_type = requirement;
  artifact_id = id;
  name = id;
  metadata = [];
  timestamp = "t";
}

abbrev edge : String → String → String → TraceEdge
edge id a b = record {
  edge_id = id;
  source_id = a;
  target_id = b;
  relationship = depends_on;
  metadata = [];
  timestamp = "t";
}

abbrev full : {A : Type 0} → List A → Bool
full ls = ltb 10 (length ls)

abbrev no_files : {A : Type 0} → LogFile A
no_files = record { lines = []; older = λ i. none }

-- a → b → c → a is a cycle, c → d leaves it, and a → x leads to no node.
abbrev calls : List TraceCall
calls =
    node_call (node "a")
    ∷ node_call (node "b")
    ∷ node_call (node "c")
    ∷ node_call (node "d")
    ∷ node_call (node "e")
    ∷ edge_call (edge "1" "a" "b")
    ∷ edge_call (edge "2" "b" "c")
    ∷ edge_call (edge "3" "c" "a")
    ∷ edge_call (edge "4" "c" "d")
    ∷ edge_call (edge "5" "a" "x")
    ∷ []

abbrev store : TraceStore
store = run_calls full full (load_store no_files no_files) calls

abbrev ids_in : Option TraceChain → List String
ids_in none = []
ids_in (some c) = ids_of c.nodes

test_depth : ids_in (trace_forward store "a" 2) ≡ "a" ∷ "b" ∷ "c" ∷ []
unfolding trace_forward loop round expand offer visit keep_edge get_forward_neighbors
    get_backward_neighbors find_nodes_by_artifact_id load_store perform add_node add_edge know_node
    know_edge append_line maybe_rotate connect Dict.get Dict.set Dict.set_default
test_depth = refl

test_backward : ids_in (trace_backward store "d" 3) ≡ "d" ∷ "c" ∷ "b" ∷ "a" ∷ []
unfolding trace_backward loop round expand offer visit keep_edge get_forward_neighbors
    get_backward_neighbors find_nodes_by_artifact_id load_store perform add_node add_edge know_node
    know_edge append_line maybe_rotate connect Dict.get Dict.set Dict.set_default
test_backward = refl

get_trace_chain_returns_example :
    (c : TraceChain) × (get_trace_chain store "a" "forward" 10 ≡ some c)
get_trace_chain_returns_example = get_trace_chain_returns store "a" "forward" 10

run_calls-IsTraceable_example : IsTraceable store
run_calls-IsTraceable_example = run_calls-IsTraceable full full no_files no_files calls

store-IsTraceable : IsTraceable store
store-IsTraceable = run_calls-IsTraceable full full no_files no_files calls

found_a : find_nodes_by_artifact_id store "a" ≡ node "a" ∷ []
unfolding find_nodes_by_artifact_id load_store perform add_node add_edge know_node know_edge
    append_line maybe_rotate connect Dict.get Dict.set Dict.set_default
found_a = refl

found_d : find_nodes_by_artifact_id store "d" ≡ node "d" ∷ []
unfolding find_nodes_by_artifact_id load_store perform add_node add_edge know_node know_edge
    append_line maybe_rotate connect Dict.get Dict.set Dict.set_default
found_d = refl

get_trace_chain-IsBall_example :
    (c : TraceChain) × (get_trace_chain store "a" "backward" 2 ≡ some c)
    × IsBall store (direction_of "backward") (node "a") 2 c
get_trace_chain-IsBall_example =
    get_trace_chain-IsBall store "a" "backward" 2 (node "a") [] store-IsTraceable.0 found_a

trace_forward-backward_example :
    (c c' : TraceChain) × (trace_forward store "a" 3 ≡ some c)
    × (trace_backward store "d" 3 ≡ some c')
    × (contains (ids_of c.nodes) "d" ≡ contains (ids_of c'.nodes) "a")
trace_forward-backward_example =
    trace_forward-backward store "a" "d" 3 (node "a") (node "d") [] [] store-IsTraceable.1
      store-IsTraceable.0 found_a found_d

abbrev only_tests : Filters
only_tests = record { artifact_type = some "requirement"; relationship = some "tests" }

generate_report-IsTrue_example : IsTrue store only_tests (generate_report store only_tests)
generate_report-IsTrue_example = generate_report-IsTrue store only_tests

create_node_cases_example :
    IsCreated store "n" "review" (create_node full full store "n" "t" "review" "r" "R" [])
    ⊎ (create_node full full store "n" "t" "review" "r" "R" [] ≡ none)
      × ((t : ArtifactType) → type_value t ≢ "review")
create_node_cases_example = create_node_cases full full store "n" "t" "review" "r" "R" []

abbrev reviews : TraceStore
reviews = run_calls full full (load_store no_files no_files) (
    node_call (node "a")
    ∷ node_call (node "b")
    ∷ node_call (record (node "c") { artifact_type = review })
    ∷ edge_call (edge "1" "c" "x")
    ∷ [])

-- The score of the filtered nodes takes the orphans of the whole graph from them: 1 - 2, of 1.
test_filtered_score :
    (generate_report reviews
      (record { artifact_type = some "review"; relationship = none })).coverage_score
    ≡ quotient 1 2
unfolding generate_report get_orphan_node_ids load_store perform add_node add_edge know_node
    know_edge append_line maybe_rotate connect Dict.get Dict.set Dict.set_default tally
test_filtered_score = refl
