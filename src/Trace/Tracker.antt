-- ===== src/Trace/Tracker.antt =====
-- fusion_code_modelization/trace/tracker.py: the traces over the graph and the report. `TraceTracker`
-- only holds its store, so each method takes the store. A `max_depth` below 0 acts as 0 does. The
-- number of nodes in the store bounds the rounds of a trace, and its fuel is one more.
pub mod Rounds
pub mod Within
pub mod Levels
pub mod After
pub mod Complete
pub mod Edges
pub mod Chain
pub mod Both
mod Tests
use fusion_code_modelization.Common.{
  ℕ, zero, suc, String, Bool, true, false, Option, none, some, List, [], ◌∷◌, ◌++◌, filter, map,
  foldl, find?, any, all, length, leb, not, ◌==◌, ◌&&◌, ◌+◌, if◌then◌else◌,
}
use fusion_code_modelization.Common.Dict
use fusion_code_modelization.Common.Dict.{Dict}
use fusion_code_modelization.Trace.Store.{
  ArtifactType, requirement, code_change, test_result, deployment, review, migration, security_scan,
  benchmark, RelationshipType, derived_from, implements, tests, depends_on, generates, migrates_to,
  reviews, supersedes, TraceNode, TraceEdge, TraceStore, is_same, get_forward_neighbors,
  get_backward_neighbors, get_orphan_node_ids, find_nodes_by_artifact_id,
}

pub data Direction : Type 0 where
  forward backward : Direction

pub record TraceChain : Type 0 where
  pub start_node_id : String
  pub end_node_id : String
  pub direction : Direction
  pub nodes : List TraceNode
  pub edges : List TraceEdge
  pub depth : ℕ

-- The locals of the loop: `visited_nodes`, `visited_edges` and `queue`.
pub record Search : Type 0 where
  pub visited : Dict TraceNode
  pub edges : List TraceEdge
  pub queue : List (String × ℕ)

abbrev pub type_value : ArtifactType → String
type_value requirement = "requirement"
type_value code_change = "code_change"
type_value test_result = "test_result"
type_value deployment = "deployment"
type_value review = "review"
type_value migration = "migration"
type_value security_scan = "security_scan"
type_value benchmark = "benchmark"

abbrev pub relationship_value : RelationshipType → String
relationship_value derived_from = "derived_from"
relationship_value implements = "implements"
relationship_value tests = "tests"
relationship_value depends_on = "depends_on"
relationship_value generates = "generates"
relationship_value migrates_to = "migrates_to"
relationship_value reviews = "reviews"
relationship_value supersedes = "supersedes"

abbrev holds : Dict String → String → String → Bool
holds m k v = elim (Dict.get m k) [ none ↦ false | some w ↦ w == v ]

-- `==` of two edges, which a dataclass compares field by field
abbrev same_edge : TraceEdge → TraceEdge → Bool
same_edge d e =
    d.edge_id == e.edge_id
    && d.source_id == e.source_id
    && d.target_id == e.target_id
    && relationship_value d.relationship == relationship_value e.relationship
    && is_same (length d.metadata) (length e.metadata)
    && all (λ (k, v). holds e.metadata k v) d.metadata
    && d.timestamp == e.timestamp

-- `if neighbor and neighbor_id not in visited_nodes`
unfoldable pub visit : Search → String → ℕ → Option TraceNode → Search
visit t id depth none = t
visit t id depth (some n) =
    if Dict.has t.visited id
    then t
    else (record t { visited = Dict.set t.visited id n; queue = t.queue ++ (id, depth) ∷ [] })

-- `if edge and edge not in visited_edges`
unfoldable pub keep_edge : Search → Option TraceEdge → Search
keep_edge t none = t
keep_edge t (some e) =
    if any (same_edge e) t.edges then t else (record t { edges = t.edges ++ e ∷ [] })

abbrev pub neighbors_of : TraceStore → Direction → String → List String
neighbors_of s forward id = get_forward_neighbors s id
neighbors_of s backward id = get_backward_neighbors s id

abbrev pub joins : Direction → String → String → TraceEdge → Bool
joins forward current id e = e.source_id == current && e.target_id == id
joins backward current id e = e.target_id == current && e.source_id == id

abbrev pub begin : TraceNode → Search
begin n = record { visited = (n.node_id, n) ∷ []; edges = []; queue = (n.node_id, 0) ∷ [] }

abbrev last_key : String → List String → String
last_key id [] = id
last_key id (k ∷ ks) = last_key k ks

module _ (s : TraceStore) (dir : Direction) where
  -- The body of the inner loop
  unfoldable pub offer : String → ℕ → Search → String → Search
  offer current depth t id =
      keep_edge (visit t id (depth + 1) (Dict.get s.nodes id))
        (find? (joins dir current id) (Dict.values s.edges))

  unfoldable pub expand : String → ℕ → Search → List String → Search
  expand current depth t ids = foldl (offer current depth) t ids

  -- A round of the outer loop, after `(current, depth)` left the queue
  unfoldable pub round : ℕ → Search → List (String × ℕ) → String → ℕ → Search
  round max_depth t rest current depth =
      if leb max_depth depth
      then (record t { queue = rest })
      else expand current depth (record t { queue = rest }) (neighbors_of s dir current)

  unfoldable pub loop : ℕ → ℕ → Search → Option Search
  loop max_depth zero t = elim t.queue [ [] ↦ some t | _ ∷ _ ↦ none ]
  loop max_depth (suc fuel) t = elim t.queue [
    | [] ↦ some t
    | q ∷ rest ↦ loop max_depth fuel (round max_depth t rest q.0 q.1)
  ]

  abbrev pub chain_of : ℕ → TraceNode → Option Search → Option TraceChain
  chain_of max_depth n none = none
  chain_of max_depth n (some t) = some (record {
    start_node_id = n.node_id;
    end_node_id = last_key n.node_id (Dict.keys t.visited);
    direction = dir;
    nodes = Dict.values t.visited;
    edges = t.edges;
    depth = max_depth;
  })

  abbrev pub search_from : TraceNode → ℕ → Option Search
  search_from n max_depth = loop max_depth (length s.nodes + 1) (begin n)

  abbrev pub trace_first : List TraceNode → ℕ → Option TraceChain
  trace_first [] max_depth = some (record {
    start_node_id = "";
    end_node_id = "";
    direction = forward;
    nodes = [];
    edges = [];
    depth = 0;
  })
  trace_first (n ∷ _) max_depth = chain_of max_depth n (search_from n max_depth)

unfoldable pub trace_forward : TraceStore → String → ℕ → Option TraceChain
trace_forward s artifact_id max_depth =
    trace_first s forward (find_nodes_by_artifact_id s artifact_id) max_depth

unfoldable pub trace_backward : TraceStore → String → ℕ → Option TraceChain
trace_backward s artifact_id max_depth =
    trace_first s backward (find_nodes_by_artifact_id s artifact_id) max_depth

unfoldable pub get_trace_chain : TraceStore → String → String → ℕ → Option TraceChain
get_trace_chain s artifact_id direction max_depth =
    if direction == "backward"
    then trace_backward s artifact_id max_depth
    else trace_forward s artifact_id max_depth
