-- ===== src/Trace/Report.antt =====
-- fusion_code_modelization/trace/tracker.py: `create_node`, `link_nodes` and `generate_report`. A new
-- id and the time are arguments. A value that is no member of an enumeration raises ValueError: none.
-- The score is kept as the quotient it is computed from.
pub mod Laws
pub mod Creation
use fusion_code_modelization.Common.{
  ℕ, zero, suc, ◌+◌, String, Bool, Option, none, some, List, [], ◌∷◌, ◌++◌, filter, length, ltb,
  ◌==◌, ◌||◌, find?, foldl, if◌then◌else◌,
}
use fusion_code_modelization.Common.Dict
use fusion_code_modelization.Common.Dict.{Dict}
use fusion_code_modelization.Sandbox.Paths.{is_in}
use fusion_code_modelization.Trace.Store.{
  ArtifactType, requirement, code_change, test_result, deployment, review, migration, security_scan,
  benchmark, RelationshipType, derived_from, implements, tests, depends_on, generates, migrates_to,
  reviews, supersedes, TraceNode, TraceEdge, TraceStore, add_node, add_edge, get_orphan_node_ids,
}
use fusion_code_modelization.Trace.Tracker.{type_value, relationship_value}

abbrev pub artifact_types : List ArtifactType
artifact_types =
    requirement ∷ code_change ∷ test_result ∷ deployment ∷ review ∷ migration ∷ security_scan
    ∷ benchmark ∷ []

abbrev pub relationship_types : List RelationshipType
relationship_types =
    derived_from ∷ implements ∷ tests ∷ depends_on ∷ generates ∷ migrates_to ∷ reviews ∷ supersedes
    ∷ []

-- `ArtifactType(value)` and `RelationshipType(value)`
abbrev pub parse_type : String → Option ArtifactType
parse_type value = find? (λ t. type_value t == value) artifact_types

abbrev pub parse_relationship : String → Option RelationshipType
parse_relationship value = find? (λ r. relationship_value r == value) relationship_types

module _ (full_nodes : List TraceNode → Bool) (full_edges : List TraceEdge → Bool) (s : TraceStore)
    (new_id now : String) where
  abbrev pub create_typed :
      String → String → Dict String → Option ArtifactType → Option (TraceStore × TraceNode)
  create_typed artifact_id name metadata none = none
  create_typed artifact_id name metadata (some t) =
      let node : TraceNode = record {
        node_id = new_id;
        artifact_type = t;
        artifact_id = artifact_id;
        name = name;
        metadata = metadata;
        timestamp = now;
      } in
      some (add_node full_nodes full_edges s node, node)

  unfoldable pub create_node :
      String → String → String → Dict String → Option (TraceStore × TraceNode)
  create_node artifact_type artifact_id name metadata =
      create_typed artifact_id name metadata (parse_type artifact_type)

  abbrev pub link_related :
      String → String → Dict String → Option RelationshipType → Option (TraceStore × TraceEdge)
  link_related source_id target_id metadata none = none
  link_related source_id target_id metadata (some r) =
      let edge : TraceEdge = record {
        edge_id = new_id;
        source_id = source_id;
        target_id = target_id;
        relationship = r;
        metadata = metadata;
        timestamp = now;
      } in
      some (add_edge full_nodes full_edges s edge, edge)

  unfoldable pub link_nodes :
      String → String → String → Dict String → Option (TraceStore × TraceEdge)
  link_nodes source_id target_id relationship metadata =
      link_related source_id target_id metadata (parse_relationship relationship)

-- `0.0`, or `(total - orphans) / total`
pub data Coverage : Type 0 where
  no_nodes : Coverage
  quotient : (total orphans : ℕ) → Coverage

pub record Filters : Type 0 where
  pub artifact_type : Option String
  pub relationship : Option String

pub record TraceReport : Type 0 where
  pub total_nodes : ℕ
  pub total_edges : ℕ
  pub artifact_type_counts : Dict ℕ
  pub relationship_counts : Dict ℕ
  pub orphan_nodes : ℕ
  pub coverage_score : Coverage

-- `get(key, 0)`
abbrev pub or_zero : Option ℕ → ℕ
or_zero none = 0
or_zero (some n) = n

module _ {A : Type 0} (key_of : A → String) where
  abbrev pub keep_value : Option String → List A → List A
  keep_value none xs = xs
  keep_value (some value) xs = filter (λ x. key_of x == value) xs

  -- `counts[key] = counts.get(key, 0) + 1` for each element
  unfoldable pub tally : Dict ℕ → List A → Dict ℕ
  tally counts [] = counts
  tally counts (x ∷ xs) =
      tally (Dict.set counts (key_of x) (or_zero (Dict.get counts (key_of x)) + 1)) xs

abbrev pub type_of : TraceNode → String
type_of n = type_value n.artifact_type

abbrev pub relationship_of : TraceEdge → String
relationship_of e = relationship_value e.relationship

-- `find_nodes_by_type` and `search_nodes` of trace/store.py, with `lower` of `str`
unfoldable pub find_nodes_by_type : TraceStore → String → List TraceNode
find_nodes_by_type s artifact_type = filter (λ n. type_of n == artifact_type) (Dict.values s.nodes)

unfoldable pub search_nodes : (String → String) → TraceStore → String → List TraceNode
search_nodes lower s query =
    let q = lower query in
    filter (λ n. is_in q (lower n.name) || is_in q (lower n.artifact_id) || is_in q (type_of n))
      (Dict.values s.nodes)

unfoldable pub generate_report : TraceStore → Filters → TraceReport
generate_report s filters =
    let nodes = keep_value type_of filters.artifact_type (Dict.values s.nodes) in
    let edges = keep_value relationship_of filters.relationship (Dict.values s.edges) in
    let orphans = length (get_orphan_node_ids s) in
    record {
      total_nodes = length nodes;
      total_edges = length edges;
      artifact_type_counts = tally type_of [] nodes;
      relationship_counts = tally relationship_of [] edges;
      orphan_nodes = orphans;
      coverage_score = if ltb 0 (length nodes) then quotient (length nodes) orphans else no_nodes;
    }
