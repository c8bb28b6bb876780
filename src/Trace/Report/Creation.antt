-- ===== src/Trace/Report/Creation.antt =====
-- `create_node` and `link_nodes` of trace/tracker.py: the types they accept.
use fusion_code_modelization.Common.{
  String, Bool, true, Option, none, some, ◌≡◌, ◌≢◌, ◌⊎◌, refl, inl, inr, List, [], ◌∷◌, ◌==◌,
  eq_iff, arith, ap, find?, Option-cases, Bool-cases,
}
use fusion_code_modelization.Common.Dict
use fusion_code_modelization.Common.Dict.{Dict, get-set}
use fusion_code_modelization.Trace.Store.{
  ArtifactType, requirement, code_change, test_result, deployment, review, migration, security_scan,
  benchmark, RelationshipType, derived_from, implements, tests, depends_on, generates, migrates_to,
  reviews, supersedes, TraceNode, TraceEdge, TraceStore, add_node, add_edge, know_node, know_edge,
}
use fusion_code_modelization.Trace.Tracker.{type_value, relationship_value}
use fusion_code_modelization.Trace.Report.{
  parse_type, parse_relationship, artifact_types, relationship_types, create_node, link_nodes,
  create_typed, link_related,
}

found-holds : {A : Type 0} (p : A → Bool) (xs : List A) (x : A) → find? p xs ≡ some x → p x ≡ true
found-holds p [] x h = cc
found-holds p (y ∷ xs) x h = elim (Bool-cases (p y)) [
  | inl yes_y ↦ ground (arith, yes_y)
  | inr no_y ↦ found-holds p xs x (rw no_y at h)
]

type_value-parse : (t : ArtifactType) → parse_type (type_value t) ≡ some t
type_value-parse requirement = refl
type_value-parse code_change = refl
type_value-parse test_result = refl
type_value-parse deployment = refl
type_value-parse review = refl
type_value-parse migration = refl
type_value-parse security_scan = refl
type_value-parse benchmark = refl

relationship_value-parse :
    (r : RelationshipType) → parse_relationship (relationship_value r) ≡ some r
relationship_value-parse derived_from = refl
relationship_value-parse implements = refl
relationship_value-parse tests = refl
relationship_value-parse depends_on = refl
relationship_value-parse generates = refl
relationship_value-parse migrates_to = refl
relationship_value-parse reviews = refl
relationship_value-parse supersedes = refl

-- The node was stored under the new id, with the type of this value.
abbrev pub IsCreated : TraceStore → String → String → Option (TraceStore × TraceNode) → Type 0
IsCreated s new_id value o =
    (s' : TraceStore) × (n : TraceNode) × (o ≡ some (s', n))
    × (type_value n.artifact_type ≡ value)
    × (n.node_id ≡ new_id)
    × (s'.nodes ≡ Dict.set s.nodes new_id n)
    × (s'.edges ≡ s.edges)

-- The edge was stored under the new id, with the relationship of this value.
abbrev pub IsLinked :
    TraceStore → String → String → String → String → Option (TraceStore × TraceEdge) → Type 0
IsLinked s new_id source_id target_id value o =
    (s' : TraceStore) × (e : TraceEdge) × (o ≡ some (s', e))
    × (relationship_value e.relationship ≡ value)
    × (e.source_id ≡ source_id)
    × (e.target_id ≡ target_id)
    × (s'.edges ≡ Dict.set s.edges new_id e)
    × (s'.nodes ≡ s.nodes)

module _ (full_nodes : List TraceNode → Bool) (full_edges : List TraceEdge → Bool) (s : TraceStore)
    (new_id now : String) where
  -- Either the text is the value of a type, and the node is stored under the new id with that type and
  -- no edge is changed, or it is the value of none and `create_node` fails.
  pub create_node_cases :
      (value artifact_id name : String) (metadata : Dict String)
      → IsCreated s new_id value
          (create_node full_nodes full_edges s new_id now value artifact_id name metadata)
        ⊎ (create_node full_nodes full_edges s new_id now value artifact_id name metadata ≡ none)
          × ((t : ArtifactType) → type_value t ≢ value)
  unfolding create_node add_node know_node
  create_node_cases value artifact_id name metadata = elim (Option-cases (parse_type value)) [
    | inl gone ↦ inr (
      ap (create_typed full_nodes full_edges s new_id now artifact_id name metadata) gone,
      λ t e. let k = type_value-parse t in cc,
    )
    | inr (t, found) ↦ inl (
      _,
      _,
      ap (create_typed full_nodes full_edges s new_id now artifact_id name metadata) found,
      (eq_iff (type_value t) value).0
          (found-holds (λ t. type_value t == value) artifact_types t found),
      refl,
      refl,
      refl,
    )
  ]

  -- Either the text is the value of a relationship, and the edge between these ids is stored under the
  -- new id with it and no node is changed, whether or not the ids are known, or it is the value of none
  -- and `link_nodes` fails.
  pub link_nodes_cases :
      (source_id target_id value : String) (metadata : Dict String)
      → IsLinked s new_id source_id target_id value
          (link_nodes full_nodes full_edges s new_id now source_id target_id value metadata)
        ⊎ (link_nodes full_nodes full_edges s new_id now source_id target_id value metadata ≡ none)
          × ((r : RelationshipType) → relationship_value r ≢ value)
  unfolding link_nodes add_edge know_edge
  link_nodes_cases source_id target_id value metadata =
      elim (Option-cases (parse_relationship value)) [
        | inl gone ↦ inr (
          ap (link_related full_nodes full_edges s new_id now source_id target_id metadata) gone,
          λ r e. let k = relationship_value-parse r in cc,
        )
        | inr (r, found) ↦ inl (
          _,
          _,
          ap (link_related full_nodes full_edges s new_id now source_id target_id metadata) found,
          (eq_iff (relationship_value r) value).0
              (found-holds (λ r. relationship_value r == value) relationship_types r found),
          refl,
          refl,
          refl,
          refl,
        )
      ]
