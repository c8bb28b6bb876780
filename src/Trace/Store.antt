-- ===== src/Trace/Store.antt =====
-- fusion_code_modelization/trace/store.py with models.py: the graph in memory, and the two files that
-- each new node and edge is appended to. `full` says of the lines of a file that they take the most
-- bytes that are allowed. An error of the disk, which leaves a line out, is not modelled.
pub mod Laws
pub mod Reload
use fusion_code_modelization.Common.{
  ℕ, zero, suc, String, Bool, true, false, Option, none, some, List, [], ◌∷◌, ◌++◌, filter, map,
  leb, not, ◌==◌, ◌&&◌, ◌||◌, is_some, contains, if◌then◌else◌,
}
use fusion_code_modelization.Common.Dict
use fusion_code_modelization.Common.Dict.{Dict}

pub data ArtifactType : Type 0 where
  requirement code_change test_result deployment review migration security_scan benchmark :
      ArtifactType

pub data RelationshipType : Type 0 where
  derived_from implements tests depends_on generates migrates_to reviews supersedes :
      RelationshipType

pub record TraceNode : Type 0 where
  pub node_id : String
  pub artifact_type : ArtifactType
  pub artifact_id : String
  pub name : String
  pub metadata : Dict String
  pub timestamp : String

pub record TraceEdge : Type 0 where
  pub edge_id : String
  pub source_id : String
  pub target_id : String
  pub relationship : RelationshipType
  pub metadata : Dict String
  pub timestamp : String

-- A file and the older ones `.1` to `.10`.
pub record LogFile (A : Type 0) : Type 0 where
  pub lines : List A
  pub older : ℕ → Option (List A)

pub record TraceStore : Type 0 where
  pub nodes : Dict TraceNode
  pub edges : Dict TraceEdge
  pub adjacency : Dict (List String)
  pub reverse_adjacency : Dict (List String)
  pub node_log : LogFile TraceNode
  pub edge_log : LogFile TraceEdge

abbrev pub is_same : ℕ → ℕ → Bool
is_same i j = leb i j && leb j i

module _ {A : Type 0} where
  abbrev pub put_file : (ℕ → Option (List A)) → ℕ → Option (List A) → ℕ → Option (List A)
  put_file older i v j = if is_same i j then v else older j

  abbrev move_up : (ℕ → Option (List A)) → ℕ → Option (List A) → ℕ → Option (List A)
  move_up older i none = older
  move_up older i (some l) = put_file (put_file older (suc i) (some l)) i none

  -- The files from `i` down to `.2`: the tenth is deleted where it is there, and otherwise the file
  -- takes the place of the next.
  unfoldable pub shift : ℕ → (ℕ → Option (List A)) → ℕ → Option (List A)
  shift zero older = older
  shift (suc zero) older = older
  shift (suc (suc i)) older = shift (suc i) (
      if is_same (suc (suc i)) 10 && is_some (older 10)
      then put_file older 10 none
      else move_up older (suc i) (older (suc i)))

  -- `_maybe_rotate`
  unfoldable pub maybe_rotate : (List A → Bool) → LogFile A → LogFile A
  maybe_rotate full f =
      if full f.lines
      then record { lines = []; older = put_file (shift 10 f.older) 1 (some f.lines) }
      else f

  -- `_append_node`, `_append_edge`
  unfoldable pub append_line : (List A → Bool) → LogFile A → A → LogFile A
  append_line full f x = let f' = maybe_rotate full f in record f' { lines = f'.lines ++ x ∷ [] }

-- `get(id, [])`
abbrev or_empty : Option (List String) → List String
or_empty none = []
or_empty (some ids) = ids

abbrev pub neighbors : Dict (List String) → String → List String
neighbors m id = or_empty (Dict.get m id)

-- `setdefault(id, []).append(other)`
unfoldable pub connect : Dict (List String) → String → String → Dict (List String)
connect m id other = Dict.set m id (neighbors m id ++ other ∷ [])

-- What a node and an edge change in memory.
unfoldable pub know_node : TraceStore → TraceNode → TraceStore
know_node s n = record s {
  nodes = Dict.set s.nodes n.node_id n;
  adjacency = Dict.set_default s.adjacency n.node_id [];
  reverse_adjacency = Dict.set_default s.reverse_adjacency n.node_id [];
}

unfoldable pub know_edge : TraceStore → TraceEdge → TraceStore
know_edge s e = record s {
  edges = Dict.set s.edges e.edge_id e;
  adjacency = connect s.adjacency e.source_id e.target_id;
  reverse_adjacency = connect s.reverse_adjacency e.target_id e.source_id;
}

module _ (full_nodes : List TraceNode → Bool) (full_edges : List TraceEdge → Bool) where
  unfoldable pub add_node : TraceStore → TraceNode → TraceStore
  add_node s n = record (know_node s n) { node_log = append_line full_nodes s.node_log n }

  unfoldable pub add_edge : TraceStore → TraceEdge → TraceStore
  add_edge s e = record (know_edge s e) { edge_log = append_line full_edges s.edge_log e }

abbrev pub know_nodes : TraceStore → List TraceNode → TraceStore
know_nodes s [] = s
know_nodes s (n ∷ ns) = know_nodes (know_node s n) ns

abbrev pub know_edges : TraceStore → List TraceEdge → TraceStore
know_edges s [] = s
know_edges s (e ∷ es) = know_edges (know_edge s e) es

abbrev pub empty_store : LogFile TraceNode → LogFile TraceEdge → TraceStore
empty_store node_log edge_log = record {
  nodes = [];
  edges = [];
  adjacency = [];
  reverse_adjacency = [];
  node_log = node_log;
  edge_log = edge_log;
}

-- `__init__` with `_load`: the nodes are read first, and the older files are not looked at.
unfoldable pub load_store : LogFile TraceNode → LogFile TraceEdge → TraceStore
load_store node_log edge_log =
    know_edges (know_nodes (empty_store node_log edge_log) node_log.lines) edge_log.lines

unfoldable pub get_forward_neighbors : TraceStore → String → List String
get_forward_neighbors s id = neighbors s.adjacency id

unfoldable pub get_backward_neighbors : TraceStore → String → List String
get_backward_neighbors s id = neighbors s.reverse_adjacency id

abbrev ends : List TraceEdge → List String
ends [] = []
ends (e ∷ es) = e.source_id ∷ e.target_id ∷ ends es

unfoldable pub get_orphan_node_ids : TraceStore → List String
get_orphan_node_ids s =
    filter (λ id. not (contains (ends (Dict.values s.edges)) id)) (Dict.keys s.nodes)

unfoldable pub find_nodes_by_artifact_id : TraceStore → String → List TraceNode
find_nodes_by_artifact_id s artifact_id =
    filter (λ n. n.artifact_id == artifact_id) (Dict.values s.nodes)
