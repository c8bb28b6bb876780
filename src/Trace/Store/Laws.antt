-- ===== src/Trace/Store/Laws.antt =====
-- What the store of trace/store.py knows, by the nodes and edges that were added, and what a store that
-- is started on its files knows.
use fusion_code_modelization.Common.{
  String, ◌≡◌, refl, sym, ap, ◌∙◌, subst, inl, inr, none, List, [], ◌∷◌, ◌++◌, filter, map,
  Option-cases, Bool-cases, if◌then◌else◌, ◌==◌, eq_iff,
}
use fusion_code_modelization.Common.Dict
use fusion_code_modelization.Common.Dict.{Dict, get-set}
use fusion_code_modelization.Trace.Store.{
  TraceNode, TraceEdge, TraceStore, neighbors, connect, know_node, know_edge, know_nodes,
  know_edges, get_forward_neighbors, get_backward_neighbors,
}

-- The dictionaries after these nodes and edges, a later one in the place of an earlier one
abbrev pub nodes_of : Dict TraceNode → List TraceNode → Dict TraceNode
nodes_of m [] = m
nodes_of m (n ∷ ns) = nodes_of (Dict.set m n.node_id n) ns

abbrev pub edges_of : Dict TraceEdge → List TraceEdge → Dict TraceEdge
edges_of m [] = m
edges_of m (e ∷ es) = edges_of (Dict.set m e.edge_id e) es

-- The targets of the edges from a node, and the sources of those to it, in order
abbrev pub targets_of : String → List TraceEdge → List String
targets_of id es = map (λ e. e.target_id) (filter (λ e. e.source_id == id) es)

abbrev pub sources_of : String → List TraceEdge → List String
sources_of id es = map (λ e. e.source_id) (filter (λ e. e.target_id == id) es)

pub append_assoc : {A : Type 0} (xs ys zs : List A) → (xs ++ ys) ++ zs ≡ xs ++ (ys ++ zs)
append_assoc [] ys zs = refl
append_assoc (x ∷ xs) ys zs = ap (λ l. x ∷ l) (append_assoc xs ys zs)

pub append_nil : {A : Type 0} (xs : List A) → xs ++ [] ≡ xs
append_nil [] = refl
append_nil (x ∷ xs) = ap (λ l. x ∷ l) (append_nil xs)

pub neighbors-connect :
    (m : Dict (List String)) (k id other : String)
    → neighbors (connect m k other) id ≡ neighbors m id ++ (if k == id then other ∷ [] else [])
unfolding connect
neighbors-connect m k id other = elim (Bool-cases (k == id)) [
  | inl y ↦
      let same : k ≡ id = (eq_iff k id).0 y in
      rw (get-set m k id (neighbors m k ++ other ∷ []), y)
        (ap (λ j. neighbors m j ++ other ∷ []) same)
  | inr n ↦ rw (get-set m k id (neighbors m k ++ other ∷ []), n) (sym (append_nil (neighbors m id)))
]

neighbors-set_new :
    (m : Dict (List String)) (k id : String)
    → Dict.get m k ≡ none
    → neighbors (Dict.set m k []) id ≡ neighbors m id
neighbors-set_new m k id gone = elim (Bool-cases (k == id)) [
  | inl y ↦
      let gone_too : Dict.get m id ≡ none =
        subst (λ j. Dict.get m j ≡ none) ((eq_iff k id).0 y) gone in
      rw (get-set m k id [], y, gone_too) refl
  | inr n ↦ rw (get-set m k id [], n) refl
]

pub neighbors-set_default :
    (m : Dict (List String)) (k id : String)
    → neighbors (Dict.set_default m k []) id ≡ neighbors m id
unfolding Dict.set_default
neighbors-set_default m k id = elim (Option-cases (Dict.get m k)) [
  | inr (v, there) ↦ rw there refl
  | inl gone ↦ rw gone (neighbors-set_new m k id gone)
]

-- What a store knows, beside its files.
pub record Knows (s : TraceStore) (nodes : Dict TraceNode) (edges : Dict TraceEdge)
    (forward backward : String → List String) : Type 0 where
  pub nodes_known : s.nodes ≡ nodes
  pub edges_known : s.edges ≡ edges
  pub forward_known : (id : String) → get_forward_neighbors s id ≡ forward id
  pub backward_known : (id : String) → get_backward_neighbors s id ≡ backward id

module _ (s : TraceStore) (nodes : Dict TraceNode) (edges : Dict TraceEdge)
    (forward backward : String → List String) (knows : Knows s nodes edges forward backward) where
  pub Knows-node :
      (n : TraceNode) → Knows (know_node s n) (Dict.set nodes n.node_id n) edges forward backward
  unfolding know_node get_forward_neighbors get_backward_neighbors
  Knows-node n = record {
    nodes_known = ap (λ m. Dict.set m n.node_id n) knows.nodes_known;
    edges_known = knows.edges_known;
    forward_known = λ id. neighbors-set_default s.adjacency n.node_id id ∙ knows.forward_known id;
    backward_known =
        λ id. neighbors-set_default s.reverse_adjacency n.node_id id ∙ knows.backward_known id;
  }

  pub Knows-edge :
      (e : TraceEdge)
      → Knows
          (know_edge s e)
          nodes
          (Dict.set edges e.edge_id e)
          (λ id. forward id ++ (if e.source_id == id then e.target_id ∷ [] else []))
          (λ id. backward id ++ (if e.target_id == id then e.source_id ∷ [] else []))
  unfolding know_edge get_forward_neighbors get_backward_neighbors
  Knows-edge e = record {
    nodes_known = knows.nodes_known;
    edges_known = ap (λ m. Dict.set m e.edge_id e) knows.edges_known;
    forward_known = λ id.
        neighbors-connect s.adjacency e.source_id id e.target_id
        ∙ ap (λ l. l ++ (if e.source_id == id then e.target_id ∷ [] else []))
            (knows.forward_known id);
    backward_known = λ id.
        neighbors-connect s.reverse_adjacency e.target_id id e.source_id
        ∙ ap (λ l. l ++ (if e.target_id == id then e.source_id ∷ [] else []))
            (knows.backward_known id);
  }

module _ (s : TraceStore) (nodes : Dict TraceNode) (edges : Dict TraceEdge)
    (forward backward forward' backward' : String → List String) where
  pub Knows-same :
      ((id : String) → forward id ≡ forward' id)
      → ((id : String) → backward id ≡ backward' id)
      → Knows s nodes edges forward backward
      → Knows s nodes edges forward' backward'
  Knows-same f b knows = record {
    nodes_known = knows.nodes_known;
    edges_known = knows.edges_known;
    forward_known = λ id. knows.forward_known id ∙ f id;
    backward_known = λ id. knows.backward_known id ∙ b id;
  }

pub targets-first :
    (known : List String) (id : String) (e : TraceEdge) (es : List TraceEdge)
    → (known ++ (if e.source_id == id then e.target_id ∷ [] else [])) ++ targets_of id es
      ≡ known ++ targets_of id (e ∷ es)
targets-first known id e es = elim (Bool-cases (e.source_id == id)) [
  | inl y ↦ rw y (append_assoc known (e.target_id ∷ []) (targets_of id es))
  | inr n ↦ rw n (append_assoc known [] (targets_of id es))
]

pub sources-first :
    (known : List String) (id : String) (e : TraceEdge) (es : List TraceEdge)
    → (known ++ (if e.target_id == id then e.source_id ∷ [] else [])) ++ sources_of id es
      ≡ known ++ sources_of id (e ∷ es)
sources-first known id e es = elim (Bool-cases (e.target_id == id)) [
  | inl y ↦ rw y (append_assoc known (e.source_id ∷ []) (sources_of id es))
  | inr n ↦ rw n (append_assoc known [] (sources_of id es))
]

pub Knows-nodes :
    (ns : List TraceNode) (s : TraceStore) (nodes : Dict TraceNode) (edges : Dict TraceEdge)
    (forward backward : String → List String)
    → Knows s nodes edges forward backward
    → Knows (know_nodes s ns) (nodes_of nodes ns) edges forward backward
Knows-nodes [] s nodes edges forward backward knows = knows
Knows-nodes (n ∷ ns) s nodes edges forward backward knows =
    Knows-nodes ns (know_node s n) (Dict.set nodes n.node_id n) edges forward backward
      (Knows-node s nodes edges forward backward knows n)

pub Knows-edges :
    (es : List TraceEdge) (s : TraceStore) (nodes : Dict TraceNode) (edges : Dict TraceEdge)
    (forward backward : String → List String)
    → Knows s nodes edges forward backward
    → Knows
        (know_edges s es)
        nodes
        (edges_of edges es)
        (λ id. forward id ++ targets_of id es)
        (λ id. backward id ++ sources_of id es)
Knows-edges [] s nodes edges forward backward knows =
    Knows-same s nodes edges forward backward _ _ (λ id. sym (append_nil (forward id)))
      (λ id. sym (append_nil (backward id))) knows
Knows-edges (e ∷ es) s nodes edges forward backward knows =
    Knows-same _ nodes _ _ _ _ _ (λ id. targets-first (forward id) id e es)
      (λ id. sources-first (backward id) id e es)
      (Knows-edges es (know_edge s e) nodes (Dict.set edges e.edge_id e) _ _
        (Knows-edge s nodes edges forward backward knows e))
