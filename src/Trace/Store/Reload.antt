-- ===== src/Trace/Store/Reload.antt =====
-- Starting trace/store.py again on its files.
use fusion_code_modelization.Common.{
  String, ◌≡◌, refl, sym, ap, ◌∙◌, subst, inl, inr, Bool, none, some, Option-cases, ◌⊎◌, List, [],
  ◌∷◌, ◌++◌, Bool-cases,
}
use fusion_code_modelization.Common.Dict
use fusion_code_modelization.Common.Dict.{Dict}
use fusion_code_modelization.Trace.Store.{
  TraceNode, TraceEdge, LogFile, TraceStore, maybe_rotate, append_line, know_node, know_edge,
  add_node, add_edge, know_nodes, know_edges, empty_store, load_store, get_forward_neighbors,
  get_backward_neighbors,
}
use fusion_code_modelization.Trace.Store.Laws.{
  nodes_of, edges_of, targets_of, sources_of, append_assoc, append_nil, Knows, Knows-node,
  Knows-edge, Knows-same, Knows-nodes, Knows-edges, targets-first, sources-first,
}

pub data TraceCall : Type 0 where
  node_call : TraceNode → TraceCall
  edge_call : TraceEdge → TraceCall

abbrev pub added_nodes : List TraceCall → List TraceNode
added_nodes [] = []
added_nodes (node_call n ∷ cs) = n ∷ added_nodes cs
added_nodes (edge_call e ∷ cs) = added_nodes cs

abbrev pub added_edges : List TraceCall → List TraceEdge
added_edges [] = []
added_edges (node_call n ∷ cs) = added_edges cs
added_edges (edge_call e ∷ cs) = e ∷ added_edges cs

abbrev pub targets_to : List TraceEdge → String → List String
targets_to es id = targets_of id es

abbrev pub sources_to : List TraceEdge → String → List String
sources_to es id = sources_of id es

-- The store knows what the calls have added.
abbrev pub KnowsAll : List TraceCall → TraceStore → Type 0
KnowsAll cs s =
    Knows s (nodes_of [] (added_nodes cs)) (edges_of [] (added_edges cs))
      (targets_to (added_edges cs)) (sources_to (added_edges cs))

-- There is a first older file.
abbrev pub IsRotated : {A : Type 0} → LogFile A → Type 0
IsRotated {A} f = (lines : List A) × (f.older 1 ≡ some lines)

-- Unless the file was rotated, it has all these lines.
abbrev Logged : {A : Type 0} → LogFile A → List A → Type 0
Logged f xs = f.older 1 ≡ none → f.lines ≡ xs

append-Logged :
    {A : Type 0} (full : List A → Bool) (f : LogFile A) (xs : List A) (x : A)
    → Logged f xs
    → Logged (append_line full f x) (xs ++ x ∷ [])
unfolding append_line maybe_rotate
append-Logged full f xs x logged = elim (Bool-cases (full f.lines)) [
  | inl y ↦ rw y (λ fresh. cc)
  | inr n ↦ rw n (λ fresh. ap (λ l. l ++ x ∷ []) (logged fresh))
]

Logged-same : {A : Type 0} (f : LogFile A) (xs ys : List A) → xs ≡ ys → Logged f xs → Logged f ys
Logged-same f xs ys e logged fresh = logged fresh ∙ e

module _ (full_nodes : List TraceNode → Bool) (full_edges : List TraceEdge → Bool) where
  unfoldable pub perform : TraceStore → TraceCall → TraceStore
  perform s (node_call n) = add_node full_nodes full_edges s n
  perform s (edge_call e) = add_edge full_nodes full_edges s e

  abbrev pub run_calls : TraceStore → List TraceCall → TraceStore
  run_calls s [] = s
  run_calls s (c ∷ cs) = run_calls (perform s c) cs

  run_calls-Knows :
      (cs : List TraceCall) (s : TraceStore) (nodes : Dict TraceNode) (edges : Dict TraceEdge)
      (forward backward : String → List String)
      → Knows s nodes edges forward backward
      → Knows
          (run_calls s cs)
          (nodes_of nodes (added_nodes cs))
          (edges_of edges (added_edges cs))
          (λ id. forward id ++ targets_of id (added_edges cs))
          (λ id. backward id ++ sources_of id (added_edges cs))
  unfolding perform add_node add_edge know_node know_edge append_line get_forward_neighbors
      get_backward_neighbors
  run_calls-Knows [] s nodes edges forward backward knows =
      Knows-same s nodes edges forward backward _ _ (λ id. sym (append_nil (forward id)))
        (λ id. sym (append_nil (backward id))) knows
  run_calls-Knows (node_call n ∷ cs) s nodes edges forward backward knows =
      let k = Knows-node s nodes edges forward backward knows n in
      run_calls-Knows cs (perform s (node_call n)) _ _ forward backward (record {
        nodes_known = k.nodes_known;
        edges_known = k.edges_known;
        forward_known = k.forward_known;
        backward_known = k.backward_known;
      })
  run_calls-Knows (edge_call e ∷ cs) s nodes edges forward backward knows =
      let k = Knows-edge s nodes edges forward backward knows e in
      Knows-same _ _ _ _ _ _ _ (λ id. targets-first (forward id) id e (added_edges cs))
        (λ id. sources-first (backward id) id e (added_edges cs))
        (run_calls-Knows cs (perform s (edge_call e)) _ _ _ _ (record {
          nodes_known = k.nodes_known;
          edges_known = k.edges_known;
          forward_known = k.forward_known;
          backward_known = k.backward_known;
        }))

  run_calls-Logged :
      (cs : List TraceCall) (s : TraceStore) (ns : List TraceNode) (es : List TraceEdge)
      → Logged s.node_log ns
      → Logged s.edge_log es
      → Logged (run_calls s cs).node_log (ns ++ added_nodes cs)
        × Logged (run_calls s cs).edge_log (es ++ added_edges cs)
  unfolding perform add_node add_edge know_node know_edge
  run_calls-Logged [] s ns es ln le = (
    Logged-same s.node_log ns _ (sym (append_nil ns)) ln,
    Logged-same s.edge_log es _ (sym (append_nil es)) le,
  )
  run_calls-Logged (node_call n ∷ cs) s ns es ln le =
      let (ln', le') =
        run_calls-Logged cs (perform s (node_call n)) (ns ++ n ∷ []) es
          (append-Logged full_nodes s.node_log ns n ln) le in
      (
        Logged-same (run_calls (perform s (node_call n)) cs).node_log _ _
            (append_assoc ns (n ∷ []) (added_nodes cs)) ln',
        le',
      )
  run_calls-Logged (edge_call e ∷ cs) s ns es ln le =
      let (ln', le') =
        run_calls-Logged cs (perform s (edge_call e)) ns (es ++ e ∷ []) ln
          (append-Logged full_edges s.edge_log es e le) in
      (
        ln',
        Logged-same (run_calls (perform s (edge_call e)) cs).edge_log _ _
            (append_assoc es (e ∷ []) (added_edges cs)) le',
      )

  abbrev pub new_log : {A : Type 0} → LogFile A
  new_log = record { lines = []; older = λ i. none }

  abbrev pub start : TraceStore
  start = empty_store new_log new_log

  start-Knows :
      (a : LogFile TraceNode) (b : LogFile TraceEdge)
      → Knows (empty_store a b) [] [] (λ id. []) (λ id. [])
  unfolding get_forward_neighbors get_backward_neighbors Dict.get
  start-Knows a b = record {
    nodes_known = refl;
    edges_known = refl;
    forward_known = λ id. refl;
    backward_known = λ id. refl;
  }

  loaded :
      (a : LogFile TraceNode) (b : LogFile TraceEdge) (ns : List TraceNode) (es : List TraceEdge)
      → a.lines ≡ ns
      → b.lines ≡ es
      → Knows (load_store a b) (nodes_of [] ns) (edges_of [] es) (targets_to es) (sources_to es)
  unfolding load_store
  loaded a b ns es en ee =
      subst
        (λ l.
          Knows (know_edges (know_nodes (empty_store a b) l) b.lines) (nodes_of [] ns)
            (edges_of [] es) (targets_to es) (sources_to es))
        (sym en)
        (subst
          (λ l.
            Knows (know_edges (know_nodes (empty_store a b) ns) l) (nodes_of [] ns) (edges_of [] es)
              (targets_to es) (sources_to es))
          (sym ee) (Knows-edges es _ _ _ _ _ (Knows-nodes ns _ _ _ _ _ (start-Knows a b))))

  -- After any calls from empty files, a store knows exactly what was added: each node and each edge by
  -- its id, and the neighbours of a node in the order in which the edges were added. And either one of
  -- the two files was rotated, or a store that is started on the files knows the same.
  pub load_store-Knows :
      (cs : List TraceCall)
      → KnowsAll cs (run_calls start cs)
        × (IsRotated (run_calls start cs).node_log
            ⊎ IsRotated (run_calls start cs).edge_log
            ⊎ KnowsAll cs (load_store (run_calls start cs).node_log (run_calls start cs).edge_log))
  load_store-Knows cs =
      let s = run_calls start cs in
      let (ln, le) = run_calls-Logged cs start [] [] (λ _. refl) (λ _. refl) in
      (
        run_calls-Knows cs start [] [] _ _ (start-Knows new_log new_log),
        elim (Option-cases (s.node_log.older 1)) [
          | inr turned ↦ inl turned
          | inl fresh_nodes ↦ elim (Option-cases (s.edge_log.older 1)) [
            | inr turned ↦ inr (inl turned)
            | inl fresh_edges ↦ inr (
                inr (
                  loaded s.node_log s.edge_log (added_nodes cs) (added_edges cs) (ln fresh_nodes)
                    (le fresh_edges)))
          ]
        ],
      )
