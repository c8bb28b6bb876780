-- ===== src/Cluster/Scheduler/Choice.antt =====
-- Which node `auto_schedule` of cluster/scheduler.py takes without a balancer.
use fusion_code_modelization.Common.{
  Bool, true, false, ◌≡◌, ◌⊎◌, refl, ◌∙◌, ap, inl, inr, none, some, List, [], ◌∷◌, filter, ◌==◌,
  Bool-cases, List-cases, All, same_text, ◌&&◌, if◌then◌else◌, sym, subst,
}
use fusion_code_modelization.Common.Dict
use fusion_code_modelization.Common.Dict.{Dict}
use fusion_code_modelization.LoadBalancer.Metrics.{FloatOps, FloatOrder}
use fusion_code_modelization.LoadBalancer.Strategy.{or_all}
use fusion_code_modelization.LoadBalancer.Strategy.Laws.{Among, Among-filter, pick_lem, or_all-cons}
use fusion_code_modelization.Cluster.Models.{
  NodeData, TaskData, NodeStatus, online, offline, busy, error, running, NodeInfo, node_load,
  is_online,
}
use fusion_code_modelization.Cluster.Scheduler.{
  ClusterScheduler, waiting, NewTask, task_of, put_task, dispatch_on, dispatch_task,
}
use fusion_code_modelization.Cluster.Scheduler.Auto.{
  dispatch_best, lighter, roomy, candidates, schedule_with, auto_schedule,
}

module _ (F : FloatOps) where
  -- Each node stands under its own id.
  abbrev pub IsKeyedNodes : Dict (NodeInfo F) → Type 0
  IsKeyedNodes m = All (λ p. p.1.node_id ≡ p.0) m

  stored :
      (nodes : Dict (NodeInfo F)) (m : NodeInfo F)
      → IsKeyedNodes nodes
      → Among m (Dict.values nodes)
      → (n : NodeInfo F) × (Dict.get nodes m.node_id ≡ some n)
  unfolding Dict.get
  stored [] m k h = absurd h
  stored ((id, n) ∷ nodes) m k (inl e) = (n, rw (e, k.0, same_text id) refl)
  stored ((id, n) ∷ nodes) m k (inr i) = elim (Bool-cases (id == m.node_id)) [
    | inl y ↦ (n, rw y refl)
    | inr d ↦ let (n', there) = stored nodes m k.1 i in (n', rw d there)
  ]

  abbrev answers : NodeStatus → Bool
  answers online = true
  answers offline = false
  answers busy = false
  answers error = false

  -- Online, and with less than 80 of the GPU memory in use where that is asked for.
  abbrev pub is_ready : Bool → NodeInfo F → Bool
  is_ready true n = answers n.status && F.lt n.gpu_memory_percent (F.tenths 800)
  is_ready false n = answers n.status

  -- The mean of the three uses.
  abbrev pub load_of : NodeInfo F → F.Carrier
  load_of n = F.divide (F.add (F.add n.cpu_percent n.memory_percent) n.gpu_memory_percent) 3

  -- One of the nodes, with no lighter one among them.
  abbrev pub IsLightest : NodeInfo F → List (NodeInfo F) → Type 0
  IsLightest m ns = Among m ns × All (λ n. F.lt (load_of n) (load_of m) ≡ false) ns

  roomy-ready :
      (require_gpu : Bool) (ns : List (NodeInfo F))
      → roomy F require_gpu (filter is_online ns) ≡ filter (is_ready require_gpu) ns
  roomy-ready true [] = refl
  roomy-ready false [] = refl
  roomy-ready false (n ∷ ns) =
      ap (λ l. if answers n.status then n ∷ l else l) (roomy-ready false ns)
  roomy-ready true (n ∷ ns) = elim (Bool-cases (answers n.status)) [
    | inl y ↦ rw y (
        ap (λ l. if F.lt n.gpu_memory_percent (F.tenths 800) then n ∷ l else l)
          (roomy-ready true ns))
    | inr d ↦ rw d (roomy-ready true ns)
  ]

  or_all-IsLightest :
      (require_gpu : Bool) (m : NodeInfo F) (ns : List (NodeInfo F))
      → IsLightest m (or_all (filter (is_ready require_gpu) ns) ns)
      → IsLightest m (filter (is_ready require_gpu) ns)
        ⊎ ((filter (is_ready require_gpu) ns ≡ []) × IsLightest m ns)
  or_all-IsLightest require_gpu m ns h = elim (List-cases (filter (is_ready require_gpu) ns)) [
    | inl nothing ↦ inr (nothing, subst (λ l. IsLightest m (or_all l ns)) nothing h)
    | inr (x, rest, e) ↦
        inl (subst (IsLightest m) (sym e) (subst (λ l. IsLightest m (or_all l ns)) e h))
  ]

module _ (F : FloatOps) (same_nodes : Dict (NodeData F) → Dict (NodeData F) → Bool)
    (same_tasks : Dict TaskData → Dict TaskData → Bool) where
  -- Without a balancer, with a node at least, and with nodes that stand under their ids, `auto_schedule`
  -- stores a running task for the id of a node m and waits for the node that is stored under it. There,
  -- m is among the nodes that are online, with less than 80 of their GPU memory in use where that is
  -- asked for, and none of those has a lower mean of the three uses; or there are none of those, and no
  -- node at all has a lower mean than m.
  pub auto_schedule_lem :
      (order : FloatOrder F) (c : ClusterScheduler F) (new : NewTask) (require_gpu : Bool)
      (x : NodeInfo F) (rest : List (NodeInfo F))
      → c.loadbalancer ≡ none
      → Dict.values c.nodes ≡ x ∷ rest
      → IsKeyedNodes F c.nodes
      → (m n : NodeInfo F) × (IsLightest F m (filter (is_ready F require_gpu) (Dict.values c.nodes))
          ⊎ ((filter (is_ready F require_gpu) (Dict.values c.nodes) ≡ [])
              × IsLightest F m (Dict.values c.nodes)))
        × (Dict.get c.nodes m.node_id ≡ some n)
        × (auto_schedule F same_nodes same_tasks c new require_gpu ≡ (
          put_task F same_nodes same_tasks c (task_of new m.node_id running []),
          waiting (task_of new m.node_id running []) n,
        ))
  unfolding auto_schedule dispatch_task node_load
  auto_schedule_lem order c new require_gpu x rest alone some_nodes keyed =
      let all_nodes = Dict.values c.nodes in
      let ready = filter (is_ready F require_gpu) all_nodes in
      let same : candidates F c require_gpu ≡ or_all ready all_nodes =
        ap (λ l. or_all l all_nodes) (roomy-ready F require_gpu all_nodes) in
      let (z, more, e) = or_all-cons ready all_nodes x rest some_nodes in
      let (m, found, among, best) =
        pick_lem (lighter F) (λ a. order.irreflexive (node_load F a))
          (λ a b d. order.transitive (node_load F a) (node_load F b) (node_load F d))
          (candidates F c require_gpu) z more (same ∙ e) in
      let lightest =
        or_all-IsLightest F require_gpu m all_nodes (subst (IsLightest F m) same (among, best)) in
      let (n, there) = stored F c.nodes m keyed (among_nodes m lightest) in
      (
        m,
        n,
        lightest,
        there,
        ap (schedule_with F same_nodes same_tasks c new require_gpu) alone
            ∙ ap (dispatch_best F same_nodes same_tasks c new) found
            ∙ ap (dispatch_on F same_nodes same_tasks c new m.node_id) there,
      )
    where
      among_nodes :
          (m : NodeInfo F)
          → IsLightest F m (filter (is_ready F require_gpu) (Dict.values c.nodes))
            ⊎ ((filter (is_ready F require_gpu) (Dict.values c.nodes) ≡ [])
                × IsLightest F m (Dict.values c.nodes))
          → Among m (Dict.values c.nodes)
      among_nodes m (inl i) = (Among-filter (is_ready F require_gpu) m (Dict.values c.nodes) i.0).0
      among_nodes m (inr i) = i.1.0
