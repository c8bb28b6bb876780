-- ===== src/Cluster/Scheduler/Saved.antt =====
-- What the files of cluster/scheduler.py hold, and a scheduler that is started on them again.
use fusion_code_modelization.Common.{
  String, Bool, true, false, ◌≡◌, refl, ◌∙◌, ap, inl, inr, Option, none, some, [], ◌∷◌, ◌==◌,
  Bool-cases, ◌&&◌, sym, if◌then◌else◌,
}
use fusion_code_modelization.Common.Dict
use fusion_code_modelization.Common.Dict.{Dict}
use fusion_code_modelization.LoadBalancer.Metrics.{FloatOps, SchedulingDecision}
use fusion_code_modelization.LoadBalancer.Strategy.{pick}
use fusion_code_modelization.LoadBalancer.Balancer.{LoadBalancer, select_node}
use fusion_code_modelization.Cluster.Models.{
  NodeData, TaskData, NodeStatus, online, offline, node_to_dict, task_to_dict, running, migrated,
  NodeInfo, TaskDispatch,
}
use fusion_code_modelization.Cluster.Scheduler.{
  ClusterScheduler, NewTask, or_empty, is_last, save_tasks, save_state, remove_node, heard_at,
  convert, dispatch_on, dispatch_task, migrate_session, put_task, task_of, moved,
}
use fusion_code_modelization.Cluster.Scheduler.Auto.{
  dispatch_best, fallback_dispatch, sync_metrics, dispatch_decided, smart_dispatch, schedule_with,
  candidates, lighter,
}

-- Two dictionaries with the same JSON text are the same.
pub record SameLaws {A B : Type 0} (same_nodes : A → A → Bool) (same_tasks : B → B → Bool)
    : Type 0 where
  pub nodes_law : (a b : A) → same_nodes a b ≡ true → a ≡ b
  pub tasks_law : (a b : B) → same_tasks a b ≡ true → a ≡ b

-- What was saved last is what the file holds.
abbrev pub Agrees : {A : Type 0} → Option A → Option A → Type 0
Agrees none file = Unit
Agrees (some m) file = file ≡ some m

-- A node but for its status.
abbrev pub unheard : {F : FloatOps} → NodeInfo F → NodeInfo F
unheard n = record n { status = offline }

-- The files hold what the scheduler knows, but for the statuses of the nodes.
pub record IsSaved (F : FloatOps) (c : ClusterScheduler F) : Type 0 where
  pub nodes_last : Agrees c.last_nodes c.nodes_file
  pub tasks_last : Agrees c.last_tasks c.tasks_file
  pub nodes_kept :
      (ns : Dict (NodeInfo F)) × (or_empty c.nodes_file ≡ convert node_to_dict ns)
      × (convert unheard ns ≡ convert unheard c.nodes)
  pub tasks_kept : or_empty c.tasks_file ≡ convert task_to_dict c.tasks

last-same :
    {A : Type 0} (same : A → A → Bool) (law : (a b : A) → same a b ≡ true → a ≡ b)
    (last file : Option A) (x : A)
    → Agrees last file
    → is_last same last x ≡ true
    → file ≡ some x
last-same same law none file x h k = cc
last-same same law (some m) file x h k = h ∙ ap some (law m x k)

module _ (F : FloatOps) (same_nodes : Dict (NodeData F) → Dict (NodeData F) → Bool)
    (same_tasks : Dict TaskData → Dict TaskData → Bool)
    (laws : SameLaws same_nodes same_tasks) where
  tasks-IsSaved :
      (c : ClusterScheduler F)
      → Agrees c.last_nodes c.nodes_file
      → c.nodes_file ≡ some (convert node_to_dict c.nodes)
      → Agrees c.last_tasks c.tasks_file
      → IsSaved F (save_tasks F same_nodes same_tasks c)
  tasks-IsSaved c h e k =
      elim (Bool-cases (is_last same_tasks c.last_tasks (convert task_to_dict c.tasks))) [
        | inl y ↦
            let file =
              last-same same_tasks laws.tasks_law c.last_tasks c.tasks_file
                (convert task_to_dict c.tasks) k y in
            rw y (record {
              nodes_last = h;
              tasks_last = k;
              nodes_kept = (c.nodes, ap or_empty e, refl);
              tasks_kept = ap or_empty file;
            })
        | inr n ↦ rw n (record {
          nodes_last = h;
          tasks_last = refl;
          nodes_kept = (c.nodes, ap or_empty e, refl);
          tasks_kept = refl;
        })
      ]

  pub save_state-IsSaved :
      (c : ClusterScheduler F)
      → Agrees c.last_nodes c.nodes_file
      → Agrees c.last_tasks c.tasks_file
      → IsSaved F (save_state F same_nodes same_tasks c)
  unfolding save_state
  save_state-IsSaved c h k =
      elim (Bool-cases (is_last same_nodes c.last_nodes (convert node_to_dict c.nodes))) [
        | inl y ↦ rw y (
            tasks-IsSaved c h
              (last-same same_nodes laws.nodes_law c.last_nodes c.nodes_file
                (convert node_to_dict c.nodes) h y)
              k)
        | inr n ↦ rw n (
            tasks-IsSaved
              (record c {
                nodes_file = some (convert node_to_dict c.nodes);
                last_nodes = some (convert node_to_dict c.nodes);
              })
              refl refl k)
      ]

  tasks_files :
      (c : ClusterScheduler F)
      → c.nodes_file ≡ some (convert node_to_dict c.nodes)
      → Agrees c.last_tasks c.tasks_file
      → ((save_tasks F same_nodes same_tasks c).nodes_file ≡ some (convert node_to_dict c.nodes))
        × ((save_tasks F same_nodes same_tasks c).tasks_file ≡ some (convert task_to_dict c.tasks))
  tasks_files c e k =
      elim (Bool-cases (is_last same_tasks c.last_tasks (convert task_to_dict c.tasks))) [
        | inl y ↦
            let file =
              last-same same_tasks laws.tasks_law c.last_tasks c.tasks_file
                (convert task_to_dict c.tasks) k y in
            rw y (e, file)
        | inr n ↦ rw n (e, refl)
      ]

  -- A save leaves in the files just what the scheduler knows.
  pub save_state_files :
      (c : ClusterScheduler F)
      → Agrees c.last_nodes c.nodes_file
      → Agrees c.last_tasks c.tasks_file
      → ((save_state F same_nodes same_tasks c).nodes_file ≡ some (convert node_to_dict c.nodes))
        × ((save_state F same_nodes same_tasks c).tasks_file ≡ some (convert task_to_dict c.tasks))
  unfolding save_state
  save_state_files c h k =
      elim (Bool-cases (is_last same_nodes c.last_nodes (convert node_to_dict c.nodes))) [
        | inl y ↦ rw y (
            tasks_files c
              (last-same same_nodes laws.nodes_law c.last_nodes c.nodes_file
                (convert node_to_dict c.nodes) h y)
              k)
        | inr n ↦ rw n (
            tasks_files
              (record c {
                nodes_file = some (convert node_to_dict c.nodes);
                last_nodes = some (convert node_to_dict c.nodes);
              })
              refl k)
      ]

  pub put_task-IsSaved :
      (c : ClusterScheduler F) (t : TaskDispatch)
      → IsSaved F c
      → IsSaved F (put_task F same_nodes same_tasks c t)
  put_task-IsSaved c t h =
      save_state-IsSaved (record c { tasks = Dict.set c.tasks t.task_id t }) h.nodes_last
        h.tasks_last

  dispatch_on-IsSaved :
      (c : ClusterScheduler F) (new : NewTask) (target : String) (o : Option (NodeInfo F))
      → IsSaved F c
      → IsSaved F (dispatch_on F same_nodes same_tasks c new target o).0
  dispatch_on-IsSaved c new target none h = h
  dispatch_on-IsSaved c new target (some n) h = put_task-IsSaved c (task_of new target running []) h

  pub dispatch_task-IsSaved :
      (c : ClusterScheduler F) (new : NewTask) (target : String)
      → IsSaved F c
      → IsSaved F (dispatch_task F same_nodes same_tasks c new target).0
  unfolding dispatch_task
  dispatch_task-IsSaved c new target h =
      dispatch_on-IsSaved c new target (Dict.get c.nodes target) h

  dispatch_best-IsSaved :
      (c : ClusterScheduler F) (new : NewTask) (o : Option (NodeInfo F))
      → IsSaved F c
      → IsSaved F (dispatch_best F same_nodes same_tasks c new o).0
  dispatch_best-IsSaved c new none h = h
  dispatch_best-IsSaved c new (some n) h = dispatch_task-IsSaved c new n.node_id h

  dispatch_decided-IsSaved :
      (c : ClusterScheduler F) (new : NewTask) (d : SchedulingDecision F)
      → IsSaved F c
      → IsSaved F (dispatch_decided F same_nodes same_tasks c new d).0
  unfolding fallback_dispatch
  dispatch_decided-IsSaved c new d h = elim (Bool-cases (d.selected_node == "")) [
    | inl y ↦ rw y (dispatch_best-IsSaved c new (pick (lighter F) (candidates F c false)) h)
    | inr n ↦ rw n (dispatch_task-IsSaved c new d.selected_node h)
  ]

  pub balanced-IsSaved :
      (c : ClusterScheduler F) (b : Option (LoadBalancer F))
      → IsSaved F c
      → IsSaved F (record c { loadbalancer = b })
  balanced-IsSaved c b h = record {
    nodes_last = h.nodes_last;
    tasks_last = h.tasks_last;
    nodes_kept = h.nodes_kept;
    tasks_kept = h.tasks_kept;
  }

  pub schedule_with-IsSaved :
      (c : ClusterScheduler F) (new : NewTask) (require_gpu : Bool) (b : Option (LoadBalancer F))
      → IsSaved F c
      → IsSaved F (schedule_with F same_nodes same_tasks c new require_gpu b).0
  unfolding smart_dispatch
  schedule_with-IsSaved c new require_gpu none h =
      dispatch_best-IsSaved c new (pick (lighter F) (candidates F c require_gpu)) h
  schedule_with-IsSaved c new require_gpu (some b) h =
      let chosen = select_node F (sync_metrics F c b) new.session_id in
      dispatch_decided-IsSaved (record c { loadbalancer = some chosen.0 }) new chosen.1
        (balanced-IsSaved c (some chosen.0) h)

  pub remove_node-IsSaved :
      (c : ClusterScheduler F) (id : String)
      → IsSaved F c
      → IsSaved F (remove_node F same_nodes same_tasks c id).0
  unfolding remove_node
  remove_node-IsSaved c id h = elim (Bool-cases (Dict.has c.nodes id)) [
    | inl y ↦
        rw y (
          save_state-IsSaved (record c { nodes = Dict.remove c.nodes id }) h.nodes_last
            h.tasks_last)
    | inr n ↦ rw n h
  ]

  pub migrate_session-IsSaved :
      (c : ClusterScheduler F) (new : NewTask) (from_node to_node : String)
      → IsSaved F c
      → IsSaved F (migrate_session F same_nodes same_tasks c new from_node to_node).0
  unfolding migrate_session
  migrate_session-IsSaved c new from_node to_node h =
      elim (Bool-cases (Dict.has c.nodes from_node && Dict.has c.nodes to_node)) [
        | inl y ↦
            rw y (put_task-IsSaved c (task_of (moved new from_node to_node) to_node migrated []) h)
        | inr n ↦ rw n h
      ]

  unheard-set :
      (m : Dict (NodeInfo F)) (id : String) (n : NodeInfo F) (st : NodeStatus)
      → Dict.get m id ≡ some n
      → convert unheard (Dict.set m id (record n { status = st })) ≡ convert unheard m
  unfolding Dict.set Dict.get
  unheard-set [] id n st h = cc
  unheard-set ((j, x) ∷ m) id n st h = elim (Bool-cases (j == id)) [
    | inl y ↦
        let same : some x ≡ some n = rw y at h in
        rw y (ap (λ o. (j, unheard (or_this o)) ∷ convert unheard m) (sym same))
    | inr d ↦ rw d (ap (◌∷◌ (j, unheard x)) (unheard-set m id n st (rw d at h)))
  ]
    where
      or_this : Option (NodeInfo F) → NodeInfo F
      or_this none = n
      or_this (some k) = k

  pub heard_at-IsSaved :
      (c : ClusterScheduler F) (id : String) (alive : Bool) (o : Option (NodeInfo F))
      → Dict.get c.nodes id ≡ o
      → IsSaved F c
      → IsSaved F (heard_at F c id alive o)
  heard_at-IsSaved c id alive none e h = h
  heard_at-IsSaved c id alive (some n) e h = record {
    nodes_last = h.nodes_last;
    tasks_last = h.tasks_last;
    nodes_kept =
        let (ns, there, same) = h.nodes_kept in
        (ns, there, same ∙ sym (unheard-set c.nodes id n (if alive then online else offline) e));
    tasks_kept = h.tasks_kept;
  }
