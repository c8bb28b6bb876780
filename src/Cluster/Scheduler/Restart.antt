-- ===== src/Cluster/Scheduler/Restart.antt =====
-- A scheduler of cluster/scheduler.py that is started again on the files that a run left.
use fusion_code_modelization.Common.{
  String, Bool, ◌≡◌, refl, sym, ap, ◌∙◌, subst, Option, none, some, [], ◌∷◌,
}
use fusion_code_modelization.Common.Dict
use fusion_code_modelization.Common.Dict.{Dict}
use fusion_code_modelization.LoadBalancer.Metrics.{FloatOps}
use fusion_code_modelization.LoadBalancer.Balancer.{SavedState}
use fusion_code_modelization.Cluster.Models.{
  NodeData, TaskData, stamped, node_to_dict, node_from_dict, task_to_dict, task_from_dict,
  parse_status-status_value, parse_task_status-task_status_value, NodeInfo, TaskDispatch, Answer,
}
use fusion_code_modelization.Cluster.Scheduler.{
  ClusterScheduler, Dispatch, refused, waiting, start_scheduler, register_node, health_check,
  end_check, convert, load_all, started, dispatch_task, finish_task, or_empty, save_state,
}
use fusion_code_modelization.Cluster.Scheduler.Auto.{
  schedule_with, auto_schedule, cluster_health_report, balance_of,
}
use fusion_code_modelization.Cluster.Scheduler.Runs.{
  Waiting, Run, ClusterCall, register_call, remove_call, hear_call, end_check_call, dispatch_call,
  schedule_call, migrate_call, report_call, answer_call, await_dispatch, answer_to, run_call,
  Reaches, at_start, after_call,
}
use fusion_code_modelization.Cluster.Scheduler.Saved.{
  SameLaws, IsSaved, save_state-IsSaved, save_state_files, remove_node-IsSaved, heard_at-IsSaved,
  unheard, dispatch_task-IsSaved, schedule_with-IsSaved, migrate_session-IsSaved, balanced-IsSaved,
  put_task-IsSaved,
}

convert-convert :
    {A B C : Type 0} (g : B → C) (f : A → B) (m : Dict A)
    → convert g (convert f m) ≡ convert (λ a. g (f a)) m
convert-convert g f [] = refl
convert-convert g f ((k, a) ∷ m) = ap (◌∷◌ (k, g (f a))) (convert-convert g f m)

-- What is written comes back as `back` of it.
load_all-convert :
    {A B : Type 0} (read : B → Option A) (write : A → B) (back : A → A)
    (each : (a : A) → read (write a) ≡ some (back a)) (m : Dict A)
    → load_all read (convert write m) ≡ some (convert back m)
load_all-convert read write back each [] = refl
load_all-convert read write back each ((k, a) ∷ m) =
    rw (each a, load_all-convert read write back each m) refl

abbrev pub stamped_node : {F : FloatOps} → String → NodeInfo F → NodeInfo F
stamped_node now n = record n { last_heartbeat = stamped now n.last_heartbeat }

abbrev pub stamped_task : String → TaskDispatch → TaskDispatch
stamped_task now t = record t { created_at = stamped now t.created_at }

node_back :
    (F : FloatOps) (now : String) (n : NodeInfo F)
    → node_from_dict F now (node_to_dict n) ≡ some (stamped_node now n)
node_back F now n = rw (parse_status-status_value n.status) refl

task_back :
    (now : String) (t : TaskDispatch)
    → task_from_dict now (task_to_dict t) ≡ some (stamped_task now t)
task_back now t = rw (parse_task_status-task_status_value t.status) refl

module _ (F : FloatOps) (same_nodes : Dict (NodeData F) → Dict (NodeData F) → Bool)
    (same_tasks : Dict TaskData → Dict TaskData → Bool) (laws : SameLaws same_nodes same_tasks)
    (strip : String → String) where
  await_dispatch-scheduler :
      (r : Run F) (c : ClusterScheduler F) (d : Dispatch F)
      → (await_dispatch F same_nodes same_tasks strip r c d).scheduler ≡ c
  await_dispatch-scheduler r c (refused t) = refl
  await_dispatch-scheduler r c (waiting t n) = refl

  answer_to-IsSaved :
      (r : Run F) (id : String) (answer : Answer) (o : Option Waiting)
      → IsSaved F r.scheduler
      → IsSaved F (answer_to F same_nodes same_tasks strip r id answer o).scheduler
  unfolding finish_task
  answer_to-IsSaved r id answer none h = h
  answer_to-IsSaved r id answer (some w) h =
      put_task-IsSaved F same_nodes same_tasks laws r.scheduler _ h

  run_call-IsSaved :
      (r : Run F) (c : ClusterCall F)
      → IsSaved F r.scheduler
      → IsSaved F (run_call F same_nodes same_tasks strip r c).scheduler
  unfolding run_call register_node health_check end_check auto_schedule cluster_health_report
  run_call-IsSaved r (register_call n) h =
      save_state-IsSaved F same_nodes same_tasks laws
        (record r.scheduler { nodes = Dict.set r.scheduler.nodes n.node_id n }) h.nodes_last
        h.tasks_last
  run_call-IsSaved r (remove_call id) h =
      remove_node-IsSaved F same_nodes same_tasks laws r.scheduler id h
  run_call-IsSaved r (hear_call id alive) h =
      heard_at-IsSaved F same_nodes same_tasks laws r.scheduler id alive
        (Dict.get r.scheduler.nodes id) refl h
  run_call-IsSaved r end_check_call h =
      save_state-IsSaved F same_nodes same_tasks laws r.scheduler h.nodes_last h.tasks_last
  run_call-IsSaved r (dispatch_call new target) h =
      rw
        (await_dispatch-scheduler r (dispatch_task F same_nodes same_tasks r.scheduler new target).0
          (dispatch_task F same_nodes same_tasks r.scheduler new target).1)
        (dispatch_task-IsSaved F same_nodes same_tasks laws r.scheduler new target h)
  run_call-IsSaved r (schedule_call new require_gpu) h =
      let d =
        schedule_with F same_nodes same_tasks r.scheduler new require_gpu
          r.scheduler.loadbalancer in
      rw (await_dispatch-scheduler r d.0 d.1) (
        schedule_with-IsSaved F same_nodes same_tasks laws r.scheduler new require_gpu
          r.scheduler.loadbalancer h)
  run_call-IsSaved r (migrate_call new from_node to_node) h =
      migrate_session-IsSaved F same_nodes same_tasks laws r.scheduler new from_node to_node h
  run_call-IsSaved r report_call h =
      balanced-IsSaved F same_nodes same_tasks laws r.scheduler
        (balance_of F r.scheduler r.scheduler.loadbalancer).0 h
  run_call-IsSaved r (answer_call id answer) h =
      answer_to-IsSaved r id answer (Dict.get r.waits id) h

  reached-IsSaved :
      (r s : Run F)
      → IsSaved F r.scheduler
      → Reaches F same_nodes same_tasks strip r s
      → IsSaved F s.scheduler
  reached-IsSaved r _ h at_start = h
  reached-IsSaved r _ h (after_call {s} reached c new) =
      run_call-IsSaved s c (reached-IsSaved r s h reached)

  restarts :
      (later : String) (balancer : Option (Option (SavedState F)))
      (nodes_file : Option (Dict (NodeData F))) (tasks_file : Option (Dict TaskData))
      (ns : Dict (NodeInfo F)) (ts : Dict TaskDispatch)
      → or_empty nodes_file ≡ convert node_to_dict ns
      → or_empty tasks_file ≡ convert task_to_dict ts
      → (c : ClusterScheduler F) × (start_scheduler F later nodes_file tasks_file balancer ≡ some c)
        × (c.nodes ≡ convert (stamped_node later) ns)
        × (c.tasks ≡ convert (stamped_task later) ts)
  unfolding start_scheduler
  restarts later balancer nodes_file tasks_file ns ts e k =
      let nodes_back =
        ap (load_all (node_from_dict F later)) e
        ∙ load_all-convert (node_from_dict F later) node_to_dict (stamped_node later)
            (node_back F later) ns in
      let tasks_back =
        ap (load_all (task_from_dict later)) k
        ∙ load_all-convert (task_from_dict later) task_to_dict (stamped_task later)
            (task_back later) ts in
      (
        _,
        ap
              (λ o.
                started F nodes_file tasks_file balancer o
                  (load_all (task_from_dict later) (or_empty tasks_file)))
              nodes_back
            ∙ ap (started F nodes_file tasks_file balancer (some (convert (stamped_node later) ns)))
                tasks_back,
        refl,
        refl,
      )

  started-IsSaved :
      (b : Option (Option (SavedState F))) (c : ClusterScheduler F)
      → started F none none b (some []) (some []) ≡ some c
      → IsSaved F c
  started-IsSaved b c e = subst IsSavedIn e (record {
    nodes_last = tt;
    tasks_last = tt;
    nodes_kept = ([], refl, refl);
    tasks_kept = refl;
  })
    where
      IsSavedIn : Option (ClusterScheduler F) → Type 0
      IsSavedIn none = Unit
      IsSavedIn (some x) = IsSaved F x

  -- A new scheduler starts on these files, and its nodes, as far as `show` shows of them, and its tasks
  -- are these, an empty time being that of the start.
  abbrev pub StartsWith :
      (NodeInfo F → NodeInfo F)
      → String
      → Option (Option (SavedState F))
      → ClusterScheduler F
      → Dict (NodeInfo F)
      → Dict TaskDispatch
      → Type 0
  StartsWith show later balancer files ns ts =
      (c : ClusterScheduler F) × (start_scheduler F later files.nodes_file files.tasks_file balancer
        ≡ some c)
      × (convert show c.nodes ≡ convert (λ n. show (stamped_node later n)) ns)
      × (c.tasks ≡ convert (stamped_task later) ts)

  -- Where two dictionaries have the same JSON text only if they are the same: let a scheduler be started
  -- without files and any calls be made in any order of their awaits. Then a new scheduler starts on
  -- the files that it leaves, with the same tasks, and with the same nodes but for their statuses, which
  -- a health check changes before they are saved. On the files that the end of a check then leaves it
  -- starts with the same statuses too. Only a time that is empty becomes that of the start.
  pub start_scheduler-Reaches :
      (now later : String) (balancer balancer' : Option (Option (SavedState F)))
      (c : ClusterScheduler F) (s : Run F)
      → start_scheduler F now none none balancer ≡ some c
      → Reaches F same_nodes same_tasks strip (record { scheduler = c; waits = [] }) s
      → StartsWith unheard later balancer' s.scheduler s.scheduler.nodes s.scheduler.tasks
        × StartsWith
            (λ n. n)
            later
            balancer'
            (end_check F same_nodes same_tasks s.scheduler)
            s.scheduler.nodes
            s.scheduler.tasks
  unfolding start_scheduler end_check
  start_scheduler-Reaches now later balancer balancer' c s began reached =
      let h = reached-IsSaved _ s (started-IsSaved balancer c began) reached in
      let (ns, there, same) = h.nodes_kept in
      let (c', starts, nodes', tasks') =
        restarts later balancer' s.scheduler.nodes_file s.scheduler.tasks_file ns s.scheduler.tasks
          there h.tasks_kept in
      let ended = save_state F same_nodes same_tasks s.scheduler in
      let (nodes_file, tasks_file) =
        save_state_files F same_nodes same_tasks laws s.scheduler h.nodes_last h.tasks_last in
      let (c'', starts', nodes'', tasks'') =
        restarts later balancer' ended.nodes_file ended.tasks_file s.scheduler.nodes
          s.scheduler.tasks (ap or_empty nodes_file) (ap or_empty tasks_file) in
      (
        (
          c',
          starts,
          ap (convert unheard) nodes'
              ∙ convert-convert unheard (stamped_node later) ns
              ∙ sym (convert-convert (stamped_node later) unheard ns)
              ∙ ap (convert (stamped_node later)) same
              ∙ convert-convert (stamped_node later) unheard s.scheduler.nodes,
          tasks',
        ),
        (
          c'',
          starts',
          ap (convert (λ n. n)) nodes''
              ∙ convert-convert (λ n. n) (stamped_node later) s.scheduler.nodes,
          tasks'',
        ),
      )
