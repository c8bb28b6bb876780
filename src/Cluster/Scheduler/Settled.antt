-- ===== src/Cluster/Scheduler/Settled.antt =====
-- Which tasks of cluster/scheduler.py are running: those whose request is awaited.
use fusion_code_modelization.Common.{
  String, Bool, true, false, ◌≡◌, ◌≢◌, refl, sym, ◌∙◌, ap, subst, inl, inr, Option, none, some,
  ◌==◌, ◌⊎◌, eq_iff, arith, Bool-cases,
}
use fusion_code_modelization.Common.Dict
use fusion_code_modelization.Common.Dict.{Dict, get-set, get-remove}
use fusion_code_modelization.Cluster.Models.{TaskDispatchStatus, pending, running, TaskDispatch}
use fusion_code_modelization.Cluster.Scheduler.Runs.{Waiting}

abbrev is_running : TaskDispatchStatus → Bool
is_running running = true
is_running _ = false

-- The tasks that are running are those that a dispatch waits with, and no task is pending.
pub record IsSettled (tasks : Dict TaskDispatch) (waits : Dict Waiting) : Type 0 where
  pub known :
      (id : String) (w : Waiting)
      → Dict.get waits id ≡ some w
      → (Dict.get tasks id ≡ some w.task) × (w.task.status ≡ running) × (w.task.task_id ≡ id)
  pub awaited :
      (id : String) (t : TaskDispatch)
      → Dict.get tasks id ≡ some t
      → t.status ≡ running
      → Dict.has waits id ≡ true
  pub begun : (id : String) (t : TaskDispatch) → Dict.get tasks id ≡ some t → t.status ≢ pending

module _ {V : Type 0} (m : Dict V) (k j : String) where
  set-cases :
      (v x : V)
      → Dict.get (Dict.set m k v) j ≡ some x
      → (k ≡ j) × (v ≡ x) ⊎ ((k == j) ≡ false) × (Dict.get m j ≡ some x)
  set-cases v x e = elim (Bool-cases (k == j)) [
    | inl y ↦
        inl ((eq_iff k j).0 y, (let e' : some v ≡ some x = rw (get-set m k j v, y) at e in cc))
    | inr n ↦ inr (n, rw (get-set m k j v, n) at e)
  ]

  get-set_same : (v : V) → k ≡ j → Dict.get (Dict.set m k v) j ≡ some v
  get-set_same v e = rw (get-set m k j v, (eq_iff k j).1 e) refl

  get-set_other :
      (v : V) (o : Option V) → (k == j) ≡ false → Dict.get m j ≡ o → Dict.get (Dict.set m k v) j ≡ o
  get-set_other v o n e = rw (get-set m k j v, n) e

  remove-cases :
      (x : V) → Dict.get (Dict.remove m k) j ≡ some x → ((k == j) ≡ false) × (Dict.get m j ≡ some x)
  remove-cases x e = elim (Bool-cases (k == j)) [
    | inl y ↦ (let e' = rw (get-remove m k j, y) at e in cc)
    | inr n ↦ (n, rw (get-remove m k j, n) at e)
  ]

  has-remove_other : ((k == j) ≡ false) → Dict.has m j ≡ true → Dict.has (Dict.remove m k) j ≡ true
  has-remove_other n h = rw (get-remove m k j, n) h

module _ (tasks : Dict TaskDispatch) (waits : Dict Waiting) (h : IsSettled tasks waits) where
  open h use {known, awaited, begun}

  -- A new task is dispatched.
  pub IsSettled-dispatch :
      (t : TaskDispatch) (node : String)
      → t.status ≡ running
      → IsSettled
          (Dict.set tasks t.task_id t)
          (Dict.set waits t.task_id (record { task = t; node = node }))
  IsSettled-dispatch t node r =
      let w' : Waiting = record { task = t; node = node } in
      record {
        known = λ id w e. elim (set-cases waits t.task_id id w' w e) [
          | inl (y, same) ↦
              subst
                (λ w.
                  (Dict.get (Dict.set tasks t.task_id t) id ≡ some w.task)
                  × (w.task.status ≡ running)
                  × (w.task.task_id ≡ id))
                same (get-set_same tasks t.task_id id t y, r, y)
          | inr (n, there) ↦
              let k = known id w there in
              (get-set_other tasks t.task_id id t (some w.task) n k.0, k.1, k.2)
        ];
        awaited = λ id t' e k. elim (set-cases tasks t.task_id id t t' e) [
          | inl (y, same) ↦ rw (get-set_same waits t.task_id id w' y) refl
          | inr (n, there) ↦
              rw (get-set_other waits t.task_id id w' (Dict.get waits id) n refl)
                (awaited id t' there k)
        ];
        begun = λ id t' e. elim (set-cases tasks t.task_id id t t' e) [
          | inl (y, same) ↦ λ k. cc
          | inr (n, there) ↦ begun id t' there
        ];
      }

  -- A new task is stored that is neither pending nor running.
  pub IsSettled-store :
      (t : TaskDispatch)
      → Dict.get tasks t.task_id ≡ none
      → t.status ≢ running
      → t.status ≢ pending
      → IsSettled (Dict.set tasks t.task_id t) waits
  IsSettled-store t new r p = record {
    known = λ id w there.
        let k = known id w there in
        (
          get-set_other tasks t.task_id id t (some w.task)
              (ground (arith, eq_iff t.task_id id, k.0, new)) k.0,
          k.1,
          k.2,
        );
    awaited = λ id t' e k. elim (set-cases tasks t.task_id id t t' e) [
      | inl (y, same) ↦ absurd (r (ap (λ t. t.status) same ∙ k))
      | inr (n, there) ↦ awaited id t' there k
    ];
    begun = λ id t' e. elim (set-cases tasks t.task_id id t t' e) [
      | inl (y, same) ↦ λ k. p (ap (λ t. t.status) same ∙ k)
      | inr (n, there) ↦ begun id t' there
    ];
  }

  -- A dispatch is answered.
  pub IsSettled-answer :
      (t : TaskDispatch) (id : String)
      → t.task_id ≡ id
      → t.status ≢ running
      → t.status ≢ pending
      → IsSettled (Dict.set tasks t.task_id t) (Dict.remove waits id)
  IsSettled-answer t id own r p = record {
    known = λ j w e.
        let (n, there) = remove-cases waits id j w e in
        let k = known j w there in
        (
          get-set_other tasks t.task_id j t (some w.task)
              (subst (λ i. (i == j) ≡ false) (sym own) n) k.0,
          k.1,
          k.2,
        );
    awaited = λ j t' e k. elim (set-cases tasks t.task_id j t t' e) [
      | inl (y, same) ↦ absurd (r (ap (λ t. t.status) same ∙ k))
      | inr (n, there) ↦
          has-remove_other waits id j (subst (λ i. (i == j) ≡ false) own n) (awaited j t' there k)
    ];
    begun = λ j t' e. elim (set-cases tasks t.task_id j t t' e) [
      | inl (y, same) ↦ λ k. p (ap (λ t. t.status) same ∙ k)
      | inr (n, there) ↦ begun j t' there
    ];
  }
