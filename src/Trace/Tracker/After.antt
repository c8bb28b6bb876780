-- ===== src/Trace/Tracker/After.antt =====
-- One node of a trace of trace/tracker.py is expanded: what is left of a level.
use fusion_code_modelization.Common.{
  ℕ, suc, String, true, ◌≡◌, inl, inr, List, ◌∷◌, eq_iff, arith, subst, Bool-cases, ◌⊎◌,
}
use fusion_code_modelization.Common.Dict
use fusion_code_modelization.Trace.Store.{TraceStore}
use fusion_code_modelization.Trace.Tracker.{Direction, Search, neighbors_of, expand}
use fusion_code_modelization.Trace.Tracker.Within.{
  queued, expand-has, expand-queued, queued-head, queued-rest,
}
use fusion_code_modelization.Trace.Tracker.Levels.{ordered, ordered-expand, Closed, Level, clash}

module _ (s : TraceStore) (dir : Direction) (t : Search) (u : String) (d : ℕ)
    (rest : List (String × ℕ)) (e : t.queue ≡ (u, d) ∷ rest) where
  abbrev pub after : Search
  after = expand s dir u d (record t { queue = rest }) (neighbors_of s dir u)

  pub mark-after : (v : String) → Dict.has t.visited v ≡ true → Dict.has after.visited v ≡ true
  mark-after v m =
      ground (arith, expand-has s dir u v d (record t { queue = rest }) (neighbors_of s dir u))

  Closed-after : (v : String) → Closed s dir t v → Closed s dir after v
  Closed-after v c = record {
    mark = mark-after v c.mark;
    onward = λ w near there. mark-after w (c.onward w near there);
  }

  Closed-head : Dict.has t.visited u ≡ true → Closed s dir after u
  Closed-head m = record {
    mark = mark-after u m;
    onward = λ w near there.
        ground (arith, expand-has s dir u w d (record t { queue = rest }) (neighbors_of s dir u));
  }

  -- An entry stays in the queue, or it was the head.
  queued-after :
      (v : String) (k : ℕ)
      → queued t.queue v k ≡ true
      → (queued after.queue v k ≡ true) ⊎ (u ≡ v) × (d ≡ k)
  queued-after v k h =
      let h' : queued ((u, d) ∷ rest) v k ≡ true = subst (λ q. queued q v k ≡ true) e h in
      let new = expand-queued s dir u v d k (record t { queue = rest }) (neighbors_of s dir u) in
      elim (Bool-cases (queued rest v k)) [
        | inl y ↦ inl (ground arith)
        | inr n ↦ inr (ground (arith, eq_iff u v))
      ]

  low-after :
      (v : String)
      → Dict.has t.visited u ≡ true
      → (queued t.queue v d ≡ true) ⊎ Closed s dir t v
      → (queued after.queue v d ≡ true) ⊎ Closed s dir after v
  low-after v m (inr c) = inr (Closed-after v c)
  low-after v m (inl q) = elim (queued-after v d q) [
    | inl y ↦ inl y
    | inr same ↦ inr (subst (Closed s dir after) same.0 (Closed-head m))
  ]

  known-after :
      (v : String)
      → Dict.has t.visited u ≡ true
      → ((queued t.queue v d ≡ true) ⊎ (queued t.queue v (suc d) ≡ true)) ⊎ Closed s dir t v
      → ((queued after.queue v d ≡ true) ⊎ (queued after.queue v (suc d) ≡ true))
        ⊎ Closed s dir after v
  known-after v m (inr c) = inr (Closed-after v c)
  known-after v m (inl (inr q)) = elim (queued-after v (suc d) q) [
    | inl y ↦ inl (inr y)
    | inr same ↦ absurd (omega (arith, same.1))
  ]
  known-after v m (inl (inl q)) = elim (low-after v m (inl q)) [
    | inl y ↦ inl (inl y)
    | inr c ↦ inr c
  ]

  pub Level-after : (a : String) → Level s dir a d t → Level s dir a d after
  Level-after a h =
      let s' = record t { queue = rest } in
      let m : Dict.has t.visited u ≡ true = h.marks u d (queued-head s dir a d t (u, d) rest e) in
      record {
        order =
            ordered-expand s dir u d s' (neighbors_of s dir u)
              (let o = subst (λ q. ordered d q ≡ true) e h.order in ground arith);
        first = mark-after a h.first;
        marks = λ v k q. elim (Bool-cases (Dict.has t.visited v)) [
          | inl y ↦ mark-after v y
          | inr n ↦ elim (Bool-cases (queued rest v k)) [
            | inl y ↦
                clash s dir (Dict.has t.visited v)
                  (h.marks v k (queued-rest s dir a d t (u, d) rest v k e y)) n
            | inr k' ↦ ground (
              arith,
              expand-queued s dir u v d k s' (neighbors_of s dir u),
              expand-has s dir u v d s' (neighbors_of s dir u),
            )
          ]
        ];
        known = λ v vis. elim (Bool-cases (Dict.has t.visited v)) [
          | inl y ↦ known-after v m (h.known v y)
          | inr n ↦ inl (
              inr (
                ground (
                  arith,
                  expand-queued s dir u v d (suc d) s' (neighbors_of s dir u),
                  expand-has s dir u v d s' (neighbors_of s dir u),
                )))
        ];
        low = λ v n walk le. low-after v m (h.low v n walk le);
      }
