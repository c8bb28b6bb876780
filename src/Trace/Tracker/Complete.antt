-- ===== src/Trace/Tracker/Complete.antt =====
-- The chain that a trace of trace/tracker.py returns, against the walks of the graph.
use fusion_code_modelization.Common.{
  ℕ, suc, ◌≤◌, ◌<◌, String, true, false, some, ◌≡◌, refl, inl, inr, List, [], ◌∷◌, eq_iff,
  same_text, arith, subst, sym, Bool-cases, leb, ◌⊎◌, all,
}
use fusion_code_modelization.Common.Dict
use fusion_code_modelization.Common.Dict.{Dict, has-keys}
use fusion_code_modelization.Trace.Store.{TraceNode, TraceStore, is_same}
use fusion_code_modelization.Trace.Tracker.{Direction, Search, round, begin, search_from}
use fusion_code_modelization.Trace.Tracker.Rounds.{loop_rule}
use fusion_code_modelization.Trace.Tracker.Within.{Steps, here, step, queued}
use fusion_code_modelization.Trace.Tracker.Levels.{at_depth, ordered, Level, Level-next, clash}
use fusion_code_modelization.Trace.Tracker.After.{after, mark-after, Level-after}

module _ (s : TraceStore) (dir : Direction) (a : String) (max_depth : ℕ) where
  -- All that is near is marked.
  abbrev Full : Search → Type 0
  Full t = (v : String) (d : ℕ) → Steps s dir a v d → d ≤ max_depth → Dict.has t.visited v ≡ true

  abbrev Going : Search → Type 0
  Going t = (d : ℕ) × (d < max_depth) × Level s dir a d t

  Full-round :
      (t : Search) (q : String × ℕ) (rest : List (String × ℕ))
      → t.queue ≡ q ∷ rest
      → Full t
      → Full (round s dir max_depth t rest q.0 q.1)
  unfolding round
  Full-round t q rest e h v d walk le = elim (Bool-cases (leb max_depth q.1)) [
    | inl y ↦ rw y (h v d walk le)
    | inr n ↦ rw n (mark-after s dir t q.0 q.1 rest e v (h v d walk le))
  ]

  Full-Level : (d : ℕ) (t : Search) → max_depth ≤ d → Level s dir a d t → Full t
  Full-Level d t le h v n walk near = elim (h.low v n walk (omega arith)) [
    | inl q ↦ h.marks v d q
    | inr c ↦ c.mark
  ]

  Level-round :
      (d : ℕ) (t : Search) (q : String × ℕ) (rest : List (String × ℕ))
      → t.queue ≡ q ∷ rest
      → d < max_depth
      → q.1 ≡ d
      → Level s dir a d t
      → Level s dir a d (round s dir max_depth t rest q.0 q.1)
  unfolding round
  Level-round d t (u, k) rest e near same h =
      let stop : leb max_depth k ≡ false = ground arith in
      let h' : Level s dir a k t = subst (λ j. Level s dir a j t) (sym same) h in
      rw stop (
        subst (λ j. Level s dir a j (after s dir t u k rest e)) same
          (Level-after s dir t u k rest e a h'))

  Going-round :
      (t : Search) (q : String × ℕ) (rest : List (String × ℕ))
      → t.queue ≡ q ∷ rest
      → Going t ⊎ Full t
      → Going (round s dir max_depth t rest q.0 q.1) ⊎ Full (round s dir max_depth t rest q.0 q.1)
  Going-round t q rest e (inr h) = inr (Full-round t q rest e h)
  Going-round t q rest e (inl (d, near, h)) =
      let o : ordered d (q ∷ rest) ≡ true = subst (λ l. ordered d l ≡ true) e h.order in
      elim (Bool-cases (is_same q.1 d)) [
        | inl y ↦ inl (d, near, Level-round d t q rest e near (ground arith) h)
        | inr n ↦
            let last : all (at_depth (suc d)) t.queue ≡ true = rw e (ground arith) in
            let next = Level-next s dir a d t last h in
            elim (Bool-cases (leb max_depth (suc d))) [
              | inl y ↦ inr (Full-round t q rest e (Full-Level (suc d) t (ground arith) next))
              | inr k ↦ inl (
                suc d,
                ground arith,
                Level-round (suc d) t q rest e (ground arith) (ground arith) next,
              )
            ]
      ]

  -- With nothing queued, all that can be reached is marked.
  marks_all :
      (d : ℕ) (t : Search)
      → t.queue ≡ []
      → Level s dir a d t
      → (v : String) (n : ℕ) → Steps s dir a v n
      → Dict.has t.visited v ≡ true
  marks_all d t e h _ _ here = h.first
  marks_all d t e h _ _ (step {u} {d = m} v walk near there) =
      elim (h.known u (marks_all d t e h u m walk)) [
        | inl (inl q) ↦ clash s dir (queued t.queue u d) q (rw e refl)
        | inl (inr q) ↦ clash s dir (queued t.queue u (suc d)) q (rw e refl)
        | inr c ↦ c.onward v near there
      ]

  Full-end : (t : Search) → t.queue ≡ [] → Going t ⊎ Full t → Full t
  Full-end t e (inr h) = h
  Full-end t e (inl (d, near, h)) = λ v n walk le. marks_all d t e h v n walk

module _ (s : TraceStore) (dir : Direction) (n : TraceNode) where
  marked_first : Dict.has (begin n).visited n.node_id ≡ true
  unfolding Dict.get
  marked_first = rw (same_text n.node_id) refl

  only_first : (v : String) → Dict.has (begin n).visited v ≡ true → n.node_id ≡ v
  unfolding Dict.get
  only_first v m = ground (arith, eq_iff n.node_id v)

  low-begin :
      (v : String) (k : ℕ) → Steps s dir n.node_id v k → k ≤ 0 → queued (begin n).queue v 0 ≡ true
  low-begin _ _ here le = rw (same_text n.node_id) refl
  low-begin _ _ (step v walk near there) le = absurd (omega arith)

  Level-begin : Level s dir n.node_id 0 (begin n)
  Level-begin = record {
    order = refl;
    first = marked_first;
    marks = λ v k q.
        subst (λ j. Dict.has (begin n).visited j ≡ true) (ground (arith, eq_iff n.node_id v))
          marked_first;
    known = λ v m. inl (inl (ground (arith, eq_iff n.node_id v, only_first v m)));
    low = λ v k walk le. inl (low-begin v k walk le);
  }

  begins :
      (max_depth : ℕ)
      → Going s dir n.node_id max_depth (begin n) ⊎ Full s dir n.node_id max_depth (begin n)
  begins max_depth = elim (Bool-cases (leb max_depth 0)) [
    | inl y ↦ inr (Full-Level s dir n.node_id max_depth 0 (begin n) (ground arith) Level-begin)
    | inr k ↦ inl (0, ground arith, Level-begin)
  ]

  pub search_complete :
      (max_depth : ℕ) (t : Search)
      → search_from s dir n max_depth ≡ some t
      → Full s dir n.node_id max_depth t
  search_complete max_depth t e =
      let P =
        λ (t : Search). Going s dir n.node_id max_depth t ⊎ Full s dir n.node_id max_depth t in
      let (p, empty) =
        loop_rule s dir max_depth P (Going-round s dir n.node_id max_depth) _ (begin n) t
          (begins max_depth) e in
      Full-end s dir n.node_id max_depth t empty p
