-- ===== src/Trace/Tracker/Within.antt =====
-- What a round of a trace in trace/tracker.py marks and queues, and that it marks only what is near.
use fusion_code_modelization.Common.{
  ℕ, suc, ◌+◌, ◌≤◌, String, Bool, true, Option, none, some, ◌≡◌, refl, inl, inr, List, [], ◌∷◌,
  ◌++◌, not, ◌==◌, ◌&&◌, ◌||◌, eq_iff, same_text, contains, arith, subst, any, find?, Bool-cases,
  leb,
}
use fusion_code_modelization.Common.Dict
use fusion_code_modelization.Common.Dict.{Dict, get-set}
use fusion_code_modelization.Trace.Store.{TraceNode, TraceStore, is_same}
use fusion_code_modelization.Trace.Tracker.{
  Direction, Search, visit, joins, neighbors_of, offer, expand, round, begin, search_from,
}
use fusion_code_modelization.Trace.Tracker.Rounds.{has-set, keep_edge-same, loop_rule}

-- `Steps s dir a v d`: a walk of `d` edges leads from `a` to `v`, over stored nodes.
pub data Steps (s : TraceStore) (dir : Direction) (a : String) : String → ℕ → Type 0 where
  here : Steps s dir a a 0
  step :
      {u : String} {d : ℕ} (v : String)
      → Steps s dir a u d
      → contains (neighbors_of s dir u) v ≡ true
      → Dict.has s.nodes v ≡ true
      → Steps s dir a v (suc d)

-- `(v, d)` is in the queue.
abbrev pub queued : List (String × ℕ) → String → ℕ → Bool
queued q v d = any (λ p. p.0 == v && is_same p.1 d) q

any-append :
    {A : Type 0} (p : A → Bool) (xs : List A) (x : A) → any p (xs ++ x ∷ []) ≡ any p xs || p x
any-append p [] x = ground arith
any-append p (y ∷ xs) x = ground (arith, any-append p xs x)

pub queued-last :
    (q : List (String × ℕ)) (v id : String) (d e : ℕ)
    → queued (q ++ (id, e) ∷ []) v d ≡ queued q v d || (id == v && is_same e d)
queued-last q v id d e = any-append (λ p. p.0 == v && is_same p.1 d) q (id, e)

module _ (s : TraceStore) (dir : Direction) where
  visit-has :
      (t : Search) (id v : String) (d : ℕ) (o : Option TraceNode)
      → Dict.get s.nodes id ≡ o
      → Dict.has (visit t id d o).visited v
        ≡ Dict.has t.visited v || (id == v && Dict.has s.nodes v)
  unfolding visit
  visit-has t id v d none h = ground (arith, eq_iff id v)
  visit-has t id v d (some n) h = ground (arith, eq_iff id v, has-set t.visited id v n)

  visit-queued :
      (t : Search) (id v : String) (d e : ℕ) (o : Option TraceNode)
      → Dict.get s.nodes id ≡ o
      → queued (visit t id d o).queue v e
        ≡ queued t.queue v e
          || (id == v && is_same d e && Dict.has s.nodes v && not (Dict.has t.visited v))
  unfolding visit
  visit-queued t id v d e none h = ground (arith, eq_iff id v)
  visit-queued t id v d e (some n) h = ground (arith, eq_iff id v, queued-last t.queue v id e d)

  pub offer-has :
      (current id v : String) (depth : ℕ) (t : Search)
      → Dict.has (offer s dir current depth t id).visited v
        ≡ Dict.has t.visited v || (id == v && Dict.has s.nodes v)
  unfolding offer
  offer-has current id v depth t =
      let t' = visit t id (depth + 1) (Dict.get s.nodes id) in
      rw ((keep_edge-same t' (find? (joins dir current id) (Dict.values s.edges))).0)
        (visit-has t id v (depth + 1) (Dict.get s.nodes id) refl)

  pub offer-queued :
      (current id v : String) (depth e : ℕ) (t : Search)
      → queued (offer s dir current depth t id).queue v e
        ≡ queued t.queue v e
          || (id == v && is_same (depth + 1) e && Dict.has s.nodes v && not (Dict.has t.visited v))
  unfolding offer
  offer-queued current id v depth e t =
      let t' = visit t id (depth + 1) (Dict.get s.nodes id) in
      rw ((keep_edge-same t' (find? (joins dir current id) (Dict.values s.edges))).1)
        (visit-queued t id v (depth + 1) e (Dict.get s.nodes id) refl)

  pub expand-has :
      (current v : String) (depth : ℕ) (t : Search) (ids : List String)
      → Dict.has (expand s dir current depth t ids).visited v
        ≡ Dict.has t.visited v || (contains ids v && Dict.has s.nodes v)
  unfolding expand
  expand-has current v depth t [] = ground arith
  expand-has current v depth t (id ∷ ids) = ground (
    arith,
    offer-has current id v depth t,
    expand-has current v depth (offer s dir current depth t id) ids,
  )

  pub expand-queued :
      (current v : String) (depth e : ℕ) (t : Search) (ids : List String)
      → queued (expand s dir current depth t ids).queue v e
        ≡ queued t.queue v e
          || (is_same (depth + 1) e
              && contains ids v
              && Dict.has s.nodes v
              && not (Dict.has t.visited v))
  unfolding expand
  expand-queued current v depth e t [] = ground arith
  expand-queued current v depth e t (id ∷ ids) = ground (
    arith,
    offer-has current id v depth t,
    offer-queued current id v depth e t,
    expand-queued current v depth e (offer s dir current depth t id) ids,
  )

module _ (s : TraceStore) (dir : Direction) (a : String) (max_depth : ℕ) where
  pub record Near (t : Search) : Type 0 where
    pub seen :
        (v : String) → Dict.has t.visited v ≡ true → (d : ℕ) × Steps s dir a v d × (d ≤ max_depth)
    pub waiting : (v : String) (d : ℕ) → queued t.queue v d ≡ true → Steps s dir a v d

  pub queued-head :
      (t : Search) (q : String × ℕ) (rest : List (String × ℕ))
      → t.queue ≡ q ∷ rest
      → queued t.queue q.0 q.1 ≡ true
  queued-head t q rest e = rw e (ground (arith, same_text q.0))

  pub queued-rest :
      (t : Search) (q : String × ℕ) (rest : List (String × ℕ)) (v : String) (d : ℕ)
      → t.queue ≡ q ∷ rest
      → queued rest v d ≡ true
      → queued t.queue v d ≡ true
  queued-rest t q rest v d e h = rw e (ground arith)

  -- What the head of the queue leads to
  Near-expand :
      (t : Search) (q : String × ℕ) (rest : List (String × ℕ))
      → t.queue ≡ q ∷ rest
      → suc q.1 ≤ max_depth
      → Near t
      → Near (expand s dir q.0 q.1 (record t { queue = rest }) (neighbors_of s dir q.0))
  Near-expand t q rest e near h =
      let ids = neighbors_of s dir q.0 in
      let t' = record t { queue = rest } in
      let walk : Steps s dir a q.0 q.1 = h.waiting q.0 q.1 (queued-head t q rest e) in
      record {
        seen = λ v m. elim (Bool-cases (Dict.has t.visited v)) [
          | inl y ↦ h.seen v y
          | inr n ↦
              let k = expand-has s dir q.0 v q.1 t' ids in
              (suc q.1, step v walk (ground arith) (ground arith), near)
        ];
        waiting = λ v d m. elim (Bool-cases (queued rest v d)) [
          | inl y ↦ h.waiting v d (queued-rest t q rest v d e y)
          | inr n ↦
              let k = expand-queued s dir q.0 v q.1 d t' ids in
              subst (Steps s dir a v) (ground arith) (step v walk (ground arith) (ground arith))
        ];
      }

  Near-round :
      (t : Search) (q : String × ℕ) (rest : List (String × ℕ))
      → t.queue ≡ q ∷ rest
      → Near t
      → Near (round s dir max_depth t rest q.0 q.1)
  unfolding round
  Near-round t q rest e h = elim (Bool-cases (leb max_depth q.1)) [
    | inl y ↦
        rw y (record {
          seen = h.seen;
          waiting = λ v d m. h.waiting v d (queued-rest t q rest v d e m);
        })
    | inr n ↦ rw n (Near-expand t q rest e (ground arith) h)
  ]

Near-begin :
    (s : TraceStore) (dir : Direction) (n : TraceNode) (max_depth : ℕ)
    → Near s dir n.node_id max_depth (begin n)
unfolding Dict.get
Near-begin s dir n max_depth = record {
  seen = λ v m. (
    0,
    subst (λ j. Steps s dir n.node_id j 0) (ground (arith, eq_iff n.node_id v)) here,
    omega arith,
  );
  waiting = λ v d m.
      let same : n.node_id ≡ v = ground (arith, eq_iff n.node_id v) in
      let zero_steps : 0 ≡ d = ground arith in
      subst (λ j. Steps s dir n.node_id j d) same
        (subst (Steps s dir n.node_id n.node_id) zero_steps here);
}

pub search_sound :
    (s : TraceStore) (dir : Direction) (n : TraceNode) (max_depth : ℕ) (t : Search)
    → search_from s dir n max_depth ≡ some t
    → Near s dir n.node_id max_depth t × (t.queue ≡ [])
search_sound s dir n max_depth t e =
    loop_rule s dir max_depth (Near s dir n.node_id max_depth)
      (Near-round s dir n.node_id max_depth) _ (begin n) t (Near-begin s dir n max_depth) e
