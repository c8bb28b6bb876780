-- ===== src/Trace/Tracker/Levels.antt =====
-- A trace of trace/tracker.py takes its queue level by level, so it marks all that is near.
use fusion_code_modelization.Common.{
  ℕ, suc, ◌+◌, ◌≤◌, String, Bool, true, false, Option, none, some, ◌≡◌, refl, inl, inr, List, [],
  ◌∷◌, ◌++◌, ◌&&◌, contains, arith, if◌then◌else◌, all, find?, ◌⊎◌,
}
use fusion_code_modelization.Common.Dict
use fusion_code_modelization.Trace.Store.{TraceNode, TraceStore, is_same}
use fusion_code_modelization.Trace.Tracker.{
  Direction, Search, visit, joins, neighbors_of, offer, expand,
}
use fusion_code_modelization.Trace.Tracker.Rounds.{keep_edge-same}
use fusion_code_modelization.Trace.Tracker.Within.{Steps, here, step, queued}

abbrev pub at_depth : ℕ → String × ℕ → Bool
at_depth d p = is_same p.1 d

-- First the entries of depth `d`, then those of depth `d + 1`.
abbrev pub ordered : ℕ → List (String × ℕ) → Bool
ordered d [] = true
ordered d (q ∷ rest) =
    let later = ordered d rest in
    if at_depth d q then later else at_depth (suc d) q && all (at_depth (suc d)) rest

all-last :
    (d : ℕ) (q : List (String × ℕ)) (v : String)
    → all (at_depth d) q ≡ true
    → all (at_depth d) (q ++ (v, d) ∷ []) ≡ true
all-last d [] v h = ground arith
all-last d (p ∷ q) v h = ground (arith, all-last d q v)

ordered-last :
    (d : ℕ) (q : List (String × ℕ)) (v : String)
    → ordered d q ≡ true
    → ordered d (q ++ (v, suc d) ∷ []) ≡ true
ordered-last d [] v h = ground arith
ordered-last d (p ∷ q) v h = ground (arith, ordered-last d q v, all-last (suc d) q v)

ordered-all : (d : ℕ) (q : List (String × ℕ)) → all (at_depth d) q ≡ true → ordered d q ≡ true
ordered-all d [] h = refl
ordered-all d (p ∷ q) h = ground (arith, ordered-all d q)

all-queued :
    (d : ℕ) (q : List (String × ℕ)) (v : String)
    → all (at_depth (suc d)) q ≡ true
    → queued q v d ≡ false
all-queued d [] v h = refl
all-queued d (p ∷ q) v h = ground (arith, all-queued d q v)

module _ (s : TraceStore) (dir : Direction) where
  ordered-visit :
      (t : Search) (id : String) (d : ℕ) (o : Option TraceNode)
      → ordered d t.queue ≡ true
      → ordered d (visit t id (d + 1) o).queue ≡ true
  unfolding visit
  ordered-visit t id d none h = h
  ordered-visit t id d (some n) h = ground (arith, ordered-last d t.queue id)

  ordered-offer :
      (current id : String) (d : ℕ) (t : Search)
      → ordered d t.queue ≡ true
      → ordered d (offer s dir current d t id).queue ≡ true
  unfolding offer
  ordered-offer current id d t h =
      let t' = visit t id (d + 1) (Dict.get s.nodes id) in
      rw ((keep_edge-same t' (find? (joins dir current id) (Dict.values s.edges))).1)
        (ordered-visit t id d (Dict.get s.nodes id) h)

  pub ordered-expand :
      (current : String) (d : ℕ) (t : Search) (ids : List String)
      → ordered d t.queue ≡ true
      → ordered d (expand s dir current d t ids).queue ≡ true
  unfolding expand
  ordered-expand current d t [] h = h
  ordered-expand current d t (id ∷ ids) h =
      ordered-expand current d (offer s dir current d t id) ids (ordered-offer current id d t h)

  -- A marked node all of whose neighbours are marked
  pub record Closed (t : Search) (u : String) : Type 0 where
    pub mark : Dict.has t.visited u ≡ true
    pub onward :
        (w : String)
        → contains (neighbors_of s dir u) w ≡ true
        → Dict.has s.nodes w ≡ true
        → Dict.has t.visited w ≡ true

  -- While the entries of depth `d` are expanded.
  pub record Level (a : String) (d : ℕ) (t : Search) : Type 0 where
    pub order : ordered d t.queue ≡ true
    pub first : Dict.has t.visited a ≡ true
    pub marks : (v : String) (e : ℕ) → queued t.queue v e ≡ true → Dict.has t.visited v ≡ true
    pub known :
        (v : String)
        → Dict.has t.visited v ≡ true
        → ((queued t.queue v d ≡ true) ⊎ (queued t.queue v (suc d) ≡ true)) ⊎ Closed t v
    pub low :
        (v : String) (n : ℕ) → Steps s dir a v n → n ≤ d → (queued t.queue v d ≡ true) ⊎ Closed t v

  pub clash : {A : Type 0} (b : Bool) → b ≡ true → b ≡ false → A
  clash b y n = cc

  -- With no entry of depth `d` left, the next level begins.
  still :
      (a : String) (d : ℕ) (t : Search) (v : String)
      → all (at_depth (suc d)) t.queue ≡ true
      → Level a d t
      → Dict.has t.visited v ≡ true
      → (queued t.queue v (suc d) ≡ true) ⊎ Closed t v
  still a d t v last h m = elim (h.known v m) [
    | inl (inl q) ↦ clash (queued t.queue v d) q (all-queued d t.queue v last)
    | inl (inr q) ↦ inl q
    | inr c ↦ inr c
  ]

  low-next :
      (a : String) (d : ℕ) (t : Search)
      → all (at_depth (suc d)) t.queue ≡ true
      → Level a d t
      → (v : String) (n : ℕ) → Steps s dir a v n
      → n ≤ suc d
      → (queued t.queue v (suc d) ≡ true) ⊎ Closed t v
  low-next a d t last h v n here le = still a d t v last h h.first
  low-next a d t last h _ _ (step {u} {d = m} v walk near there) le =
      elim (h.low u m walk (omega arith)) [
        | inl q ↦ clash (queued t.queue u d) q (all-queued d t.queue u last)
        | inr c ↦ still a d t v last h (c.onward v near there)
      ]

  pub Level-next :
      (a : String) (d : ℕ) (t : Search)
      → all (at_depth (suc d)) t.queue ≡ true
      → Level a d t
      → Level a (suc d) t
  Level-next a d t last h = record {
    order = ordered-all (suc d) t.queue last;
    first = h.first;
    marks = h.marks;
    known = λ v m. elim (still a d t v last h m) [ inl q ↦ inl (inl q) | inr c ↦ inr c ];
    low = low-next a d t last h;
  }
