-- ===== src/LoadBalancer/Strategy/Laws.antt =====
-- What the strategies of loadbalancer/strategy.py choose.
use fusion_code_modelization.Common.{
  ℕ, zero, suc, ◌<◌, String, ◌≡◌, ◌⊎◌, refl, sym, ap, subst, ◌∙◌, Bool, true, false, Option, none,
  some, List, [], ◌∷◌, filter, length, not, ◌==◌, eq_iff, inl, inr, Bool-cases, Option-cases,
  List-cases, All, arith, if◌then◌else◌, same_text,
}
use mathlib.Core.Option.{some-injective}
use fusion_code_modelization.Common.Dict
use fusion_code_modelization.Common.Dict.{Dict, get-set}
use fusion_code_modelization.LoadBalancer.Metrics.{
  FloatOps, FloatOrder, LoadMetric, load_score, is_overloaded, healthy,
}
use fusion_code_modelization.LoadBalancer.Strategy.{
  nth, best_of, pick, or_all, less_loaded, least_loaded_select, find_node, usable, preferred,
  hit_or, affinity_select,
}

abbrev pub Among : {A : Type 0} → A → List A → Type 0
Among x [] = ⊥
Among x (y ∷ ys) = (x ≡ y) ⊎ Among x ys

skip_second : {A : Type 0} (a b r : A) (ys : List A) → Among r (a ∷ ys) → Among r (a ∷ b ∷ ys)
skip_second a b r ys (inl e) = inl e
skip_second a b r ys (inr i) = inr (inr i)

module _ {A : Type 0} (better : A → A → Bool) where
  pub best_of-Among : (best : A) (xs : List A) → Among (best_of better best xs) (best ∷ xs)
  best_of-Among best [] = inl refl
  best_of-Among best (x ∷ xs) =
      let here : Bool → Type 0 =
        λ b. Among (best_of better (if b then x else best) xs) (best ∷ x ∷ xs) in
      elim (Bool-cases (better x best)) [
        | inl y ↦ subst here (sym y) (inr (best_of-Among x xs))
        | inr n ↦
            subst here (sym n)
              (skip_second best x (best_of better best xs) xs (best_of-Among best xs))
      ]

  module _ (irr : (a : A) → better a a ≡ false)
      (tr : (a b c : A) → better a b ≡ true → better b c ≡ true → better a c ≡ true) where
    no_better :
        (y best : A) (xs : List A)
        → better y best ≡ false
        → better y (best_of better best xs) ≡ false
    no_better y best [] h = h
    no_better y best (x ∷ xs) h = elim (Bool-cases (better x best)) [
      | inl b ↦ rw b (no_better y x xs (ground (arith, tr y x best)))
      | inr n ↦ rw n (no_better y best xs h)
    ]

    best_of-best :
        (best : A) (xs : List A) → All (λ y. better y (best_of better best xs) ≡ false) xs
    best_of-best best [] = tt
    best_of-best best (x ∷ xs) =
        let here : Bool → Type 0 =
          λ b. All (λ y. better y (best_of better (if b then x else best) xs) ≡ false) (x ∷ xs) in
        elim (Bool-cases (better x best)) [
          | inl b ↦ subst here (sym b) (no_better x x xs (irr x), best_of-best x xs)
          | inr n ↦ subst here (sym n) (no_better x best xs n, best_of-best best xs)
        ]

    -- The first of the best is one of them, and none is better.
    pub pick_lem :
        (xs : List A) (x : A) (rest : List A)
        → xs ≡ x ∷ rest
        → (m : A) × (pick better xs ≡ some m) × Among m xs × All (λ y. better y m ≡ false) xs
    unfolding pick
    pick_lem xs x rest e = rw e (
      best_of better x rest,
      refl,
      best_of-Among x rest,
      (no_better x x rest (irr x), best_of-best x rest),
    )

module _ {A : Type 0} where
  pub or_all-cons :
      (xs ys : List A) (y : A) (rest : List A)
      → ys ≡ y ∷ rest
      → (z : A) × (more : List A) × (or_all xs ys ≡ z ∷ more)
  or_all-cons [] ys y rest e = (y, rest, e)
  or_all-cons (x ∷ xs) ys y rest e = (x, xs, refl)

  pub nth-Among : (xs : List A) (i : ℕ) → i < length xs → (x : A) × (nth xs i ≡ some x) × Among x xs
  nth-Among [] i h = absurd (omega (arith, h))
  nth-Among (x ∷ xs) zero h = (x, refl, inl refl)
  nth-Among (x ∷ xs) (suc i) h =
      let (y, e, there) = nth-Among xs i (omega (arith, h)) in (y, e, inr there)

module _ {A : Type 0} (p : A → Bool) where
  pub Among-filter : (m : A) (xs : List A) → Among m (filter p xs) → Among m xs × (p m ≡ true)
  Among-filter m [] h = absurd h
  Among-filter m (x ∷ xs) h = elim (Bool-cases (p x)) [
    | inl y ↦ elim (rw y at h) [
      | inl e ↦ (inl e, ap p e ∙ y)
      | inr i ↦ let (there, good) = Among-filter m xs i in (inr there, good)
    ]
    | inr n ↦ let (there, good) = Among-filter m xs (rw n at h) in (inr there, good)
  ]

  -- A choice that falls back to all takes one that passes the test, or none of them passes it.
  pub Among-or_all :
      (m : A) (xs : List A)
      → Among m (or_all (filter p xs) xs)
      → Among m xs × ((p m ≡ true) ⊎ (filter p xs ≡ []))
  Among-or_all m xs h = elim (List-cases (filter p xs)) [
    | inl nothing ↦ (subst (λ l. Among m (or_all l xs)) nothing h, inr nothing)
    | inr (y, rest, e) ↦
        let (there, good) =
          Among-filter m xs (subst (Among m) (sym e) (subst (λ l. Among m (or_all l xs)) e h)) in
        (there, inl good)
  ]

module _ (F : FloatOps) where
  -- The nodes that a choice is made from: the healthy ones, or all where none is healthy.
  abbrev pub candidates : List (LoadMetric F) → List (LoadMetric F)
  candidates ms = or_all (healthy F ms) ms

  -- `least_loaded_select` finds a candidate of least load.
  pub least_loaded_lem :
      (o : FloatOrder F) (x : LoadMetric F) (rest : List (LoadMetric F))
      → (m : LoadMetric F) × (least_loaded_select F (x ∷ rest) ≡ some m)
        × Among m (candidates (x ∷ rest))
        × All (λ y. F.lt (load_score F y) (load_score F m) ≡ false) (candidates (x ∷ rest))
  unfolding least_loaded_select
  least_loaded_lem o x rest =
      let (z, more, e) = or_all-cons (healthy F (x ∷ rest)) (x ∷ rest) x rest refl in
      pick_lem (less_loaded F) (λ a. o.irreflexive (load_score F a))
        (λ a b c. o.transitive (load_score F a) (load_score F b) (load_score F c))
        (candidates (x ∷ rest)) z more e

  find-Among :
      (ms : List (LoadMetric F)) (node : String) (m : LoadMetric F)
      → find_node F ms node ≡ some m
      → is_overloaded F m ≡ false
      → Among m (healthy F ms) × (m.node_id ≡ node)
  unfolding find_node
  find-Among [] node m h idle = cc
  find-Among (x ∷ ms) node m h idle = elim (Bool-cases (x.node_id == node)) [
    | inl same ↦
        let e : x ≡ m = some-injective x m (rw same at h) in
        (
          subst (λ b. Among m (if not b then x ∷ healthy F ms else healthy F ms))
              (sym (ap (is_overloaded F) e ∙ idle)) (inl (sym e)),
          ap (λ k. k.node_id) (sym e) ∙ (eq_iff x.node_id node).0 same,
        )
    | inr differs ↦
        let (there, named) = find-Among ms node m (rw differs at h) idle in
        (
          elim (Bool-cases (is_overloaded F x)) [ inl y ↦ rw y there | inr n ↦ rw n (inr there) ],
          named,
        )
  ]

  usable-idle :
      (o : Option (LoadMetric F)) (m : LoadMetric F)
      → usable F o ≡ some m
      → (o ≡ some m) × (is_overloaded F m ≡ false)
  usable-idle none m h = cc
  usable-idle (some x) m h = elim (Bool-cases (is_overloaded F x)) [
    | inl busy ↦ (let bad : none ≡ some m = rw busy at h in cc)
    | inr idle ↦
        let e : x ≡ m = some-injective x m (rw idle at h) in
        (ap some e, ap (is_overloaded F) (sym e) ∙ idle)
  ]

  preferred_lem :
      (affinity : Dict String) (ms : List (LoadMetric F)) (sid : String) (m : LoadMetric F)
      → preferred F affinity ms sid ≡ some m
      → Among m (healthy F ms) × (Dict.get affinity sid ≡ some m.node_id)
  preferred_lem affinity ms sid m h = elim (Option-cases (Dict.get affinity sid)) [
    | inl unknown ↦ (let bad : none ≡ some m = rw (unknown, preferred) at h in cc)
    | inr (node, known) ↦
        let (found, idle) = usable-idle (find_node F ms node) m (rw (known, preferred) at h) in
        let (there, named) = find-Among ms node m found idle in (there, known ∙ ap some (sym named))
  ]

  or_all-Among :
      (ms : List (LoadMetric F)) (m : LoadMetric F)
      → Among m (healthy F ms)
      → Among m (candidates ms)
  or_all-Among ms m h = elim (List-cases (healthy F ms)) [
    | inl none_there ↦ absurd (subst (Among m) none_there h)
    | inr (x, rest, e) ↦ subst (λ l. Among m (or_all l ms)) (sym e) (subst (Among m) e h)
  ]

  -- The node that a session is given: one of the table, or the least loaded.
  abbrev table_hit : Dict String → List (LoadMetric F) → String → Option (LoadMetric F)
  table_hit affinity ms sid = if sid == "" then none else preferred F affinity ms sid

  pub affinity_lem :
      (o : FloatOrder F) (affinity : Dict String) (x : LoadMetric F) (rest : List (LoadMetric F))
      (sid : String)
      → (m : LoadMetric F) × ((affinity_select F affinity (x ∷ rest) sid).1 ≡ some m)
        × Among m (candidates (x ∷ rest))
        × ((sid == "") ≡ false
            → Dict.get (affinity_select F affinity (x ∷ rest) sid).0 sid ≡ some m.node_id)
  unfolding affinity_select
  affinity_lem o affinity x rest sid = elim (Option-cases (table_hit affinity (x ∷ rest) sid)) [
    | inl miss ↦
        let (m, found, there, best) = least_loaded_lem o x rest in
        (
          m,
          rw (miss, hit_or) (rw found refl),
          there,
          λ named.
              rw (miss, hit_or)
                (rw found
                  (rw named (rw (get-set affinity sid sid m.node_id) (rw (same_text sid))))),
        )
    | inr (m, hit) ↦ elim (Bool-cases (sid == "")) [
      | inl y ↦ (let bad : none ≡ some m = rw y at hit in cc)
      | inr n ↦
          let (there, named) = preferred_lem affinity (x ∷ rest) sid m (rw n at hit) in
          (m, rw (hit, hit_or), or_all-Among (x ∷ rest) m there, λ s. rw (hit, hit_or) named)
    ]
  ]

  hit_again :
      (affinity : Dict String) (ms : List (LoadMetric F)) (sid node : String) (m : LoadMetric F)
      → (sid == "") ≡ false
      → Dict.get affinity sid ≡ some node
      → find_node F ms node ≡ some m
      → is_overloaded F m ≡ false
      → table_hit affinity ms sid ≡ some m
  hit_again affinity ms sid node m named entry found idle =
      rw named (rw (entry, preferred) (rw found (rw idle)))

  -- A session stays on its node: when a node was selected for it, and that node is there and not
  -- overloaded at the next selection, then the next selection takes it again and changes nothing,
  -- whatever the other nodes do in between.
  pub affinity_stays :
      (o : FloatOrder F) (affinity : Dict String) (before after : List (LoadMetric F))
      (sid : String) (m m' : LoadMetric F)
      → (sid == "") ≡ false
      → (affinity_select F affinity before sid).1 ≡ some m
      → find_node F after m.node_id ≡ some m'
      → is_overloaded F m' ≡ false
      → affinity_select F (affinity_select F affinity before sid).0 after sid
        ≡ ((affinity_select F affinity before sid).0, some m')
  unfolding affinity_select
  affinity_stays o affinity [] after sid m m' named chosen found idle = cc
  affinity_stays o affinity (x ∷ rest) [] sid m m' named chosen found idle =
      (let bad : none ≡ some m' = unfold find_node in found in cc)
  affinity_stays o affinity (x ∷ rest) (y ∷ ys) sid m m' named chosen found idle =
      let (n, chosen', there, told) = affinity_lem o affinity x rest sid in
      let same : n ≡ m = some-injective n m (sym chosen' ∙ chosen) in
      let entry : Dict.get (affinity_select F affinity (x ∷ rest) sid).0 sid ≡ some m.node_id =
        told named ∙ ap (λ k. some k.node_id) same in
      let hit =
        hit_again (affinity_select F affinity (x ∷ rest) sid).0 (y ∷ ys) sid m.node_id m' named
          entry found idle in
      ap (λ h. hit_or F h (affinity_select F affinity (x ∷ rest) sid).0 (y ∷ ys) sid) hit
