-- ===== src/Offline/Cache/Index.antt =====
-- The index of offline/cache.py, and its entries by age.
use fusion_code_modelization.Common.{
  ◌+◌, ◌≤◌, String, Bool, true, false, ◌≡◌, ◌⊎◌, refl, sym, ap, ◌∙◌, subst, inl, inr, some, List,
  [], ◌∷◌, length, any, leb, ◌||◌, ◌==◌, eq_iff, same_text, arith, All, Bool-cases,
}
use fusion_code_modelization.Common.Dict
use fusion_code_modelization.Common.Dict.{Dict, get-remove, get-set}
use fusion_code_modelization.Offline.Cache.{CacheEntry, key_of, total, insert_by_age, sort_by_age}

-- Each key stands once, and is that of its entry.
abbrev pub IsIndex : Dict CacheEntry → Type 0
IsIndex [] = Unit
IsIndex ((k, e) ∷ m) = (key_of e ≡ k) × (Dict.has m k ≡ false) × IsIndex m

remove_absent : (m : Dict CacheEntry) (k : String) → Dict.has m k ≡ false → Dict.remove m k ≡ m
unfolding Dict.get Dict.remove
remove_absent [] k h = refl
remove_absent ((j, e) ∷ m) k h = elim (Bool-cases (j == k)) [
  | inl y ↦ (let h' = rw y at h in cc)
  | inr n ↦ rw n (ap (λ l. (j, e) ∷ l) (remove_absent m k (rw n at h)))
]

-- What an entry that is removed takes with it.
abbrev pub Takes : Dict CacheEntry → String → CacheEntry → Type 0
Takes m k e =
    (total (Dict.values (Dict.remove m k)) + e.size ≡ total (Dict.values m))
    × (length (Dict.remove m k) + 1 ≡ length m)

pub remove-Takes :
    (m : Dict CacheEntry) (k : String) (e : CacheEntry)
    → IsIndex m
    → Dict.get m k ≡ some e
    → Takes m k e
unfolding Dict.get Dict.remove
remove-Takes [] k e h found = cc
remove-Takes ((j, d) ∷ m) k e h found = elim (Bool-cases (j == k)) [
  | inl y ↦
      let same : d ≡ e = (let f : some d ≡ some e = rw y at found in cc) in
      let gone = remove_absent m k (subst (λ i. Dict.has m i ≡ false) ((eq_iff j k).0 y) h.1) in
      rw (y, gone, same) (omega arith, omega arith)
  | inr n ↦
      let more = remove-Takes m k e h.2 (rw n at found) in
      rw n (omega (arith, more.0), omega (arith, more.1))
]

pub remove-IsIndex : (m : Dict CacheEntry) (k : String) → IsIndex m → IsIndex (Dict.remove m k)
unfolding Dict.remove
remove-IsIndex [] k h = tt
remove-IsIndex ((j, d) ∷ m) k h = elim (Bool-cases (j == k)) [
  | inl y ↦ rw y (remove-IsIndex m k h.2)
  | inr n ↦ rw n (h.0, ground (arith, get-remove m k j, h.1), remove-IsIndex m k h.2)
]

any-insert :
    (p : CacheEntry → Bool) (e : CacheEntry) (es : List CacheEntry)
    → any p (insert_by_age e es) ≡ p e || any p es
any-insert p e [] = refl
any-insert p e (d ∷ es) = ground (arith, any-insert p e es)

pub any-sort : (p : CacheEntry → Bool) (es : List CacheEntry) → any p (sort_by_age es) ≡ any p es
any-sort p [] = refl
any-sort p (e ∷ es) = any-insert p e (sort_by_age es) ∙ ap (λ b. p e || b) (any-sort p es)

module _ (P : CacheEntry → Type 0) where
  All-insert : (e : CacheEntry) (es : List CacheEntry) → P e → All P es → All P (insert_by_age e es)
  All-insert e [] h k = (h, tt)
  All-insert e (d ∷ es) h k = elim (Bool-cases (leb e.cached_at d.cached_at)) [
    | inl y ↦ rw y (h, k)
    | inr n ↦ rw n (k.0, All-insert e es h k.1)
  ]

  pub All-sort : (es : List CacheEntry) → All P es → All P (sort_by_age es)
  All-sort [] h = tt
  All-sort (e ∷ es) h = All-insert e (sort_by_age es) h.0 (All-sort es h.1)

-- The entry is in the index, or its key is not.
abbrev pub Here : Dict CacheEntry → CacheEntry → Type 0
Here m e = (Dict.has m (key_of e) ≡ false) ⊎ (Dict.get m (key_of e) ≡ some e)

Here-later :
    (k : String) (d : CacheEntry) (m : Dict CacheEntry) (es : List CacheEntry)
    → Dict.has m k ≡ false
    → All (λ e. Dict.get m (key_of e) ≡ some e) es
    → All (λ e. Dict.get ((k, d) ∷ m) (key_of e) ≡ some e) es
unfolding Dict.get
Here-later k d m [] new h = tt
Here-later k d m (e ∷ es) new h =
    (ground (arith, eq_iff k (key_of e), h.0), Here-later k d m es new h.1)

pub values-found :
    (m : Dict CacheEntry) → IsIndex m → All (λ e. Dict.get m (key_of e) ≡ some e) (Dict.values m)
unfolding Dict.get
values-found [] h = tt
values-found ((k, d) ∷ m) h =
    (rw (h.0, same_text k) refl, Here-later k d m (Dict.values m) h.1 (values-found m h.2))

pub All-weaken :
    {P Q : CacheEntry → Type 0} (f : (e : CacheEntry) → P e → Q e) (es : List CacheEntry)
    → All P es
    → All Q es
All-weaken f [] h = tt
All-weaken f (e ∷ es) h = (f e h.0, All-weaken f es h.1)

pub Here-remove :
    (m : Dict CacheEntry) (k : String) (e : CacheEntry) → Here m e → Here (Dict.remove m k) e
Here-remove m k e h = elim (Bool-cases (k == key_of e)) [
  | inl y ↦ inl (rw (get-remove m k (key_of e), y) refl)
  | inr n ↦ rw (get-remove m k (key_of e), n) h
]

pub covered :
    (m : Dict CacheEntry) (k : String)
    → IsIndex m
    → Dict.has m k ≡ true
    → any (λ e. key_of e == k) (Dict.values m) ≡ true
unfolding Dict.get
covered [] k h there = cc
covered ((j, d) ∷ m) k h there = elim (Bool-cases (j == k)) [
  | inl y ↦ rw (h.0, y) refl
  | inr n ↦ rw (h.0, n) (covered m k h.2 (rw n at there))
]

-- From the oldest to the newest
abbrev pub ByAge : List CacheEntry → Type 0
ByAge [] = Unit
ByAge (e ∷ es) = All (λ d. e.cached_at ≤ d.cached_at) es × ByAge es

insert-ByAge : (e : CacheEntry) (es : List CacheEntry) → ByAge es → ByAge (insert_by_age e es)
insert-ByAge e [] h = (tt, tt)
insert-ByAge e (d ∷ es) h = elim (Bool-cases (leb e.cached_at d.cached_at)) [
  | inl y ↦
      let le : e.cached_at ≤ d.cached_at = ground arith in
      rw y ((le, All-weaken (λ x k. omega arith) es h.0), h)
  | inr n ↦
      rw n
        (All-insert (λ x. d.cached_at ≤ x.cached_at) e es (ground arith) h.0, insert-ByAge e es h.1)
]

pub sort-ByAge : (es : List CacheEntry) → ByAge (sort_by_age es)
sort-ByAge [] = tt
sort-ByAge (e ∷ es) = insert-ByAge e (sort_by_age es) (sort-ByAge es)

-- What holds of a list that has the entry of a key holds of the entry.
pub listed :
    (Q : CacheEntry → Type 0) (m : Dict CacheEntry) (k : String) (e : CacheEntry)
    (es : List CacheEntry)
    → Dict.get m k ≡ some e
    → All (Here m) es
    → any (λ e. key_of e == k) es ≡ true
    → All Q es
    → Q e
listed Q m k e [] found here among h = cc
listed Q m k e (d ∷ es) found here among h = elim (Bool-cases (key_of d == k)) [
  | inl y ↦
      let own : key_of d ≡ k = (eq_iff (key_of d) k).0 y in
      elim here.0 [
        | inl gone ↦ (let g = subst (λ j. Dict.has m j ≡ false) own gone in absurd (lost g))
        | inr there ↦
            let t : Dict.get m k ≡ some d = subst (λ j. Dict.get m j ≡ some d) own there in
            subst Q (let s : some d ≡ some e = sym t ∙ found in cc) h.0
      ]
  | inr n ↦ listed Q m k e es found here.1 (rw n at among) h.1
]
  where
    lost : Dict.has m k ≡ false → ⊥
    lost g = (let g' = rw found at g in cc)
