-- ===== src/Offline/Cache/Bound.antt =====
-- What `cleanup_cache` of offline/cache.py leaves.
use fusion_code_modelization.Common.{
  ℕ, ◌+◌, ◌-◌, ◌≤◌, String, true, false, ◌≡◌, ◌⊎◌, refl, sym, ◌∙◌, subst, inl, inr, some, List, [],
  ◌∷◌, foldl, length, any, leb, ◌==◌, eq_iff, same_text, arith, All, Bool-cases,
}
use fusion_code_modelization.Common.Dict
use fusion_code_modelization.Common.Dict.{Dict, get-remove, get-set}
use fusion_code_modelization.Offline.Cache.{
  CacheEntry, OfflineCache, key_of, total, sort_by_age, Cleanup, clean_one, cleanup_cache,
}
use fusion_code_modelization.Offline.Cache.Index.{
  IsIndex, remove-Takes, remove-IsIndex, any-sort, All-sort, values-found, All-weaken, Here,
  Here-remove, covered, ByAge, sort-ByAge, listed,
}

-- The entries left are within the bound, the counts are those of what was removed, and nothing that was
-- removed is newer than what is left.
pub record IsCleaned (m : Dict CacheEntry) (s : Cleanup) : Type 0 where
  pub index : IsIndex s.entries
  pub size : s.left ≡ total (Dict.values s.entries)
  pub freed : s.freed + s.left ≡ total (Dict.values m)
  pub count : s.removed + length s.entries ≡ length m
  pub same : (k : String) (e : CacheEntry) → Dict.get s.entries k ≡ some e → Dict.get m k ≡ some e
  pub oldest :
      (j k : String) (d e : CacheEntry)
      → Dict.get m j ≡ some d
      → Dict.has s.entries j ≡ false
      → Dict.get s.entries k ≡ some e
      → d.cached_at ≤ e.cached_at

-- All that is left is still to be looked at, or nothing more is to be removed.
abbrev Pending : ℕ → Cleanup → List CacheEntry → Type 0
Pending max s es =
    (leb s.left max ≡ true)
    ⊎ ((k : String) → Dict.has s.entries k ≡ true → any (λ e. key_of e == k) es ≡ true)

module _ (max : ℕ) (m : Dict CacheEntry) where
  record Inv (s : Cleanup) (es : List CacheEntry) : Type 0 where
    cleaned : IsCleaned m s
    here : All (Here s.entries) es
    by_age : ByAge es
    todo : Pending max s es

  remove-IsCleaned :
      (s : Cleanup) (e : CacheEntry) (es : List CacheEntry)
      → IsCleaned m s
      → All (Here s.entries) (e ∷ es)
      → ByAge (e ∷ es)
      → ((k : String) → Dict.has s.entries k ≡ true → any (λ e. key_of e == k) (e ∷ es) ≡ true)
      → Dict.get s.entries (key_of e) ≡ some e
      → IsCleaned m (record {
        entries = Dict.remove s.entries (key_of e);
        removed = s.removed + 1;
        freed = s.freed + e.size;
        left = s.left - e.size;
      })
  remove-IsCleaned s e es h here by_age todo there =
      let takes = remove-Takes s.entries (key_of e) e h.index there in
      let kept = λ (k : String). get-remove s.entries (key_of e) k in
      record {
        index = remove-IsIndex s.entries (key_of e) h.index;
        size = omega (arith, takes.0, h.size);
        freed = omega (arith, takes.0, h.size, h.freed);
        count = omega (arith, takes.1, h.count);
        same = λ k x found. h.same k x (ground (arith, kept k));
        oldest = λ j k d x in_m gone found.
            let found' : Dict.get s.entries k ≡ some x = ground (arith, kept k) in
            elim (Bool-cases (key_of e == j)) [
              | inl y ↦
                  let own : key_of e ≡ j = (eq_iff (key_of e) j).0 y in
                  let e_in_m : Dict.get m j ≡ some e =
                    h.same j e (subst (λ i. Dict.get s.entries i ≡ some e) own there) in
                  let one : some d ≡ some e = sym in_m ∙ e_in_m in
                  let d_is : d ≡ e = cc in
                  subst (λ d. d.cached_at ≤ x.cached_at) (sym d_is)
                    (listed (λ y. e.cached_at ≤ y.cached_at) s.entries k x (e ∷ es) found' here
                      (todo k (rw found' refl)) (omega arith, by_age.0))
              | inr n ↦ h.oldest j k d x in_m (rw (kept j, n) at gone) found'
            ];
      }

  Inv-step :
      (s : Cleanup) (e : CacheEntry) (es : List CacheEntry)
      → Inv s (e ∷ es)
      → Inv (clean_one max s e) es
  unfolding clean_one
  Inv-step s e es h = elim (Bool-cases (leb s.left max)) [
    | inl y ↦
        rw y (record { cleaned = h.cleaned; here = h.here.1; by_age = h.by_age.1; todo = inl y })
    | inr n ↦ elim h.here.0 [
      | inl gone ↦
          rw (n, gone)
            (record {
              cleaned = h.cleaned;
              here = h.here.1;
              by_age = h.by_age.1;
              todo =
                  inr (λ k there. ground (arith, todo n k there, eq_iff (key_of e) k, gone, there));
            })
      | inr there ↦
          rw (n, there)
            (record {
              cleaned = remove-IsCleaned s e es h.cleaned h.here h.by_age (todo n) there;
              here = All-weaken (Here-remove s.entries (key_of e)) es h.here.1;
              by_age = h.by_age.1;
              todo = inr (λ k has.
                  let kept = get-remove s.entries (key_of e) k in ground (arith, todo n k, kept));
            })
    ]
  ]
    where
      todo :
          leb s.left max ≡ false
          → (k : String) → Dict.has s.entries k ≡ true
          → any (λ e. key_of e == k) (e ∷ es) ≡ true
      todo n k there = elim h.todo [ inl y ↦ cc | inr f ↦ f k there ]

  Inv-loop : (es : List CacheEntry) (s : Cleanup) → Inv s es → Inv (foldl (clean_one max) s es) []
  Inv-loop [] s h = h
  Inv-loop (e ∷ es) s h = Inv-loop es (clean_one max s e) (Inv-step s e es h)

empty_total :
    (m : Dict CacheEntry)
    → ((k : String) → Dict.has m k ≡ true → false ≡ true)
    → total (Dict.values m) ≡ 0
unfolding Dict.get
empty_total [] h = refl
empty_total ((k, e) ∷ m) h = (let no_key = h k (rw (same_text k) refl) in cc)

-- For an index each of whose keys stands once and is that of its entry, a cleanup leaves entries of at
-- most `max` bytes in all; what it counts as removed and freed is what is gone; the entries left are
-- those that were there, and none that is gone is newer than one that is left.
pub cleanup_cache-IsCleaned :
    (c : OfflineCache) (max : ℕ)
    → IsIndex c.entries
    → IsCleaned c.entries (cleanup_cache c max).1
      × ((cleanup_cache c max).0.entries ≡ (cleanup_cache c max).1.entries)
      × (total (Dict.values (cleanup_cache c max).0.entries) ≤ max)
unfolding cleanup_cache
cleanup_cache-IsCleaned c max h =
    let begin : Cleanup = record {
      entries = c.entries;
      removed = 0;
      freed = 0;
      left = total (Dict.values c.entries);
    } in
    let first : IsCleaned c.entries begin = record {
      index = h;
      size = refl;
      freed = omega arith;
      count = omega arith;
      same = λ k e found. found;
      oldest = λ j k d e in_m gone found. (let g = rw in_m at gone in cc);
    } in
    elim (Bool-cases (leb (total (Dict.values c.entries)) max)) [
      | inl y ↦ rw y (first, refl, ground arith)
      | inr n ↦
          let es = Dict.values c.entries in
          let end = Inv-loop max c.entries (sort_by_age es) begin (record {
            cleaned = first;
            here =
                All-sort (Here c.entries) es
                  (All-weaken (λ e f. inr f) es (values-found c.entries h));
            by_age = sort-ByAge es;
            todo = inr (λ k there. any-sort (λ e. key_of e == k) es ∙ covered c.entries k h there);
          }) in
          let done = end.cleaned in
          rw n (
            done,
            refl,
            elim end.todo [
              | inl y ↦ ground (arith, done.size)
              | inr f ↦ omega (arith, empty_total _ f)
            ],
          )
    ]
