-- ===== src/Common/Dict.antt =====
-- Python's `dict` with text keys: an association list in insertion order. An assignment to a key
-- that is there keeps its place, a new key goes to the end.
use Prim.Native.Nat.{◌+◌, ◌≤◌}
use Prim.Native.String.{String}
use mathlib.Core.Path.{◌≡◌, refl}
use mathlib.Core.Bool.{Bool, true}
use mathlib.Core.Option.{Option, none, some}
use mathlib.Core.List.{List, [], ◌∷◌, ◌++◌}
use native.Mathlib.Omega.{arith}
use text.Mathlib.Text.{◌==◌}
use text.Mathlib.TextEquality.{eq_iff}
use fusion_code_modelization.Common.Tests.{if◌then◌else◌, is_some}
use fusion_code_modelization.Common.Lists.{length, contains}

abbrev pub Dict {ℓ} : Type ℓ → Type ℓ
Dict V = List (String × V)

module _ {ℓ} {V : Type ℓ} where
  -- `m.get(k)`
  unfoldable pub get : Dict V → String → Option V
  get [] k = none
  get ((j, v) ∷ m) k = if j == k then some v else get m k

  -- `m[k] = v`
  unfoldable pub set : Dict V → String → V → Dict V
  set [] k v = (k, v) ∷ []
  set ((j, w) ∷ m) k v = if j == k then (j, v) ∷ m else (j, w) ∷ set m k v

  -- `del m[k]`, and `m.pop(k, None)`
  unfoldable pub remove : Dict V → String → Dict V
  remove [] k = []
  remove ((j, w) ∷ m) k = let rest = remove m k in if j == k then rest else (j, w) ∷ rest

  -- `k in m`
  abbrev pub has : Dict V → String → Bool
  has m k = is_some (get m k)

  -- `m.setdefault(k, d)`: the dictionary afterwards
  unfoldable pub set_default : Dict V → String → V → Dict V
  set_default m k d = if has m k then m else set m k d

  -- `list(m.values())` and `list(m)`
  abbrev pub values : Dict V → List V
  values [] = []
  values ((j, v) ∷ m) = v ∷ values m

  abbrev pub keys : Dict V → List String
  keys [] = []
  keys ((j, v) ∷ m) = j ∷ keys m

module _ {ℓ} {V : Type ℓ} where
  pub get-set :
      (m : Dict V) (k j : String) (v : V) → get (set m k v) j ≡ (if k == j then some v else get m j)
  unfolding get set
  get-set [] k j v = refl
  get-set ((i, w) ∷ m) k j v = ground (arith, eq_iff k j, eq_iff i k, eq_iff i j, get-set m k j v)

  pub get-remove :
      (m : Dict V) (k j : String) → get (remove m k) j ≡ (if k == j then none else get m j)
  unfolding get remove
  get-remove [] k j = ground arith
  get-remove ((i, w) ∷ m) k j = ground (arith, eq_iff k j, eq_iff i k, eq_iff i j, get-remove m k j)

  pub get-set_default :
      (m : Dict V) (k j : String) (d : V)
      → get (set_default m k d) j
        ≡ (if k == j then (if has m k then get m k else some d) else get m j)
  unfolding set_default
  get-set_default m k j d = ground (arith, get-set m k j d, eq_iff k j)

  pub length-remove-le : (m : Dict V) (k : String) → length (remove m k) ≤ length m
  unfolding remove
  length-remove-le [] k = omega arith
  length-remove-le ((i, w) ∷ m) k = ground (arith, length-remove-le m k)

  pub length-remove-lt :
      (m : Dict V) (k : String) → has m k ≡ true → length (remove m k) + 1 ≤ length m
  unfolding get remove
  length-remove-lt [] k h = cc
  length-remove-lt ((i, w) ∷ m) k h = ground (arith, length-remove-lt m k, length-remove-le m k)

  pub length-set-le : (m : Dict V) (k : String) (v : V) → length (set m k v) ≤ length m + 1
  unfolding set
  length-set-le [] k v = omega arith
  length-set-le ((i, w) ∷ m) k v = ground (arith, length-set-le m k v)

  pub get-append :
      (m n : Dict V) (k : String) → get (m ++ n) k ≡ (if has m k then get m k else get n k)
  unfolding get
  get-append [] n k = refl
  get-append ((i, w) ∷ m) n k = ground (arith, get-append m n k)

  pub has-keys : (m : Dict V) (k : String) → contains (keys m) k ≡ has m k
  unfolding get
  has-keys [] k = refl
  has-keys ((i, w) ∷ m) k = ground (arith, has-keys m k)

pub ruleset dict_laws = (get-set, get-remove)
