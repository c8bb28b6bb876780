-- ===== src/Snapshot/Files/Laws.antt =====
-- What snapshot/manager.py collects of a project, file by file.
use Prim.Native.Char.{Char, code, len_utf8, width, len_utf8_def}
use Prim.Native.Nat.{Ordering, compare}
use Prim.Native.String.len
use Prim.Native.String.{len}
use fusion_code_modelization.Common.{
  ◌+◌, ◌≤◌, String, ◌≡◌, refl, sym, ap, ◌∙◌, subst, ◌⊎◌, inl, inr, Bool, true, false, Bool-cases,
  arith, if◌then◌else◌,
}
use fusion_code_modelization.Snapshot.Files.{is_char, newlines}

module _ (c : Char) (s : String) where
  newlines-lf :
      is_char 10 c ≡ true → newlines false (String.◌∷◌ c s) ≡ String.◌∷◌ c (newlines false s)
  unfolding newlines
  newlines-lf h =
      ap
        (λ b.
          if b
          then String.◌∷◌ c (newlines false s)
          else if is_char 13 c
          then String.◌∷◌ "\n" (newlines true s)
          else String.◌∷◌ c (newlines false s))
        h

  newlines-crlf : is_char 10 c ≡ true → newlines true (String.◌∷◌ c s) ≡ newlines false s
  unfolding newlines
  newlines-crlf h =
      ap
        (λ b.
          if b
          then newlines false s
          else if is_char 13 c
          then String.◌∷◌ "\n" (newlines true s)
          else String.◌∷◌ c (newlines false s))
        h

  newlines-other :
      (after : Bool)
      → is_char 10 c ≡ false
      → newlines after (String.◌∷◌ c s) ≡ (
          if is_char 13 c
          then String.◌∷◌ "\n" (newlines true s)
          else String.◌∷◌ c (newlines false s))
  unfolding newlines
  newlines-other after h =
      ap
        (λ b.
          if b
          then (if after then newlines false s else String.◌∷◌ c (newlines false s))
          else if is_char 13 c
          then String.◌∷◌ "\n" (newlines true s)
          else String.◌∷◌ c (newlines false s))
        h

module _ (c : Char) (s : String) where
  lf_cases :
      (after : Bool)
      → is_char 10 c ≡ true
      → (newlines after (String.◌∷◌ c s) ≡ newlines false s)
        ⊎ (newlines after (String.◌∷◌ c s) ≡ String.◌∷◌ "\n" (newlines true s))
        ⊎ ((newlines after (String.◌∷◌ c s) ≡ String.◌∷◌ c (newlines false s))
            × ((t : String) → newlines false (String.◌∷◌ c t) ≡ String.◌∷◌ c (newlines false t)))
  lf_cases true lf = inl (newlines-crlf c s lf)
  lf_cases false lf = inr (inr (newlines-lf c s lf, λ t. newlines-lf c t lf))

  newlines_cases :
      (after : Bool)
      → (newlines after (String.◌∷◌ c s) ≡ newlines false s)
        ⊎ (newlines after (String.◌∷◌ c s) ≡ String.◌∷◌ "\n" (newlines true s))
        ⊎ ((newlines after (String.◌∷◌ c s) ≡ String.◌∷◌ c (newlines false s))
            × ((t : String) → newlines false (String.◌∷◌ c t) ≡ String.◌∷◌ c (newlines false t)))
  newlines_cases after = elim (Bool-cases (is_char 10 c)) [
    | inl lf ↦ lf_cases after lf
    | inr not_lf ↦ elim (Bool-cases (is_char 13 c)) [
      | inl cr ↦ inr (inl (newlines-other c s after not_lf ∙ rw cr refl))
      | inr not_cr ↦ inr (
          inr (
            newlines-other c s after not_lf ∙ rw not_cr refl,
            λ t. newlines-other c t false not_lf ∙ rw not_cr refl,
          ))
    ]
  ]

-- A text that was read has no `\r`.
pub newlines_again :
    (after : Bool) (s : String) → newlines false (newlines after s) ≡ newlines after s
unfolding newlines
newlines_again after String.[] = refl
newlines_again after (String.◌∷◌ c s) = elim (newlines_cases c s after) [
  | inl e ↦ ap (newlines false) e ∙ newlines_again false s ∙ sym e
  | inr (inl e) ↦ ap (newlines false) e ∙ ap (String.◌∷◌ "\n") (newlines_again true s) ∙ sym e
  | inr (inr (e, plain)) ↦
      ap (newlines false) e
      ∙ plain (newlines false s)
      ∙ ap (String.◌∷◌ c) (newlines_again false s)
      ∙ sym e
]

one_le_width : (a b d : Ordering) → 1 ≤ width a b d
one_le_width Ordering.lt b d = omega arith
one_le_width Ordering.eq Ordering.lt d = omega arith
one_le_width Ordering.eq Ordering.eq Ordering.lt = omega arith
one_le_width Ordering.eq Ordering.eq Ordering.eq = omega arith
one_le_width Ordering.eq Ordering.eq Ordering.gt = omega arith
one_le_width Ordering.eq Ordering.gt Ordering.lt = omega arith
one_le_width Ordering.eq Ordering.gt Ordering.eq = omega arith
one_le_width Ordering.eq Ordering.gt Ordering.gt = omega arith
one_le_width Ordering.gt Ordering.lt d = omega arith
one_le_width Ordering.gt Ordering.eq Ordering.lt = omega arith
one_le_width Ordering.gt Ordering.eq Ordering.eq = omega arith
one_le_width Ordering.gt Ordering.eq Ordering.gt = omega arith
one_le_width Ordering.gt Ordering.gt Ordering.lt = omega arith
one_le_width Ordering.gt Ordering.gt Ordering.eq = omega arith
one_le_width Ordering.gt Ordering.gt Ordering.gt = omega arith

one_le_len_utf8 : (c : Char) → 1 ≤ len_utf8 c
one_le_len_utf8 c =
    subst (λ n. 1 ≤ n) (λ i. sym (len_utf8_def c) i)
      (one_le_width (compare (code c) 128) (compare (code c) 2048) (compare (code c) 65536))

len-cons : (c : Char) (s : String) → len (String.◌∷◌ c s) ≡ len_utf8 c + len s
len-cons c s = λ i. len.cons c s i

newline_width : len_utf8 "\n" ≡ 1
newline_width = λ i. len_utf8_def "\n" i

pub len-newlines-le : (after : Bool) (s : String) → len (newlines after s) ≤ len s
unfolding newlines
len-newlines-le after String.[] = omega arith
len-newlines-le after (String.◌∷◌ c s) = elim (newlines_cases c s after) [
  | inl e ↦ omega (arith, ap len e, len-cons c s, len-newlines-le false s)
  | inr (inl e) ↦ omega (
    arith,
    ap len e,
    len-cons c s,
    len-newlines-le true s,
    one_le_len_utf8 c,
    len-cons "\n" (newlines true s),
    newline_width,
  )
  | inr (inr (e, plain)) ↦
      omega (arith, ap len e, len-cons c s, len-cons c (newlines false s), len-newlines-le false s)
]
