-- ===== src/Sandbox/Guard/Laws.antt =====
-- What the sandbox of sandbox/policy.py and guard.py lets through, and what its audit log holds.
use fusion_code_modelization.Common.{
  ℕ, String, ◌≡◌, refl, sym, ap, ◌∙◌, Bool, true, false, List, [], ◌∷◌, ◌++◌, map, any, All, ◌⊎◌,
  inl, inr, Bool-cases, contains, same_text, arith, eq_iff, ◌==◌, ◌||◌,
}
use mathlib.Core.List.{append-nil, append_assoc, map-append}
use mathlib.Core.Logic.{⊎_elim, ◌↔◌}
use fusion_code_modelization.Sandbox.Paths.{is_in, rstrip_slash, is_within}
use fusion_code_modelization.Sandbox.Policy.{
  SecurityMode, readonly, manual, auto, SandboxPolicy, Verdict, is_ignored, is_sensitive, is_denied,
  in_some_dir, is_path_allowed, is_readonly, is_write_allowed, is_empty,
}
use fusion_code_modelization.Sandbox.Guard.{
  AuditEntry, SandboxGuard, log, check_read, check_write, check_delete, delete_verdict,
  check_command,
}

any-false {ℓ} :
    {A : Type ℓ} (p : A → Bool) (xs : List A) → any p xs ≡ false → All (λ x. p x ≡ false) xs
any-false p [] h = tt
any-false p (x ∷ xs) h = (ground arith, any-false p xs (ground arith))

or_true : {b : Bool} (a : Bool) → b ≡ true → (a || b) ≡ true
or_true true h = refl
or_true false h = h

false-any {ℓ} :
    {A : Type ℓ} (p : A → Bool) (xs : List A) → All (λ x. p x ≡ false) xs → any p xs ≡ false
false-any p [] h = refl
false-any p (x ∷ xs) (h, hs) = rw (h, false-any p xs hs) refl

true-any :
    (p : String → Bool) (xs : List String) (x : String)
    → contains xs x ≡ true
    → p x ≡ true
    → any p xs ≡ true
true-any p [] x there h = cc
true-any p (y ∷ ys) x there h = elim (Bool-cases (y == x)) [
  | inl e ↦ rw (let at : p y ≡ true = ap p ((eq_iff y x).0 e) ∙ h in at) refl
  | inr n ↦
      let rest : any p ys ≡ true =
        true-any p ys x (sym (ap (λ b. b || contains ys x) n) ∙ there) h in
      or_true (p y) rest
]

any-true :
    (p : String → Bool) (xs : List String)
    → any p xs ≡ true
    → (x : String) × (contains xs x ≡ true) × (p x ≡ true)
any-true p [] h = cc
any-true p (x ∷ xs) h = elim (Bool-cases (p x)) [
  | inl y ↦ (x, rw (same_text x), y)
  | inr n ↦ let (z, there, q) = any-true p xs (rw n at h) in (z, ground (arith, there), q)
]

-- What it means that a path is open to a reader: no pattern (less the slashes at its end) and no
-- denied text occurs in it, and it lies in an allowed directory, if any is named.
pub record IsOpen (resolve : String → String) (policy : SandboxPolicy) (path : String)
    : Type 0 where
  pub unignored :
      All (λ pat. is_in (rstrip_slash pat) (resolve path) ≡ false) policy.ignore_patterns
  pub insensitive :
      All (λ pat. is_in (rstrip_slash pat) (resolve path) ≡ false) policy.sensitive_patterns
  pub undenied : All (λ text. is_in text (resolve path) ≡ false) policy.denied_files
  pub inside :
      (is_empty policy.allowed_dirs ≡ true)
      ⊎ ((dir : String) × (contains policy.allowed_dirs dir ≡ true)
          × (is_within (resolve path) (resolve dir) ≡ true))

allowed_parts :
    (resolve : String → String) (policy : SandboxPolicy) (path : String)
    → (is_path_allowed resolve policy path).0 ≡ true
    → (is_ignored policy (resolve path) ≡ false)
      × (is_sensitive policy (resolve path) ≡ false)
      × (is_denied policy (resolve path) ≡ false)
      × ((is_empty policy.allowed_dirs ≡ true)
          ⊎ (in_some_dir resolve (resolve path) policy.allowed_dirs ≡ true))
unfolding is_path_allowed
allowed_parts resolve policy path h = ground arith

parts_allowed :
    (resolve : String → String) (policy : SandboxPolicy) (path : String)
    → is_ignored policy (resolve path) ≡ false
    → is_sensitive policy (resolve path) ≡ false
    → is_denied policy (resolve path) ≡ false
    → (is_empty policy.allowed_dirs ≡ true)
      ⊎ (in_some_dir resolve (resolve path) policy.allowed_dirs ≡ true)
    → (is_path_allowed resolve policy path).0 ≡ true
unfolding is_path_allowed
parts_allowed resolve policy path a b c (inl d) = rw (a, b, c, d) refl
parts_allowed resolve policy path a b c (inr d) = ground (arith, a, b, c, d)

allowed-IsOpen :
    (resolve : String → String) (policy : SandboxPolicy) (path : String)
    → (is_path_allowed resolve policy path).0 ≡ true
    → IsOpen resolve policy path
unfolding is_ignored is_sensitive is_denied
allowed-IsOpen resolve policy path h =
    let (a, b, c, d) = allowed_parts resolve policy path h in
    record {
      unignored =
          any-false (λ pat. is_in (rstrip_slash pat) (resolve path)) policy.ignore_patterns a;
      insensitive =
          any-false (λ pat. is_in (rstrip_slash pat) (resolve path)) policy.sensitive_patterns b;
      undenied = any-false (λ text. is_in text (resolve path)) policy.denied_files c;
      inside =
          ⊎_elim inl
            (λ e.
              inr (any-true (λ dir. is_within (resolve path) (resolve dir)) policy.allowed_dirs e))
            d;
    }

IsOpen-allowed :
    (resolve : String → String) (policy : SandboxPolicy) (path : String)
    → IsOpen resolve policy path
    → (is_path_allowed resolve policy path).0 ≡ true
unfolding is_ignored is_sensitive is_denied
IsOpen-allowed resolve policy path seen =
    parts_allowed resolve policy path
      (false-any (λ pat. is_in (rstrip_slash pat) (resolve path)) policy.ignore_patterns
        seen.unignored)
      (false-any (λ pat. is_in (rstrip_slash pat) (resolve path)) policy.sensitive_patterns
        seen.insensitive)
      (false-any (λ text. is_in text (resolve path)) policy.denied_files seen.undenied)
      (⊎_elim inl
        (λ e. inr (
          true-any (λ dir. is_within (resolve path) (resolve dir)) policy.allowed_dirs e.0 e.1 e.2))
        seen.inside)

-- The policy allows exactly the paths of which the resolved form contains no ignored and no sensitive
-- pattern (less the slashes at their ends) and no denied text, and lies in an allowed directory, if
-- any is named.
pub is_path_allowed-IsOpen :
    (resolve : String → String) (policy : SandboxPolicy) (path : String)
    → (is_path_allowed resolve policy path).0 ≡ true ↔ IsOpen resolve policy path
is_path_allowed-IsOpen resolve policy path =
    (allowed-IsOpen resolve policy path, IsOpen-allowed resolve policy path)

-- The requests that the guard decides.
pub data Request : Type 0 where
  read write delete command : String → Request

unfoldable pub check : (String → String) → ℕ → SandboxGuard → Request → SandboxGuard × Verdict
check resolve now g (read path) = check_read resolve now g path
check resolve now g (write path) = check_write resolve now g path
check resolve now g (delete path) = check_delete resolve now g path
check resolve now g (command text) = check_command now g text

abbrev pub verdict_of : AuditEntry → Verdict
verdict_of e = (e.allowed, e.reason)

check_lem :
    (resolve : String → String) (now : ℕ) (g : SandboxGuard) (r : Request)
    → ((check resolve now g r).0.policy ≡ g.policy)
      × (map verdict_of (check resolve now g r).0.entries
          ≡ map verdict_of g.entries ++ (check resolve now g r).1 ∷ [])
unfolding check check_read check_write check_delete check_command log
check_lem resolve now g (read path) = (refl, map-append _ g.entries _)
check_lem resolve now g (write path) = (refl, map-append _ g.entries _)
check_lem resolve now g (delete path) = (refl, map-append _ g.entries _)
check_lem resolve now g (command text) = (refl, map-append _ g.entries _)

-- The verdicts of a sequence of requests.
unfoldable pub serve :
    (String → String) → ℕ → SandboxGuard → List Request → SandboxGuard × List Verdict
serve resolve now g [] = (g, [])
serve resolve now g (r ∷ rs) =
    let (g', v) = check resolve now g r in let (g'', vs) = serve resolve now g' rs in (g'', v ∷ vs)

-- The audit log gains the verdicts of all requests, in order and nothing else, and the policy stays
-- as it was.
pub serve-audit :
    (resolve : String → String) (now : ℕ) (g : SandboxGuard) (rs : List Request)
    → ((serve resolve now g rs).0.policy ≡ g.policy)
      × (map verdict_of (serve resolve now g rs).0.entries
          ≡ map verdict_of g.entries ++ (serve resolve now g rs).1)
unfolding serve
serve-audit resolve now g [] = (refl, sym (append-nil (map verdict_of g.entries)))
serve-audit resolve now g (r ∷ rs) =
    let (same, one) = check_lem resolve now g r in
    let (same', rest) = serve-audit resolve now (check resolve now g r).0 rs in
    (
      same' ∙ same,
      rest
          ∙ ap (λ l. l ++ (serve resolve now (check resolve now g r).0 rs).1) one
          ∙ append_assoc (map verdict_of g.entries) ((check resolve now g r).1 ∷ [])
              (serve resolve now (check resolve now g r).0 rs).1,
    )

write_read :
    (resolve : String → String) (policy : SandboxPolicy) (path : String)
    → (is_write_allowed resolve policy path).0 ≡ true
    → ((is_path_allowed resolve policy path).0 ≡ true) × (is_readonly policy.mode ≡ false)
unfolding is_write_allowed
write_read resolve policy path h = ground arith

delete_write :
    (resolve : String → String) (mode : SecurityMode) (policy : SandboxPolicy) (path : String)
    → mode ≡ policy.mode
    → (delete_verdict resolve 0 mode policy path).0 ≡ true
    → ((is_write_allowed resolve policy path).0 ≡ true) × (mode ≡ auto)
unfolding is_write_allowed
delete_write resolve readonly policy path e h = cc
delete_write resolve manual policy path e h = cc
delete_write resolve auto policy path e h = (rw (← e) (ground arith), refl)

-- What may be deleted may be written, and only in `auto` mode is anything deleted.
pub check-delete-write :
    (resolve : String → String) (now : ℕ) (g : SandboxGuard) (path : String)
    → (check resolve now g (delete path)).1.0 ≡ true
    → ((check resolve now g (write path)).1.0 ≡ true) × (g.policy.mode ≡ auto)
unfolding check check_write check_delete
check-delete-write resolve now g path = delete_write resolve g.policy.mode g.policy path refl

-- What may be written may be read, and in `readonly` mode nothing is written.
pub check-write-read :
    (resolve : String → String) (now : ℕ) (g : SandboxGuard) (path : String)
    → (check resolve now g (write path)).1.0 ≡ true
    → ((check resolve now g (read path)).1.0 ≡ true) × (is_readonly g.policy.mode ≡ false)
unfolding check check_read check_write
check-write-read resolve now g path = write_read resolve g.policy path
