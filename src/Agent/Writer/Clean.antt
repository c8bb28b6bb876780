-- ===== src/Agent/Writer/Clean.antt =====
-- With the default hooks, core/safe_writer.py writes no text with a secret.
use fusion_code_modelization.Common.{
  ◌≡◌, refl, sym, ap, ◌∙◌, subst, ◌⊎◌, inl, inr, true, false, Option, none, some, List, [], ◌∷◌,
  String, ◌==◌, Bool-cases, eq_iff, ltb,
}
use fusion_code_modelization.Common.Dict
use fusion_code_modelization.Common.Dict.{Dict, get-set, get-remove}
use fusion_code_modelization.Sandbox.Paths.{is_in}
use fusion_code_modelization.Agent.Hooks.{
  pre_write, allow, modify, HookDecision, allowed, plain, Payload, decided, Verdict, block, redact,
  allow_verdict, other, failed, Guards, text_or, answer_of, secret_scrub, evaluate, register,
  default_registry, emit, with_content,
}
use fusion_code_modelization.Agent.Hooks.Laws.{
  Hands, as_is, empty_modify, changed, Passes, done, step, content_of, content_with, emit-Passes,
}
use fusion_code_modelization.Agent.Writer.{
  as_text, as_bytes, Content, Disk, SafeWriter, ok, ask, apply_modify, payload_for,
}
use fusion_code_modelization.Agent.Writer.Laws.{Agrees, ask-Agrees, content_of-apply}
use fusion_code_modelization.Agent.Writer.Runs.{
  Call, Change, unchanged, wrote_text, wrote_bytes, removed, perform, perform_all, perform-Change,
}

-- The substitution of secrets finds none in a text that is not empty.
abbrev pub IsClean : Guards → String → Type 0
IsClean g s = (s ≡ "") ⊎ (ltb 0 (g.subn s).1 ≡ false)

abbrev pub IsCleanContent : Guards → Content → Type 0
IsCleanContent g (as_text s) = IsClean g s
IsCleanContent g (as_bytes b) = Unit

-- Every text among the files is clean.
abbrev pub IsCleanDisk : Guards → Disk → Type 0
IsCleanDisk g disk =
    (p : String) (c : Content) → Dict.get disk.files p ≡ some c → IsCleanContent g c

abbrev CleanPayload : Guards → Payload → Type 0
CleanPayload g p = (s : String) → Dict.get p "content" ≡ some s → IsClean g s

module _ (g : Guards) (scrubs : (s : String) → IsClean g (g.subn s).0) where
  with-Clean :
      (p : Payload) (content : String) → IsClean g content → CleanPayload g (with_content p content)
  with-Clean p content h s e =
      subst (IsClean g) (let same : content ≡ s = cc (content_with p content) in same) h

  Hands-Clean :
      (p q : Payload) (d : HookDecision)
      → Hands d p q
      → (d.action ≡ allow → CleanPayload g p)
      → (d.action ≡ modify → d.modified_content ≡ none → CleanPayload g p)
      → ((s : String) → d.modified_content ≡ some s → IsClean g s)
      → CleanPayload g q
  Hands-Clean p q d (as_is ea) kept left new = kept ea
  Hands-Clean p q d (empty_modify ea em) kept left new = left ea em
  Hands-Clean p q d (changed content ea em) kept left new = with-Clean p content (new content em)

  text_there :
      (p : Payload) (t : String)
      → Dict.get p "content" ≡ some t
      → text_or (Dict.get p "content") "" ≡ t
  text_there p t e = ap (λ o. text_or o "") e

  -- The scrubbing handler finds nothing to scrub, or hands on a clean text.
  scrub_cases :
      (p : Payload)
      → ((m : String) × (secret_scrub g.subn g.show p ≡ decided (plain allow m)) × CleanPayload g p)
        ⊎ ((m s : String) × (secret_scrub g.subn g.show p
              ≡ decided (record { action = modify; reason = m; modified_content = some s }))
            × IsClean g s)
  unfolding secret_scrub
  scrub_cases p =
      let s = text_or (Dict.get p "content") "" in
      elim (Bool-cases (s == "")) [
        | inl none_there ↦ rw none_there (
            inl (
              "no_content",
              refl,
              λ t e. inl (sym (text_there p t e) ∙ (eq_iff s "").0 none_there),
            ))
        | inr some_there ↦ elim (Bool-cases (ltb 0 (g.subn s).1)) [
          | inl y ↦ rw (some_there, y) (inr (_, (g.subn s).0, refl, scrubs s))
          | inr n ↦
              rw (some_there, n)
                (inl (
                  "",
                  refl,
                  λ t e. inr (subst (λ u. ltb 0 (g.subn u).1 ≡ false) (text_there p t e) n),
                ))
        ]
      ]

  scrub-Clean :
      (p q : Payload) (d : HookDecision)
      → secret_scrub g.subn g.show p ≡ decided d
      → Hands d p q
      → CleanPayload g q
  scrub-Clean p q d e h = elim (scrub_cases p) [
    | inl (m, at, clean) ↦
        let same : d ≡ plain allow m = cc in
        Hands-Clean p q d h (λ _. clean) (λ _ _. clean) (λ s em. cc)
    | inr (m, s, at, clean) ↦
        let same : d ≡ record { action = modify; reason = m; modified_content = some s } = cc in
        Hands-Clean p q d h (λ ea. cc) (λ ea em. cc)
          (λ t em. subst (IsClean g) (let it : s ≡ t = cc in it) clean)
  ]

  default_enabled : (default_registry g).enabled ≡ true
  unfolding default_registry register
  default_enabled = refl

  set-Clean :
      (files : Dict Content) (k p : String) (v c : Content)
      → ((j : String) (d : Content) → Dict.get files j ≡ some d → IsCleanContent g d)
      → IsCleanContent g v
      → Dict.get (Dict.set files k v) p ≡ some c
      → IsCleanContent g c
  set-Clean files k p v c clean new at = elim (Bool-cases (k == p)) [
    | inl y ↦
        let at_k : Dict.get (Dict.set files k v) p ≡ some v = get-set files k p v ∙ rw y refl in
        subst (IsCleanContent g) (let same : v ≡ c = cc in same) new
    | inr n ↦
        let past : Dict.get (Dict.set files k v) p ≡ Dict.get files p =
          get-set files k p v ∙ rw n refl in
        clean p c (sym past ∙ at)
  ]

  remove-Clean :
      (files : Dict Content) (k p : String) (c : Content)
      → ((j : String) (d : Content) → Dict.get files j ≡ some d → IsCleanContent g d)
      → Dict.get (Dict.remove files k) p ≡ some c
      → IsCleanContent g c
  remove-Clean files k p c clean at = elim (Bool-cases (k == p)) [
    | inl y ↦
        let gone : Dict.get (Dict.remove files k) p ≡ none = get-remove files k p ∙ rw y refl in cc
    | inr n ↦
        let past : Dict.get (Dict.remove files k) p ≡ Dict.get files p =
          get-remove files k p ∙ rw n refl in
        clean p c (sym past ∙ at)
  ]

  answer_of-failed : (m : String) → (answer_of (failed m)).modified_content ≡ none
  answer_of-failed m = elim (Bool-cases (is_in "unreachable" m)) [
    | inl y ↦ rw y refl
    | inr n ↦ rw n refl
  ]

  module _
      (honest : (client : Payload → Verdict) (p : Payload) (s : String)
        → g.client ≡ some client
        → client p ≡ redact (some s)
        → IsClean g s) where
    answer-Clean :
        (client : Payload → Verdict) (p : Payload) (v : Verdict) (s : String)
        → g.client ≡ some client
        → client p ≡ v
        → (answer_of v).modified_content ≡ some s
        → IsClean g s
    answer-Clean client p (block m) s at said e = cc
    answer-Clean client p (redact none) s at said e = cc
    answer-Clean client p (redact (some t)) s at said e =
        subst (IsClean g) (let same : t ≡ s = cc in same) (honest client p t at said)
    answer-Clean client p allow_verdict s at said e = cc
    answer-Clean client p (other m) s at said e = cc
    answer-Clean client p (failed m) s at said e =
        (let bad : none ≡ some s = sym (answer_of-failed m) ∙ e in cc)

    guard-Clean :
        (c : Option (Payload → Verdict)) (p q : Payload) (d : HookDecision)
        → g.client ≡ c
        → evaluate c p ≡ decided d
        → Hands d p q
        → CleanPayload g p
        → CleanPayload g q
    unfolding evaluate
    guard-Clean none p q d at e h clean =
        Hands-Clean p q d h (λ _. clean) (λ _ _. clean) (λ s em. cc)
    guard-Clean (some client) p q d at e h clean =
        let same : d ≡ answer_of (client p) = cc in
        Hands-Clean p q d h (λ _. clean) (λ _ _. clean)
          (λ s em.
            answer-Clean client p (client p) s at refl
              (ap (λ x. x.modified_content) (sym same) ∙ em))

    -- What the handlers of the default registry hand on is clean.
    passed-Clean :
        (p q : Payload) → Passes ((default_registry g).handlers pre_write) p q → CleanPayload g q
    unfolding default_registry register
    passed-Clean p q (step d1 e1 h1 (step d2 e2 h2 (step d3 e3 h3 done))) =
        guard-Clean g.client _ _ d3 refl e3 h3 (scrub-Clean _ _ d2 e2 h2)

    -- The hooks let nothing be written but clean texts.
    asked-Clean :
        (w : SafeWriter) (rel content : String) (d : HookDecision)
        → w.registry ≡ some (default_registry g)
        → ask w "write" rel (some content) ≡ ok d
        → IsClean g (apply_modify d content)
    asked-Clean w rel content d has e =
        let p = payload_for "write" rel (some content) in
        let (same, fine) =
          subst (λ x. Agrees x (emit (default_registry g) pre_write p)) e
            (ask-Agrees w (default_registry g) "write" rel (some content) has default_enabled) in
        let (q, passed, handed) =
          (emit-Passes (default_registry g) pre_write p default_enabled).0
            (subst (λ x. allowed x ≡ true) same fine) in
        passed-Clean p q passed (apply_modify d content) (
          sym handed
          ∙ sym (ap (λ x. content_of x p) same)
          ∙ content_of-apply d.action d.modified_content rel content)

    Change-Clean :
        (w : SafeWriter) (resolve : String → String) (files files' : Dict Content)
        → w.registry ≡ some (default_registry g)
        → Change resolve w files files'
        → ((p : String) (c : Content) → Dict.get files p ≡ some c → IsCleanContent g c)
        → (p : String) (c : Content) → Dict.get files' p ≡ some c
        → IsCleanContent g c
    Change-Clean w resolve files files' has unchanged clean p c at = clean p c at
    Change-Clean w resolve files files' has (wrote_text path target content d e a) clean p c at =
        set-Clean files target p _ c clean (asked-Clean w _ content d has a) at
    Change-Clean w resolve files files' has (wrote_bytes path target data_ e) clean p c at =
        set-Clean files target p _ c clean tt at
    Change-Clean w resolve files files' has (removed path target e) clean p c at =
        remove-Clean files target p c clean at

  -- Let the substitution leave no secret in what it changes, and let fusion-guard, where it is asked,
  -- redact to texts without a secret. Then whatever calls a writer with the default hooks gets, in any
  -- order, none of them leaves a text with a secret in a file, if there was none before. What
  -- `write_bytes` writes is not looked at.
  pub perform_all-Clean :
      (resolve : String → String) (w : SafeWriter) (cs : List Call) (disk : Disk)
      → w.registry ≡ some (default_registry g)
      → ((client : Payload → Verdict) (p : Payload) (s : String)
          → g.client ≡ some client
          → client p ≡ redact (some s)
          → IsClean g s)
      → IsCleanDisk g disk
      → IsCleanDisk g (perform_all resolve w disk cs)
  unfolding perform_all
  perform_all-Clean resolve w [] disk has honest clean = clean
  perform_all-Clean resolve w (c ∷ cs) disk has honest clean =
      perform_all-Clean resolve w cs (perform resolve w disk c) has honest
        (Change-Clean honest w resolve disk.files _ has (perform-Change resolve w disk c) clean)
