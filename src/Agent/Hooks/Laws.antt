-- ===== src/Agent/Hooks/Laws.antt =====
-- When the hooks of core/hooks.py let an action pass, and with what content.
use fusion_code_modelization.Common.{
  ◌≡◌, refl, sym, true, false, Option, none, some, List, [], ◌∷◌, not, String, ap, ◌∙◌,
  if◌then◌else◌, same_text, subst,
}
use mathlib.Core.Logic.{◌↔◌}
use fusion_code_modelization.Common.Dict
use fusion_code_modelization.Common.Dict.{get-set}
use fusion_code_modelization.Agent.Hooks.{
  HookEvent, HookAction, allow, deny, modify, HookDecision, is_deny, allowed, plain, Payload, Ran,
  decided, raised, HookHandler, HookRegistry, with_content, follow, follow_ran, or_allow, emit_to,
  emit,
}

-- `d` passes the payload on, changed where it modifies.
pub data Hands (d : HookDecision) (payload : Payload) : Payload → Type 0 where
  as_is : d.action ≡ allow → Hands d payload payload
  empty_modify : d.action ≡ modify → d.modified_content ≡ none → Hands d payload payload
  changed :
      (content : String)
      → d.action ≡ modify
      → d.modified_content ≡ some content
      → Hands d payload (with_content payload content)

-- The handlers pass the payload on, one after the other, and none denies or raises.
pub data Passes : List HookHandler → Payload → Payload → Type 0 where
  done : {p : Payload} → Passes [] p p
  step :
      {h : HookHandler} {hs : List HookHandler} {p q r : Payload} (d : HookDecision)
      → h.execute p ≡ decided d
      → Hands d p q
      → Passes hs q r
      → Passes (h ∷ hs) p r

-- The content that a caller goes on with: the modified one, or that of its own payload.
abbrev pub content_after : HookAction → Option String → Payload → Option String
content_after modify (some content) p = some content
content_after modify none p = Dict.get p "content"
content_after allow content p = Dict.get p "content"
content_after deny content p = Dict.get p "content"

abbrev pub content_of : HookDecision → Payload → Option String
content_of d p = content_after d.action d.modified_content p

pub content_with :
    (p : Payload) (content : String) → Dict.get (with_content p content) "content" ≡ some content
content_with p content =
    get-set p "content" "content" content
    ∙ ap (λ b. if b then some content else Dict.get p "content") (same_text "content")

content_of-modify :
    (d : HookDecision) (p : Payload) (content : String)
    → d.action ≡ modify
    → d.modified_content ≡ some content
    → content_of d p ≡ some content
content_of-modify d p content ea em = rw (ea, em, content_after)

-- What is shown of the end of the loop: the handlers have passed the payload on to `q`.
abbrev Passed : List HookHandler → Payload → Payload → HookDecision → Type 0
Passed hs p start d = (q : Payload) × Passes hs p q × (content_of d start ≡ Dict.get q "content")

module _ (h : HookHandler) (hs : List HookHandler) (p start : Payload) (final : Option HookDecision)
    (later : (p' : Payload) (final' : Option HookDecision)
      → allowed (emit_to hs p' final') ≡ true
      → content_of (or_allow final') start ≡ Dict.get p' "content"
      → Passed hs p' start (emit_to hs p' final')) where
  followed :
      (d : HookDecision) (a : HookAction) (m : Option String)
      → h.execute p ≡ decided d
      → d.action ≡ a
      → d.modified_content ≡ m
      → content_of (or_allow final) start ≡ Dict.get p "content"
      → allowed (follow a m d p final (emit_to hs)) ≡ true
      → Passed (h ∷ hs) p start (follow a m d p final (emit_to hs))
  followed d deny m e ea em c ok = (let bad : false ≡ true = rw ea at ok in cc)
  followed d allow m e ea em c ok =
      let (q, rest, same) = later p final ok c in (q, step d e (as_is ea) rest, same)
  followed d modify none e ea em c ok =
      let (q, rest, same) = later p final ok c in (q, step d e (empty_modify ea em) rest, same)
  followed d modify (some content) e ea em c ok =
      let (q, rest, same) =
        later (with_content p content) (some d) ok
          (content_of-modify d start content ea em ∙ sym (content_with p content)) in
      (q, step d e (changed content ea em) rest, same)

  followed_ran :
      (x : Ran)
      → h.execute p ≡ x
      → content_of (or_allow final) start ≡ Dict.get p "content"
      → allowed (follow_ran x h.name p final (emit_to hs)) ≡ true
      → Passed (h ∷ hs) p start (follow_ran x h.name p final (emit_to hs))
  followed_ran (raised m) e c ok = cc
  followed_ran (decided d) e c ok = followed d d.action d.modified_content e refl refl c ok

emit_to-Passed :
    (hs : List HookHandler) (p start : Payload) (final : Option HookDecision)
    → allowed (emit_to hs p final) ≡ true
    → content_of (or_allow final) start ≡ Dict.get p "content"
    → Passed hs p start (emit_to hs p final)
unfolding emit_to
emit_to-Passed [] p start final ok c = (p, done, c)
emit_to-Passed (h ∷ hs) p start final ok c =
    followed_ran h hs p start final (λ p' final'. emit_to-Passed hs p' start final') (h.execute p)
      refl c ok

handed_allowed :
    (d : HookDecision) (p q : Payload) (final : Option HookDecision)
    (rest : Payload → Option HookDecision → HookDecision)
    → Hands d p q
    → ((final' : Option HookDecision)
        → allowed (or_allow final') ≡ true
        → allowed (rest q final') ≡ true)
    → allowed (or_allow final) ≡ true
    → allowed (follow d.action d.modified_content d p final rest) ≡ true
handed_allowed d p q final rest (as_is ea) k ok = rw (ea, follow) (k final ok)
handed_allowed d p q final rest (empty_modify ea em) k ok = rw (ea, em, follow) (k final ok)
handed_allowed d p q final rest (changed content ea em) k ok =
    subst (λ a. allowed (follow a d.modified_content d p final rest) ≡ true) (sym ea)
      (subst (λ m. allowed (follow modify m d p final rest) ≡ true) (sym em)
        (k (some d) (ap (λ a. not (is_deny a)) ea)))

emit_to_allowed :
    {hs : List HookHandler} {p q : Payload} (final : Option HookDecision)
    → Passes hs p q
    → allowed (or_allow final) ≡ true
    → allowed (emit_to hs p final) ≡ true
unfolding emit_to
emit_to_allowed final done ok = ok
emit_to_allowed final (step {h = h} {hs = hs} {p = p} {q = q} d e hands more) ok =
    subst (λ x. allowed (follow_ran x h.name p final (emit_to hs)) ≡ true) (sym e)
      (handed_allowed d p q final (emit_to hs) hands (λ final'. emit_to_allowed final' more) ok)

pub emit_on :
    (r : HookRegistry) (event : HookEvent) (p : Payload)
    → r.enabled ≡ true
    → emit r event p ≡ emit_to (r.handlers event) p none
unfolding emit
emit_on r event p on =
    ap (λ b. if not b then plain allow "hooks_disabled" else emit_to (r.handlers event) p none) on

-- With the hooks enabled, an event passes exactly if each handler of the event, in the order of
-- registration, returns a decision that is no denial on the payload as the handlers before it have
-- left it. The content that the caller goes on with is then that of the payload that the last handler
-- has passed on.
pub emit-Passes :
    (r : HookRegistry) (event : HookEvent) (p : Payload)
    → r.enabled ≡ true
    → allowed (emit r event p) ≡ true ↔ (
        (q : Payload) × Passes (r.handlers event) p q
        × (content_of (emit r event p) p ≡ Dict.get q "content"))
emit-Passes r event p on = rw (emit_on r event p on) (
  λ ok. emit_to-Passed (r.handlers event) p p none ok refl,
  λ passed. emit_to_allowed none passed.1 refl,
)
