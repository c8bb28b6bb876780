-- ===== src/Agent/Writer/Laws.antt =====
-- What a write through core/safe_writer.py does to the disk, by what the hooks answer, and that a
-- strict writer stays inside its project.
use Prim.Native.String.{◌++◌ as ◌+++◌}
use fusion_code_modelization.Common.{
  ◌≡◌, refl, sym, ap, subst, ◌⊎◌, inl, inr, true, false, Option, none, some, List, [], ◌∷◌, not,
  String, ◌||◌, Bool-cases,
}
use fusion_code_modelization.Common.Dict
use fusion_code_modelization.Common.Dict.{get-set, get-remove}
use fusion_code_modelization.Sandbox.Paths.{is_within}
use fusion_code_modelization.Agent.Hooks.{
  pre_write, HookAction, allow, deny, modify, HookDecision, is_deny, or_allow, allowed, Payload,
  Ran, decided, raised, HookHandler, HookRegistry, follow, follow_ran, emit_to, emit,
}
use fusion_code_modelization.Agent.Hooks.Laws.{content_of, content_after, emit_on}
use fusion_code_modelization.Agent.Writer.{
  as_text, Disk, SafeWriter, Result, ok, unsafe, Asked, anchored, resolve_within, rel_of,
  ask_follow, ask_ran, ask_each, payload_for, ask, apply_modify, modified_or, put_asked,
  on_resolved, put_file, write_text,
}

-- The writer's own loop over the handlers says what `emit` says, and raises where that denies.
abbrev pub Agrees : Asked → HookDecision → Type 0
Agrees (ok d) e = (d ≡ e) × (allowed d ≡ true)
Agrees (unsafe m) e = allowed e ≡ false

module _ (what : String) (p : Payload) (final : Option HookDecision)
    (f : Payload → Option HookDecision → Asked) (g : Payload → Option HookDecision → HookDecision)
    (fine : allowed (or_allow final) ≡ true)
    (h : (p' : Payload) (final' : Option HookDecision)
      → allowed (or_allow final') ≡ true
      → Agrees (f p' final') (g p' final')) where
  follow-Agrees :
      (a : HookAction) (m : Option String) (d : HookDecision)
      → d.action ≡ a
      → Agrees (ask_follow a m d what p final f) (follow a m d p final g)
  follow-Agrees deny m d e = rw e refl
  follow-Agrees allow m d e = h p final fine
  follow-Agrees modify none d e = h p final fine
  follow-Agrees modify (some c) d e = h _ (some d) (ap (λ a. not (is_deny a)) e)

  ran-Agrees :
      (x : Ran) (name : String)
      → Agrees (ask_ran x name what p final f) (follow_ran x name p final g)
  ran-Agrees (raised e) name = refl
  ran-Agrees (decided d) name = follow-Agrees d.action d.modified_content d refl

ask_each-Agrees :
    (hs : List HookHandler) (what : String) (p : Payload) (final : Option HookDecision)
    → allowed (or_allow final) ≡ true
    → Agrees (ask_each hs what p final) (emit_to hs p final)
unfolding ask_each emit_to
ask_each-Agrees [] what p final fine = (refl, fine)
ask_each-Agrees (h ∷ hs) what p final fine =
    ran-Agrees what p final (ask_each hs what) (emit_to hs) fine (ask_each-Agrees hs what)
      (h.execute p) h.name

pub ask-Agrees :
    (w : SafeWriter) (r : HookRegistry) (action rel : String) (content : Option String)
    → w.registry ≡ some r
    → r.enabled ≡ true
    → Agrees (ask w action rel content) (emit r pre_write (payload_for action rel content))
unfolding ask
ask-Agrees w r action rel content has on =
    let p = payload_for action rel content in
    let asked : ask w action rel content
        ≡ ask_each (r.handlers pre_write) (action +++ " " +++ rel) p none =
      rw (has, on) refl in
    subst (λ x. Agrees x (emit r pre_write p)) (sym asked)
      (subst (Agrees (ask_each (r.handlers pre_write) (action +++ " " +++ rel) p none))
        (sym (emit_on r pre_write p on)) (ask_each-Agrees (r.handlers pre_write) _ p none refl))

-- How `write_text` ends: it has stored the content that the hooks hand on, and nothing else, or it has
-- raised and left the disk as it was.
pub data WriteCase (w : SafeWriter) (disk : Disk) (target : String) (p : Payload) (d : HookDecision)
    : Disk × Result String → Type 0 where
  stored :
      (c : String) (dirs : List String)
      → not w.strict || is_within target w.project_root ≡ true
      → allowed d ≡ true
      → content_of d p ≡ some c
      → WriteCase w disk target p d
          (record { files = Dict.set disk.files target (as_text c); dirs = dirs }, ok target)
  escapes :
      (m : String)
      → w.strict ≡ true
      → is_within target w.project_root ≡ false
      → WriteCase w disk target p d (disk, unsafe m)
  denied : (m : String) → allowed d ≡ false → WriteCase w disk target p d (disk, unsafe m)

pub content_of-apply :
    (a : HookAction) (m : Option String) (rel content : String)
    → content_after a m (payload_for "write" rel (some content)) ≡ some (modified_or a m content)
unfolding Dict.get
content_of-apply modify (some c) rel content = refl
content_of-apply modify none rel content = refl
content_of-apply allow m rel content = refl
content_of-apply deny m rel content = refl

module _ (resolve : String → String) (w : SafeWriter) (path : String) where
  abbrev pub target_of : String
  target_of = resolve (anchored w path)

  -- A path is resolved to its target, or a strict writer refuses it.
  pub resolve_cases :
      ((resolve_within resolve w path ≡ ok target_of)
        × (not w.strict || is_within target_of w.project_root ≡ true))
      ⊎ ((m : String) × (resolve_within resolve w path ≡ unsafe m)
          × (w.strict ≡ true)
          × (is_within target_of w.project_root ≡ false))
  unfolding resolve_within
  resolve_cases = elim (Bool-cases w.strict) [
    | inr lax ↦ rw lax (inl (refl, refl))
    | inl strict ↦ elim (Bool-cases (is_within target_of w.project_root)) [
      | inl inside ↦ rw (strict, inside) (inl (refl, refl))
      | inr outside ↦ rw (strict, outside) (inr (_, refl, refl, refl))
    ]
  ]

module _ (resolve : String → String) (w : SafeWriter) (disk : Disk) (path : String) where
  abbrev target : String
  target = target_of resolve w path

  asked_case :
      (content : String) (e : HookDecision) (x : Asked)
      → not w.strict || is_within target w.project_root ≡ true
      → Agrees x e
      → WriteCase w disk target
          (payload_for "write" (rel_of w target) (some content))
          e
          (put_asked disk target (λ d. as_text (apply_modify d content)) x)
  asked_case content e (unsafe m) inside no_way = denied m no_way
  asked_case content e (ok d) inside (same, fine) =
      subst
        (λ x.
          WriteCase w disk target (payload_for "write" (rel_of w target) (some content)) x
            (put_file disk target (as_text (apply_modify d content)), ok target))
        same
        (stored (apply_modify d content) _ inside fine
          (content_of-apply d.action d.modified_content (rel_of w target) content))

  -- With hooks that are enabled, `write_text` ends in one of three ways. It stores, under the path's
  -- target, the content that `emit` of the registry hands on for this write, where `emit` allows it and
  -- the target is inside the project or the writer is not strict. Otherwise it raises and leaves the
  -- disk as it is: because the writer is strict and the target outside, or because `emit` denies.
  pub write_text-emit :
      (content : String) (r : HookRegistry)
      → w.registry ≡ some r
      → r.enabled ≡ true
      → WriteCase w disk target
          (payload_for "write" (rel_of w target) (some content))
          (emit r pre_write (payload_for "write" (rel_of w target) (some content)))
          (write_text resolve w disk path content)
  unfolding write_text
  write_text-emit content r has on =
      let p = payload_for "write" (rel_of w target) (some content) in
      let act = λ (resolved : String).
        put_asked disk resolved (λ d. as_text (apply_modify d content))
          (ask w "write" (rel_of w resolved) (some content)) in
      elim (resolve_cases resolve w path) [
        | inl (e, inside) ↦
            subst (λ x. WriteCase w disk target p (emit r pre_write p) (on_resolved disk x act))
              (sym e)
              (asked_case content (emit r pre_write p) _ inside
                (ask-Agrees w r "write" (rel_of w target) (some content) has on))
        | inr (m, e, strict, outside) ↦
            subst (λ x. WriteCase w disk target p (emit r pre_write p) (on_resolved disk x act))
              (sym e) (escapes m strict outside)
      ]
