-- ===== src/Agent/Loop/Laws.antt =====
-- What a run of core/agent_loop.py ends with.
use fusion_code_modelization.Common.{
  ℕ, String, ◌≡◌, refl, ap, ◌⊎◌, inl, inr, true, false, Option, none, some, List, [], ◌∷◌,
  Bool-cases, Option-cases,
}
use fusion_code_modelization.Agent.Hooks.{post_llm, pre_exec}
use fusion_code_modelization.Agent.Loop.{
  completed, failed, LoopToolResult, ToolRan, returned, key_error, raised, LoopTool, LoopTrace,
  Answer, content, llm_error, AgentLoop, LoopVars, LoopResult, Next, again, over, chosen_tool,
  append_trace, note, ask_hooks, is_allowed, content_or, find_tool, judge, verify, run_tool,
  after_tool, answered, iterate,
}

-- The tool that is used exists, may run, and passes the text.
pub record IsChecked (l : AgentLoop) (produced name : String) : Type 0 where
  pub tool : LoopTool
  pub answer : LoopToolResult
  pub found : find_tool l.tools name ≡ some tool
  pub permitted :
      is_allowed (
        ask_hooks l.hooks pre_exec
          (("content", produced) ∷ ("tool", name) ∷ ("objective", l.objective) ∷ []))
      ≡ true
  pub ran : tool.execute produced ≡ returned answer
  pub passed : answer.passed ≡ true

-- The text was made from what the model answered in round `i`, which the hooks let pass, and the tool
-- that is used, if any, has passed it.
pub record IsVerified (l : AgentLoop) (i : ℕ) (produced : String) : Type 0 where
  pub prompt : String
  pub raw : String
  pub asked : l.chat i prompt ≡ content raw
  pub permitted :
      is_allowed (ask_hooks l.hooks post_llm (("content", raw) ∷ ("objective", l.objective) ∷ []))
      ≡ true
  pub extracted :
      produced
      ≡ l.extract (
          content_or
            (ask_hooks l.hooks post_llm (("content", raw) ∷ ("objective", l.objective) ∷ []))
            raw)
  pub checked :
      (chosen_tool l ≡ none)
      ⊎ ((name : String) × (chosen_tool l ≡ some name) × IsChecked l produced name)

abbrev pub Outcome :
    (LoopVars → Type 0) → (LoopResult → Option (List LoopTrace) → Type 0) → Next → Type 0
Outcome P Q (again v) = P v
Outcome P Q (over r file) = Q r file

-- The cases of a round: what holds after each kind of trace, of success and of the end without a tool,
-- holds of the round.
module _ (l : AgentLoop) (i : ℕ) (v : LoopVars) (P : LoopVars → Type 0)
    (Q : LoopResult → Option (List LoopTrace) → Type 0)
    (more : (o e : String) (t : LoopTrace)
      → P (record (note l (record v { last_output = o }) t) { last_error = some e }))
    (good : (o : String) (t : LoopTrace)
      → IsVerified l i o
      → Q
          (record {
            status = completed;
            result = o;
            verified = true;
            iterations = i;
            last_error = none;
            traces = (note l (record v { last_output = o }) t).traces;
          })
          (note l (record v { last_output = o }) t).trace_file)
    (bad : (e : String) (t : LoopTrace)
      → Q
          (record {
            status = failed;
            result = "";
            verified = false;
            iterations = i;
            last_error = some e;
            traces = v.traces;
          })
          (append_trace l.scrub_secrets v.trace_file t).1) where
  judged :
      (raw produced : String) (tool : Option String) (r : LoopToolResult)
      → (r.passed ≡ true → IsVerified l i produced)
      → Outcome P Q (judge l i v raw produced tool r)
  unfolding judge
  judged raw produced tool r h = elim (Bool-cases r.passed) [
    | inl y ↦ rw (y, judge) (good produced _ (h y))
    | inr n ↦ rw (n, judge) (more produced _ _)
  ]

  tool_ran :
      (raw produced name : String) (t : LoopTool) (x : ToolRan)
      → t.execute produced ≡ x
      → ((r : LoopToolResult) → x ≡ returned r → r.passed ≡ true → IsVerified l i produced)
      → Outcome P Q (after_tool l i v raw produced name x)
  tool_ran raw produced name t (returned r) e h = judged raw produced (some name) r (h r refl)
  tool_ran raw produced name t key_error e h = bad _ _
  tool_ran raw produced name t (raised m) e h = judged raw produced (some name) _ (λ b. cc)

  verified_round :
      (prompt raw raw' : String) (tool : Option String)
      → l.chat i prompt ≡ content raw
      → chosen_tool l ≡ tool
      → is_allowed (ask_hooks l.hooks post_llm (("content", raw) ∷ ("objective", l.objective) ∷ []))
        ≡ true
      → raw'
        ≡ content_or
            (ask_hooks l.hooks post_llm (("content", raw) ∷ ("objective", l.objective) ∷ []))
            raw
      → Outcome P Q (verify l i v raw' (l.extract raw') tool)
  unfolding verify
  verified_round prompt raw raw' none asked chosen ok made =
      judged raw' (l.extract raw') none _ (λ _. record {
        prompt = prompt;
        raw = raw;
        asked = asked;
        permitted = ok;
        extracted = ap l.extract made;
        checked = inl chosen;
      })
  verified_round prompt raw raw' (some name) asked chosen ok made =
      let produced = l.extract raw' in
      let d =
        ask_hooks l.hooks pre_exec
          (("content", produced) ∷ ("tool", name) ∷ ("objective", l.objective) ∷ []) in
      elim (Bool-cases (is_allowed d)) [
        | inl y ↦ rw y (elim (Option-cases (find_tool l.tools name)) [
          | inl missing ↦ rw (missing, run_tool) (bad _ _)
          | inr (t, found) ↦
              rw (found, run_tool)
                (tool_ran raw' produced name t (t.execute produced) refl (λ r e passed. record {
                  prompt = prompt;
                  raw = raw;
                  asked = asked;
                  permitted = ok;
                  extracted = ap l.extract made;
                  checked = inr (
                    name,
                    chosen,
                    record {
                      tool = t;
                      answer = r;
                      found = found;
                      permitted = y;
                      ran = e;
                      passed = passed;
                    },
                  );
                }))
        ])
        | inr n ↦ rw n (more produced _ _)
      ]

  answered_round :
      (prompt : String) (a : Answer) → l.chat i prompt ≡ a → Outcome P Q (answered l i v a)
  answered_round prompt (llm_error e) asked = more v.last_output _ _
  answered_round prompt (content raw) asked =
      let d = ask_hooks l.hooks post_llm (("content", raw) ∷ ("objective", l.objective) ∷ []) in
      elim (Bool-cases (is_allowed d)) [
        | inl y ↦
            rw y (verified_round prompt raw (content_or d raw) (chosen_tool l) asked refl y refl)
        | inr n ↦ rw n (more v.last_output _ _)
      ]

  pub iterate_cases : Outcome P Q (iterate l i v)
  unfolding iterate
  iterate_cases = answered_round _ _ refl
