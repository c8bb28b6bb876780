-- ===== src/Agent/Loop/Runs.antt =====
-- Whole runs of core/agent_loop.py: what a verified result is, how many rounds there are, and what the
-- trace file holds.
use fusion_code_modelization.Common.{
  ℕ, zero, suc, ◌+◌, ◌≤◌, ◌<◌, String, ◌≡◌, refl, sym, ap, ◌∙◌, subst, ◌⊎◌, inl, inr, true, false,
  Option, none, some, List, All, All-append, length, length-append, arith,
}
use fusion_code_modelization.Agent.Loop.{
  LoopStatus, completed, failed, LoopTrace, AgentLoop, LoopVars, LoopResult, Next, again, over,
  append_trace, note, iterate, exhausted, rounds_from, run,
}
use fusion_code_modelization.Agent.Loop.Laws.{IsVerified, Outcome, iterate_cases}

-- A run of `n` rounds from round `i` ends in one of them, or has used them all.
abbrev Final :
    (l : AgentLoop) (P : ℕ → LoopVars → Type 0)
    (Q : ℕ → LoopResult → Option (List LoopTrace) → Type 0)
    → ℕ
    → ℕ
    → LoopResult × Option (List LoopTrace)
    → Type 0
Final l P Q n i r =
    ((j : ℕ) × (j < i + n) × Q j r.0 r.1)
    ⊎ ((v : LoopVars) × P (i + n) v × (r ≡ (exhausted l v, v.trace_file)))

module _ (l : AgentLoop) (P : ℕ → LoopVars → Type 0)
    (Q : ℕ → LoopResult → Option (List LoopTrace) → Type 0)
    (each : (i : ℕ) (v : LoopVars) → P i v → Outcome (P (i + 1)) (Q i) (iterate l i v)) where
  Final-later :
      (n i : ℕ) (r : LoopResult × Option (List LoopTrace))
      → Final l P Q n (i + 1) r
      → Final l P Q (suc n) i r
  Final-later n i r (inl (j, below, q)) = inl (j, omega (arith, below), q)
  Final-later n i r (inr (v, p, e)) =
      inr (v, subst (λ k. P k v) (let same : i + 1 + n ≡ i + suc n = omega arith in same) p, e)

  after_round :
      (n i : ℕ) (v : LoopVars) (x : Next)
      → iterate l i v ≡ x
      → Outcome (P (i + 1)) (Q i) x
      → ((v' : LoopVars) → P (i + 1) v' → Final l P Q n (i + 1) (rounds_from l n (i + 1) v'))
      → Final l P Q (suc n) i (rounds_from l (suc n) i v)
  unfolding rounds_from
  after_round n i v (again v') e o k = rw (e, rounds_from) (Final-later n i _ (k v' o))
  after_round n i v (over r file) e o k = rw (e, rounds_from) (inl (i, omega arith, o))

  rounds_rule : (n i : ℕ) (v : LoopVars) → P i v → Final l P Q n i (rounds_from l n i v)
  unfolding rounds_from
  rounds_rule zero i v p =
      inr (v, subst (λ k. P k v) (let same : i ≡ i + zero = omega arith in same) p, refl)
  rounds_rule (suc n) i v p =
      after_round n i v (iterate l i v) refl (each i v p) (λ v' p'. rounds_rule n (i + 1) v' p')

-- How many of the rounds are missing in the list of traces.
abbrev pub untraced : LoopStatus → ℕ
untraced failed = 1
untraced _ = 0

module _ (l : AgentLoop) (file : Option (List LoopTrace)) where
  abbrev Begun : ℕ → LoopVars → Type 0
  Begun i v = 1 ≤ i

  abbrev Sound : ℕ → LoopResult → Option (List LoopTrace) → Type 0
  Sound i r f =
      (r.iterations ≡ i)
      × (1 ≤ i)
      × ((r.verified ≡ false) ⊎ ((r.status ≡ completed) × IsVerified l i r.result))

  Sound-round :
      (i : ℕ) (v : LoopVars) → Begun i v → Outcome (Begun (i + 1)) (Sound i) (iterate l i v)
  Sound-round i v h =
      iterate_cases l i v (Begun (i + 1)) (Sound i) (λ o e t. omega (arith, h))
        (λ o t ok. (refl, h, inr (refl, ok))) (λ e t. (refl, h, inl refl))

  Sound-end :
      (r : LoopResult × Option (List LoopTrace))
      → Final l Begun Sound l.max_iter 1 r
      → r.0.verified ≡ true
      → (1 ≤ r.0.iterations)
        × (r.0.iterations ≤ l.max_iter)
        × (r.0.status ≡ completed)
        × IsVerified l r.0.iterations r.0.result
  Sound-end r (inl (j, below, (at_j, first, inl unverified))) h = cc
  Sound-end r (inl (j, below, (at_j, first, inr (st, ok)))) h = (
    omega (arith, at_j, first),
    omega (arith, at_j, below),
    st,
    subst (λ k. IsVerified l k r.0.result) (sym at_j) ok,
  )
  Sound-end r (inr (v, p, e)) h =
      (let bad : false ≡ true = ap (λ x. x.0.verified) (sym e) ∙ h in cc)

  -- A result that is reported as verified comes from one of the rounds 1 to `max_iter`: it was made
  -- from what the model answered there, the hooks let that answer pass, and the tool that is used, if
  -- any, is there, was permitted by the hooks, and has passed the result. The status is `completed`.
  pub run-IsVerified :
      (run l file).0.verified ≡ true
      → (1 ≤ (run l file).0.iterations)
        × ((run l file).0.iterations ≤ l.max_iter)
        × ((run l file).0.status ≡ completed)
        × IsVerified l (run l file).0.iterations (run l file).0.result
  unfolding run
  run-IsVerified h =
      Sound-end (run l file) (rounds_rule l Begun Sound Sound-round l.max_iter 1 _ (omega arith)) h

  abbrev Counted : ℕ → LoopVars → Type 0
  Counted i v = length v.traces + 1 ≡ i

  abbrev Traced : ℕ → LoopResult → Option (List LoopTrace) → Type 0
  Traced i r f = (r.iterations ≡ i) × (length r.traces + untraced r.status ≡ i)

  length-note : (v : LoopVars) (t : LoopTrace) → length (note l v t).traces ≡ length v.traces + 1
  unfolding note
  length-note v t = length-append v.traces _

  Counted-round :
      (i : ℕ) (v : LoopVars) → Counted i v → Outcome (Counted (i + 1)) (Traced i) (iterate l i v)
  Counted-round i v h =
      iterate_cases l i v (Counted (i + 1)) (Traced i)
        (λ o e t. omega (arith, h, length-note (record v { last_output = o }) t))
        (λ o t ok. (refl, omega (arith, h, length-note (record v { last_output = o }) t)))
        (λ e t. (refl, h))

  Counted-end :
      (r : LoopResult × Option (List LoopTrace))
      → Final l Counted Traced l.max_iter 1 r
      → (r.0.iterations ≤ l.max_iter) × (length r.0.traces + untraced r.0.status ≡ r.0.iterations)
  Counted-end r (inl (j, below, (at_j, count))) = (omega (arith, at_j, below), count ∙ sym at_j)
  Counted-end r (inr (v, p, e)) = rw e (omega arith, omega (arith, p))

  -- A run takes at most `max_iter` rounds and leaves a trace of each of them in its result, except of
  -- a last round that fails for want of the tool.
  pub run_traces :
      ((run l file).0.iterations ≤ l.max_iter)
      × (length (run l file).0.traces + untraced (run l file).0.status ≡ (run l file).0.iterations)
  unfolding run
  run_traces =
      Counted-end (run l file) (rounds_rule l Counted Traced Counted-round l.max_iter 1 _ refl)

-- What the trace shows of the model and of the tool went through `scrub_secrets`.
abbrev pub IsScrubbed : (String → String) → LoopTrace → Type 0
IsScrubbed scrub t =
    ((a : String) × (t.llm_response ≡ scrub a)) × ((b : String) × (t.tool_output ≡ scrub b))

abbrev pub ScrubbedFile : (String → String) → Option (List LoopTrace) → Type 0
ScrubbedFile scrub none = ⊥
ScrubbedFile scrub (some ts) = All (IsScrubbed scrub) ts

module _ (l : AgentLoop) (file : List LoopTrace) where
  abbrev Clean : Option (List LoopTrace) → Type 0
  Clean f = ScrubbedFile l.scrub_secrets f

  append-Clean :
      (f : Option (List LoopTrace)) (t : LoopTrace)
      → Clean f
      → Clean (append_trace l.scrub_secrets f t).1
  append-Clean none t h = h
  append-Clean (some ts) t h =
      All-append (IsScrubbed l.scrub_secrets) ts _ h
        (((t.llm_response, refl), (t.tool_output, refl)), tt)

  note-Clean : (v : LoopVars) (t : LoopTrace) → Clean v.trace_file → Clean (note l v t).trace_file
  unfolding note
  note-Clean v t h = append-Clean v.trace_file t h

  Clean-round :
      (i : ℕ) (v : LoopVars)
      → Clean v.trace_file
      → Outcome (λ v'. Clean v'.trace_file) (λ r f. Clean f) (iterate l i v)
  Clean-round i v h =
      iterate_cases l i v (λ v'. Clean v'.trace_file) (λ r f. Clean f)
        (λ o e t. note-Clean (record v { last_output = o }) t h)
        (λ o t ok. note-Clean (record v { last_output = o }) t h)
        (λ e t. append-Clean v.trace_file t h)

  Clean-end :
      (r : LoopResult × Option (List LoopTrace))
      → Final l (λ i v. Clean v.trace_file) (λ i r f. Clean f) l.max_iter 1 r
      → Clean r.1
  Clean-end r (inl (j, below, q)) = q
  Clean-end r (inr (v, p, e)) = rw e p

  -- Where a trace file is written and its lines are scrubbed before a run, they are scrubbed after it:
  -- no answer of the model and no output of a tool reaches the file but through `scrub_secrets`.
  pub run-ScrubbedFile :
      All (IsScrubbed l.scrub_secrets) file → ScrubbedFile l.scrub_secrets (run l (some file)).1
  unfolding run
  run-ScrubbedFile h =
      Clean-end (run l (some file))
        (rounds_rule l (λ i v. Clean v.trace_file) (λ i r f. Clean f) Clean-round l.max_iter 1 _ h)
