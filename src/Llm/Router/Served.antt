-- ===== src/Llm/Router/Served.antt =====
-- What a completion returns, raises and emits.
use mathlib.Core.List.{append-nil}
use moreofchat.Prelude.{
  ◌==◌, ◌&&◌, ap, ◌∙◌, ℕ, suc, ◌+◌, ◌≤◌, ◌<◌, String, Option, none, some, List, [], ◌∷◌, ◌++◌,
  if◌then◌else◌, Bool, true, false, ◌≡◌, refl, sym, ◌≢◌, ◌⊎◌, inl, inr, arith, length, Option-cases,
  get_or,
}
use moreofchat.Result.{Result, ok, err}
use moreofchat.Dict.{get}
use moreofchat.Llm.Base.{
  Completion, UsageEvent, LlmError, unknown_task, key_error, provider_error, Reply, completed,
  failed,
}
use moreofchat.Llm.Router.{
  Breaker, is_open, Candidate, TaskSpec, Router, Attempt, Run, Step, skip, done, settle,
  try_breaker, try_candidate, try_all, candidates_of, allowed, start, complete, proceed,
  mark_degraded, event_of, embed,
}

-- The run's events once a completion is out: its own event, where the router has a sink.
abbrev pub events : Router → String → Result LlmError Completion → List UsageEvent
events router task (ok c) = if router.sink then event_of task c ∷ [] else []
events router task (err x) = []

abbrev step_events : Router → String → Step → List UsageEvent
step_events router task skip = []
step_events router task (done outcome) = events router task outcome

module _ (router : Router) (task : String) (max_tokens : ℕ) where
  -- How trying one candidate ends.
  record Ended (first : Bool) (a : Attempt) (run : Run) (out : Run × Step) : Type 0 where
    emitted : out.0.emitted ≡ run.emitted ++ step_events router task out.1
    served :
        (c : Completion)
        → out.1 ≡ done (ok c)
        → (r : Completion) × (a.reply ≡ completed r) × (c ≡ (if first then r else mark_degraded r))
    raised : (x : ℕ) → out.1 ≡ done (err (provider_error x)) → a.reply ≡ failed x

  try_breaker-Ended :
      (first : Bool) (c : Candidate) (name : String) (b : Breaker) (a : Attempt) (run : Run)
      → Ended first a run (try_breaker router task max_tokens first c name b a run)
  unfolding try_breaker settle
  try_breaker-Ended first c name b a run = record {
    emitted = ground (arith, append-nil run.emitted);
    served = λ c h. ground (arith, h);
    raised = λ x h. ground (arith, h);
  }

  try_candidate-Ended :
      (first : Bool) (c : Candidate) (a : Attempt) (run : Run)
      → Ended first a run (try_candidate router task max_tokens first c a run)
  unfolding try_candidate
  try_candidate-Ended first c a run = elim (Option-cases (get c.provider router.providers)) [
    | inl missing ↦ rw (missing, try_candidate) (raised_at unknown_task (λ x e. cc))
    | inr (name, there) ↦
        rw (there, try_candidate)
          (elim (Option-cases (get name run.breakers)) [
            | inl nameless ↦ rw nameless (raised_at key_error (λ x e. cc))
            | inr (b, found) ↦ rw found (try_breaker-Ended first c name b a run)
          ])
  ]
    where
      raised_at :
          (e : LlmError) → ((x : ℕ) → e ≢ provider_error x) → Ended first a run (run, done (err e))
      raised_at e h = record {
        emitted = sym (append-nil run.emitted);
        served = λ c p. absurd (ground (arith, p));
        raised = λ x p. absurd (ground (arith, h x, p));
      }

  -- How the loop ends, over the replies that the outside gives from position `i` on.
  record Concluded (first : Bool) (cs : List Candidate) (world : ℕ → Attempt) (i : ℕ) (run : Run)
      (out : Run × Result LlmError Completion) : Type 0 where
    emitted : out.0.emitted ≡ run.emitted ++ events router task out.1
    served :
        (c : Completion)
        → out.1 ≡ ok c
        → (j : ℕ) × (r : Completion) × (i ≤ j)
          × (j < i + length cs)
          × ((world j).reply ≡ completed r)
          × (c ≡ (if first && j == i then r else mark_degraded r))
    raised :
        (x : ℕ)
        → out.1 ≡ err (provider_error x)
        → (j : ℕ) × (i ≤ j) × (j < i + length cs) × ((world j).reply ≡ failed x)

  try_all-Concluded :
      (first : Bool) (cs : List Candidate) (world : ℕ → Attempt) (i : ℕ) (run : Run)
      → Concluded first cs world i run (try_all router task max_tokens first cs world i run)
  unfolding try_all
  try_all-Concluded first [] world i run = record {
    emitted = sym (append-nil run.emitted);
    served = λ c h. absurd (ground (arith, h));
    raised = λ x h. absurd (ground (arith, h));
  }
  try_all-Concluded first (c ∷ cs) world i run =
      go (try_candidate router task max_tokens first c (world i) run).0
        (try_candidate router task max_tokens first c (world i) run).1
        (try_candidate-Ended first c (world i) run)
        (try_all-Concluded false cs world (suc i)
          (try_candidate router task max_tokens first c (world i) run).0)
    where
      go :
          (mid : Run) (step : Step)
          → Ended first (world i) run (mid, step)
          → Concluded false cs world
              (suc i)
              mid
              (try_all router task max_tokens false cs world (suc i) mid)
          → Concluded first (c ∷ cs) world i run (
              proceed
                (mid, step)
                (λ run'. try_all router task max_tokens false cs world (suc i) run'))
      go mid skip t rest = record {
        emitted = rw rest.emitted (
            ap
              (λ es.
                es
                ++ events router task (try_all router task max_tokens false cs world (suc i) mid).1)
              (t.emitted ∙ append-nil run.emitted));
        served = λ c h.
            let (j, r, low, high, came, is) = rest.served c h in
            (j, r, omega arith, omega arith, came, ground (arith, is, low));
        raised = λ x h.
            let (j, low, high, came) = rest.raised x h in (j, omega arith, omega arith, came);
      }
      go mid (done o) t rest = record {
        emitted = t.emitted;
        served = λ c h.
            let (r, came, is) = t.served c (ap done h) in
            (i, r, omega arith, omega arith, came, ground (arith, is));
        raised = λ x h. (i, omega arith, omega arith, t.raised x (ap done h));
      }

  -- The first candidate's own exception ends the loop with no second call, unless it is one that
  -- earns a failover.
  first-fails :
      (c : Candidate) (cs : List Candidate) (world : ℕ → Attempt) (i : ℕ) (run : Run)
      (name : String) (b : Breaker) (x : ℕ)
      → get c.provider router.providers ≡ some name
      → get name run.breakers ≡ some b
      → (is_open b (world i).checked_at).0 ≡ false
      → (world i).reply ≡ failed x
      → ((try_all router task max_tokens true (c ∷ cs) world i run).1 ≡ err (provider_error x))
        × ((try_all router task max_tokens true (c ∷ cs) world i run).0.calls
            ≡ run.calls ++ (record { candidate = c; max_tokens = max_tokens } ∷ []))
  unfolding try_all try_candidate try_breaker settle
  first-fails c cs world i run name b x there found shut came =
      ground (arith, there, found, shut, came)

-- A completion that is returned is one that a provider gave: as it came, if it came from the first
-- candidate that the call allows, and otherwise marked as degraded.
pub complete-served :
    (router : Router) (task : String) (excluded : Option String) (max_tokens : Option ℕ)
    (world : ℕ → Attempt) (c : Completion)
    → (complete router task excluded max_tokens world).1 ≡ ok c
    → (j : ℕ) × (r : Completion) × ((world j).reply ≡ completed r)
      × (c ≡ (if j == 0 then r else mark_degraded r))
unfolding complete
complete-served router task excluded max_tokens world c h =
    elim (Option-cases (get task router.config.tasks)) [
      | inl unknown ↦ absurd (ground (arith, h, unknown))
      | inr (spec, found) ↦
          let cs = allowed excluded (candidates_of spec) in
          let n = get_or max_tokens spec.max_tokens in
          let all = try_all-Concluded router task n true cs world 0 (start router) in
          let (j, r, low, high, came, is) = all.served c (ground (arith, h, found)) in
          (j, r, came, is)
    ]

-- One event is emitted for a completion that is returned, in the form that the ledger gets, and none
-- for an error; a router without a sink emits nothing.
pub complete-emits :
    (router : Router) (task : String) (excluded : Option String) (max_tokens : Option ℕ)
    (world : ℕ → Attempt)
    → (complete router task excluded max_tokens world).0.emitted
      ≡ events router task (complete router task excluded max_tokens world).1
unfolding complete start
complete-emits router task excluded max_tokens world =
    elim (Option-cases (get task router.config.tasks)) [
      | inl unknown ↦ rw (unknown, complete)
      | inr (spec, found) ↦
          rw (found, complete)
            (try_all-Concluded router task (get_or max_tokens spec.max_tokens) true
              (allowed excluded (candidates_of spec)) world 0 (start router)).emitted
    ]

-- An exception that is no `ProviderUnavailable` is raised as it is by the primary, with the failover
-- never called.
pub complete-fails_fast :
    (router : Router) (task : String) (spec : TaskSpec) (max_tokens : Option ℕ)
    (world : ℕ → Attempt) (name : String) (b : Breaker) (x : ℕ)
    → get task router.config.tasks ≡ some spec
    → get spec.primary.provider router.providers ≡ some name
    → get name router.breakers ≡ some b
    → (is_open b (world 0).checked_at).0 ≡ false
    → (world 0).reply ≡ failed x
    → ((complete router task none max_tokens world).1 ≡ err (provider_error x))
      × (length (complete router task none max_tokens world).0.calls ≡ 1)
unfolding complete start
complete-fails_fast router task spec max_tokens world name b x found there at shut came =
    let (ends, calls) =
      first-fails router task (get_or max_tokens spec.max_tokens) spec.primary
        (elim spec.failover [ none ↦ [] | some c ↦ c ∷ [] ]) world 0 (start router) name b x there
        at shut came in
    rw (found, complete) (ends, rw calls refl)

-- Embedding never fails over: with a failover configured or asked for it raises and calls nobody,
-- and otherwise the one call it makes is of the primary.
pub embed-no_failover :
    {A : Type 0} (router : Router) (task : String) (spec : TaskSpec) (force : Bool)
    (reply : Reply A)
    → get task router.config.tasks ≡ some spec
    → ((embed router task force reply).0 ≡ none)
      ⊎ (((embed router task force reply).0 ≡ some spec.primary)
          × (force ≡ false)
          × (spec.failover ≡ none))
unfolding embed
embed-no_failover router task spec force reply found = ground arith
