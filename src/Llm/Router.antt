-- ===== src/Llm/Router.antt =====
-- src/moc/llm/router.py: a task's candidates in turn, under one circuit breaker for each provider.
-- A clock reading is a number of ticks. What the outside does while the candidate at a position is
-- tried is an `Attempt`: the clock when its breaker is asked, the provider's reply, and the clock
-- when a failure is recorded. The usage sink is taken to return.
pub mod Circuit
pub mod Calls
pub mod Served
mod Tests
use moreofchat.Prelude.{
  ℕ, suc, zero, ◌+◌, String, str_eq, Option, none, some, List, [], ◌∷◌, ◌++◌, if◌then◌else◌, not,
  Bool, true, false, ◌||◌, ◌&&◌, is_some, all, is_empty, leb, keep, get_or,
}
use moreofchat.Result.{Result, ok, err, require, ◌>>=◌, ◌>>◌}
use moreofchat.Dict.{Dict, get, put, has_key}
use moreofchat.Llm.Base.{
  Completion, UsageEvent, LlmError, all_providers_unavailable, unknown_task, no_failover_configured,
  provider_unavailable, key_error, provider_error, Reply, completed, unavailable, failed,
}

pub record Breaker : Type 0 where
  pub threshold : ℕ
  pub reset_seconds : ℕ
  pub failures : ℕ
  pub opened_at : Option ℕ

-- `now - opened_at >= reset_seconds` lets one call through: the breaker is reset before it is made.
pub is_open : Breaker → ℕ → Bool × Breaker
is_open b now = elim b.opened_at [
  | none ↦ (false, b)
  | some at ↦
      if leb (at + b.reset_seconds) now
      then (false, record b { opened_at = none; failures = 0 })
      else (true, b)
]

pub record_success : Breaker → Breaker
record_success b = record b { failures = 0; opened_at = none }

pub record_failure : Breaker → ℕ → Breaker
record_failure b now =
    let failures = b.failures + 1 in
    record b {
      failures = failures;
      opened_at = if leb b.threshold failures then some now else b.opened_at;
    }

pub record Candidate : Type 0 where
  pub provider : String
  pub model : String
  pub dimensions : Option ℕ

pub record TaskSpec : Type 0 where
  pub primary : Candidate
  pub failover : Option Candidate
  pub max_tokens : ℕ

pub record Config : Type 0 where
  pub tasks : Dict TaskSpec
  pub failure_threshold : ℕ
  pub reset_seconds : ℕ

-- `providers` maps the key of a provider in the configuration to the provider's own name.
pub record Router : Type 0 where
  pub config : Config
  pub providers : Dict String
  pub breakers : Dict Breaker
  pub sink : Bool

new_breakers : ℕ → ℕ → Dict String → Dict Breaker
new_breakers threshold reset [] = []
new_breakers threshold reset ((key, name) ∷ providers) =
    (key, record { threshold = threshold; reset_seconds = reset; failures = 0; opened_at = none })
    ∷ new_breakers threshold reset providers

-- Both roles of a task, where they are configured, are routed to a provider that was supplied.
abbrev pub supplied : Dict String → TaskSpec → Bool
supplied providers spec =
    has_key spec.primary.provider providers
    && elim spec.failover [ none ↦ true | some c ↦ has_key c.provider providers ]

pub new_router : Config → Dict String → Bool → Result LlmError Router
unfolding new_breakers
new_router config providers sink =
    if all (λ task. supplied providers task.1) config.tasks
    then ok (record {
      config = config;
      providers = providers;
      breakers = new_breakers config.failure_threshold config.reset_seconds providers;
      sink = sink;
    })
    else err unknown_task

pub record Attempt : Type 0 where
  pub checked_at : ℕ
  pub reply : Reply Completion
  pub failed_at : ℕ

-- A call that was made of a provider.
pub record Call : Type 0 where
  pub candidate : Candidate
  pub max_tokens : ℕ

pub record Run : Type 0 where
  pub breakers : Dict Breaker
  pub calls : List Call
  pub emitted : List UsageEvent

-- Every field but `cache_write_tokens`, which takes its default.
pub mark_degraded : Completion → Completion
mark_degraded c = record {
  text = c.text;
  provider = c.provider;
  model = c.model;
  input_tokens = c.input_tokens;
  output_tokens = c.output_tokens;
  cached_tokens = c.cached_tokens;
  cache_write_tokens = 0;
  degraded = true;
  stop_reason = c.stop_reason;
}

pub event_of : String → Completion → UsageEvent
event_of task c = record {
  task = task;
  provider = c.provider;
  model = c.model;
  input_tokens = c.input_tokens;
  output_tokens = c.output_tokens;
  cached_tokens = c.cached_tokens;
  degraded = c.degraded;
}

-- What one turn of the loop comes to: `continue`, `return` or `raise`.
pub data Step : Type 0 where
  skip : Step
  done : Result LlmError Completion → Step

-- The rest of the loop, after one candidate.
pub proceed :
    Run × Step → (Run → Run × Result LlmError Completion) → Run × Result LlmError Completion
proceed (run, skip) rest = rest run
proceed (run, done outcome) rest = (run, outcome)

module _ (router : Router) (task : String) (max_tokens : ℕ) where
  -- After the call: the reply decides about the breaker `b` of the provider `name`.
  settle : Bool → String → Breaker → Attempt → Run → Run × Step
  unfolding record_success record_failure mark_degraded event_of
  settle first name b a run = elim a.reply [
    | completed c ↦
        let result = if first then c else mark_degraded c in
        (
          record run {
            breakers = put name (record_success b) run.breakers;
            emitted =
                if router.sink then run.emitted ++ (event_of task result ∷ []) else run.emitted;
          },
          done (ok result),
        )
    | unavailable ↦
        (record run { breakers = put name (record_failure b a.failed_at) run.breakers }, skip)
    | failed x ↦ (run, done (err (provider_error x)))
  ]

  try_breaker : Bool → Candidate → String → Breaker → Attempt → Run → Run × Step
  unfolding settle is_open
  try_breaker first c name b a run =
      let (open_now, b') = is_open b a.checked_at in
      let asked = record run { breakers = put name b' run.breakers } in
      if open_now
      then (asked, skip)
      else settle first name b' a (record asked {
        calls = asked.calls ++ (record { candidate = c; max_tokens = max_tokens } ∷ []);
      })

  pub try_candidate : Bool → Candidate → Attempt → Run → Run × Step
  unfolding try_breaker
  try_candidate first c a run = elim (get c.provider router.providers) [
    | none ↦ (run, done (err unknown_task))
    | some name ↦ elim (get name run.breakers) [
      | none ↦ (run, done (err key_error))
      | some b ↦ try_breaker first c name b a run
    ]
  ]

  pub try_all : Bool → List Candidate → (ℕ → Attempt) → ℕ → Run → Run × Result LlmError Completion
  unfolding proceed
  try_all first [] world i run = (run, err all_providers_unavailable)
  try_all first (c ∷ candidates) world i run =
      proceed (try_candidate first c (world i) run)
        (λ run'. try_all false candidates world (suc i) run')

abbrev pub candidates_of : TaskSpec → List Candidate
candidates_of spec = spec.primary ∷ elim spec.failover [ none ↦ [] | some c ↦ c ∷ [] ]

abbrev pub allowed : Option String → List Candidate → List Candidate
allowed none candidates = candidates
allowed (some excluded) candidates = keep (λ c. not (str_eq c.provider excluded)) candidates

pub start : Router → Run
start router = record { breakers = router.breakers; calls = []; emitted = [] }

pub complete :
    Router → String → Option String → Option ℕ → (ℕ → Attempt) → Run × Result LlmError Completion
unfolding start
complete router task excluded max_tokens world = elim (get task router.config.tasks) [
  | none ↦ (start router, err unknown_task)
  | some spec ↦
      try_all router task (get_or max_tokens spec.max_tokens) true
        (allowed excluded (candidates_of spec)) world 0 (start router)
]

-- The call made, if any, and what `embed` comes to.
pub embed : {A : Type 0} → Router → String → Bool → Reply A → Option Candidate × Result LlmError A
embed router task force_failover reply = elim (get task router.config.tasks) [
  | none ↦ (none, err unknown_task)
  | some spec ↦
      if force_failover || is_some spec.failover
      then (none, err no_failover_configured)
      else if has_key spec.primary.provider router.providers
      then (
        some spec.primary,
        elim reply [
          | completed a ↦ ok a
          | unavailable ↦ err provider_unavailable
          | failed x ↦ err (provider_error x)
        ],
      )
      else (none, err unknown_task)
]
