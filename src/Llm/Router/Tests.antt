-- ===== src/Llm/Router/Tests.antt =====
-- A task with a failover, an outage of its primary, and the theorems about the router at it.
use moreofchat.Prelude.{
  ℕ, ◌≤◌, none, some, [], ◌∷◌, if◌then◌else◌, true, false, ◌≡◌, refl, ◌≢◌, arith, length, All, ◌==◌,
}
use moreofchat.Result.{ok}
use moreofchat.Dict.{get, put}
use moreofchat.Llm.Base.{Completion, Reply, completed, unavailable, failed}
use moreofchat.Llm.Router.{
  Breaker, Candidate, TaskSpec, Config, Router, Attempt, new_router, mark_degraded, complete, start,
  try_all, try_candidate, try_breaker, settle,
}
use moreofchat.Llm.Router.Circuit.{IsSound}
use moreofchat.Llm.Router.Calls.{complete-excludes}

abbrev claude : Candidate
claude = record { provider = "anthropic"; model = "sonnet"; dimensions = none }

abbrev gpt : Candidate
gpt = record { provider = "openai"; model = "gpt"; dimensions = none }

abbrev composition : TaskSpec
composition = record { primary = claude; failover = some gpt; max_tokens = 800 }

abbrev config : Config
config = record {
  tasks = ("answer_composition", composition) ∷ [];
  failure_threshold = 5;
  reset_seconds = 30;
}

abbrev fresh : Breaker
fresh = record { threshold = 5; reset_seconds = 30; failures = 0; opened_at = none }

abbrev router : Router
router = record {
  config = config;
  providers = ("anthropic", "anthropic") ∷ ("openai", "openai") ∷ [];
  breakers = ("anthropic", fresh) ∷ ("openai", fresh) ∷ [];
  sink = true;
}

built : new_router config (("anthropic", "anthropic") ∷ ("openai", "openai") ∷ []) true ≡ ok router
unfolding new_router get
built = refl

abbrev words : Completion
words = record {
  text = "ok";
  provider = "openai";
  model = "gpt";
  input_tokens = 10;
  output_tokens = 4;
  cached_tokens = 0;
  cache_write_tokens = 900;
  degraded = false;
  stop_reason = none;
}

-- The primary's reply first, the failover's next.
abbrev outage : ℕ → Attempt
outage i =
    if i == 0
    then record { checked_at = 1; reply = unavailable; failed_at = 2 }
    else record { checked_at = 3; reply = completed words; failed_at = 4 }

abbrev rejected : ℕ → Attempt
rejected i = record { checked_at = 1; reply = failed 400; failed_at = 2 }

outage_run : (complete router "answer_composition" none none outage).1 ≡ ok (mark_degraded words)
unfolding complete get start try_all try_candidate try_breaker settle put
outage_run = refl

fresh-IsSound : IsSound fresh
fresh-IsSound = ground arith

abbrev tripped : Breaker
tripped = record fresh { failures = 5; opened_at = some 100 }

complete-excludes_example :
    All
      (λ call. call.candidate.provider ≢ "anthropic")
      (complete router "answer_composition" (some "anthropic") none outage).0.calls
    × (length (complete router "answer_composition" (some "anthropic") none outage).0.calls ≤ 2)
unfolding get
complete-excludes_example =
    complete-excludes router "answer_composition" "anthropic" composition none outage refl

abbrev vector : Reply ℕ
vector = completed 7
