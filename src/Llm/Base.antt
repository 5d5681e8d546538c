-- ===== src/Llm/Base.antt =====
-- src/moc/llm/base.py: what passes between the router, a provider and the ledger.
use moreofchat.Prelude.{ℕ, String, Bool, Option}

pub record Completion : Type 0 where
  pub text : String
  pub provider : String
  pub model : String
  pub input_tokens : ℕ
  pub output_tokens : ℕ
  pub cached_tokens : ℕ
  pub cache_write_tokens : ℕ
  pub degraded : Bool
  pub stop_reason : Option String

pub record UsageEvent : Type 0 where
  pub task : String
  pub provider : String
  pub model : String
  pub input_tokens : ℕ
  pub output_tokens : ℕ
  pub cached_tokens : ℕ
  pub degraded : Bool

-- The exceptions that the router raises; `provider_error` is one that a provider raised and that is
-- no `ProviderUnavailable`, and `key_error` a provider whose own name has no breaker.
pub data LlmError : Type 0 where
  all_providers_unavailable provider_unavailable unknown_task no_failover_configured key_error :
      LlmError
  provider_error : ℕ → LlmError

-- What one call of a provider comes back with. `unavailable` is `ProviderUnavailable`; any other
-- exception is `failed`, with a number that tells one from another.
pub data Reply (A : Type 0) : Type 0 where
  completed : A → Reply A
  unavailable : Reply A
  failed : ℕ → Reply A
