-- ===== src/Llm/Http/Retries.antt =====
-- Which attempts a request makes (src/moc/llm/http.py).
use moreofchat.Prelude.{
  Option, String, str_eq, ℕ, ◌+◌, ◌≤◌, ◌<◌, ◌≡◌, true, false, length, arith, Bool, some, none, ◌&&◌,
  ◌||◌, ◌==◌, leb, if◌then◌else◌,
}
use moreofchat.Result.{Result, ok, err}
use moreofchat.Str.{Text}
use moreofchat.Agent.FigureAudit.{is_within}
use moreofchat.Llm.Http.{
  usage_limit, credit_balance, exceeded_quota, billing, Answer, posted, Response, Body, unreadable,
  parsed, Fault, value_error, provider_unavailable, provider_request_error, Run,
}

start : (k : ℕ) → k + 0 ≡ k
start k = omega arith

abbrev pub names_quota : Option String → Bool
names_quota none = false
names_quota (some value) =
    str_eq "insufficient_quota" value
    || str_eq "billing_hard_limit_reached" value
    || str_eq "quota_exceeded" value

abbrev pub says_quota : (Text → Text) → Option Text → Bool
says_quota lower none = false
says_quota lower (some message) =
    is_within usage_limit (lower message)
    || is_within credit_balance (lower message)
    || is_within exceeded_quota (lower message)
    || is_within billing (lower message)

-- The error of the body names a spent quota by its code or its type, or its message says so.
abbrev pub is_spent : {A : Type 0} → (Text → Text) → Body A → Bool
is_spent lower unreadable = false
is_spent lower (parsed none value) = false
is_spent lower (parsed (some error) value) =
    names_quota error.code || names_quota error.kind || says_quota lower error.message

-- A status that may pass: too many requests, a fault of the server, or a request refused for a budget.
abbrev pub passes : {A : Type 0} → (Text → Text) → Response A → Bool
passes lower r =
    r.status_code == 429
    || leb 500 r.status_code
    || (leb 400 r.status_code && is_spent lower r.body)

-- An answer after which the request may be made again.
abbrev pub may_pass : {A : Type 0} → (Text → Text) → Answer A → Bool
may_pass lower (posted none) = true
may_pass lower (posted (some r)) = passes lower r

abbrev pub body_read : {A : Type 0} → Body A → Result Fault A
body_read unreadable = err value_error
body_read (parsed error value) = ok value

-- What is returned or raised for the last answer.
abbrev pub ending : {A : Type 0} → (Text → Text) → Answer A → Result Fault A
ending lower (posted none) = err (provider_unavailable none)
ending lower (posted (some r)) =
    if passes lower r
    then err (provider_unavailable (some r.status_code))
    else if leb 400 r.status_code
    then err (provider_request_error r.status_code)
    else body_read r.body

module _ {A : Type 0} (lower : Text → Text) (base : ℕ) (jitters : ℕ → ℕ)
    (answers : ℕ → Answer A) where
  -- The run from attempt `k` with `n` more: it waits once before each attempt after the first, each
  -- attempt before the last is transient, and the last one decides.
  pub record IsTried (n k : ℕ) (run : Run A) : Type 0 where
    pub bounded : length run.delays ≤ n
    pub retried : (i : ℕ) → i < length run.delays → may_pass lower (answers (k + i)) ≡ true
    pub decided : run.result ≡ ending lower (answers (k + length run.delays))
    pub exhausted : may_pass lower (answers (k + length run.delays)) ≡ true → length run.delays ≡ n
