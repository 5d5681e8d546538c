-- ===== src/Llm/Http.antt =====
-- src/moc/llm/http.py: how a status becomes an exception, and the retries of one request. A response
-- body that parses is read for the fields the code asks for; `str.lower` is the parameter `lower`. A
-- delay is an integer, in a unit of time that is free, and the random part of the one after each
-- attempt is what `jitters` says.
pub mod Retries
mod Tests
use moreofchat.Prelude.{
  ℕ, String, Bool, true, false, ◌||◌, ◌+◌, ◌*◌, Option, none, some, List, [], ◌∷◌, if◌then◌else◌,
  zero, suc, ltb, leb, ◌==◌, any,
}
use Prim.Native.Nat.{◌^◌}
use moreofchat.Result.{Result, ok, err}
use moreofchat.Dict.{contains}
use moreofchat.Str.{Text}
use moreofchat.Agent.FigureAudit.{is_within}

-- The `error` object of a body: a field that is absent or no string is `none`.
pub record ErrorBody : Type 0 where
  pub code : Option String
  pub kind : Option String
  pub message : Option Text

-- `A` is what a body that parses is handed on as.
pub data Body (A : Type 0) : Type 0 where
  unreadable : Body A
  parsed : Option ErrorBody → A → Body A

pub record Response (A : Type 0) : Type 0 where
  pub status_code : ℕ
  pub body : Body A

pub data Fault : Type 0 where
  transport_error value_error : Fault
  provider_unavailable : Option ℕ → Fault
  provider_request_error : ℕ → Fault

abbrev pub quota_codes : List String
quota_codes = "insufficient_quota" ∷ ("billing_hard_limit_reached" ∷ ("quota_exceeded" ∷ []))

-- "usage limit"
abbrev pub usage_limit : Text
usage_limit = 117 ∷ 115 ∷ 97 ∷ 103 ∷ 101 ∷ 32 ∷ 108 ∷ 105 ∷ 109 ∷ 105 ∷ 116 ∷ []

-- "credit balance"
abbrev pub credit_balance : Text
credit_balance = 99 ∷ 114 ∷ 101 ∷ 100 ∷ 105 ∷ 116 ∷ 32 ∷ 98 ∷ 97 ∷ 108 ∷ 97 ∷ 110 ∷ 99 ∷ 101 ∷ []

-- "exceeded your current quota"
abbrev pub exceeded_quota : Text
exceeded_quota =
    101 ∷ 120 ∷ 99 ∷ 101 ∷ 101 ∷ 100 ∷ 101 ∷ 100 ∷ 32 ∷ 121 ∷ 111 ∷ 117 ∷ 114 ∷ 32 ∷ 99 ∷ 117 ∷ 114
    ∷ 114 ∷ 101 ∷ 110 ∷ 116 ∷ 32 ∷ 113 ∷ 117 ∷ 111 ∷ 116 ∷ 97 ∷ []

-- "billing"
abbrev pub billing : Text
billing = 98 ∷ 105 ∷ 108 ∷ 108 ∷ 105 ∷ 110 ∷ 103 ∷ []

abbrev pub quota_phrases : List Text
quota_phrases = usage_limit ∷ (credit_balance ∷ (exceeded_quota ∷ (billing ∷ [])))

unfoldable pub is_quota_code : Option String → Bool
is_quota_code none = false
is_quota_code (some value) = contains value quota_codes

unfoldable pub is_quota_message : (Text → Text) → Option Text → Bool
is_quota_message lower none = false
is_quota_message lower (some message) =
    any (λ phrase. is_within phrase (lower message)) quota_phrases

unfoldable pub is_out_of_budget : {A : Type 0} → (Text → Text) → Body A → Bool
is_out_of_budget lower unreadable = false
is_out_of_budget lower (parsed none value) = false
is_out_of_budget lower (parsed (some error) value) =
    is_quota_code error.code || is_quota_code error.kind || is_quota_message lower error.message

-- The exception, where one is raised.
unfoldable pub raise_for_status : {A : Type 0} → (Text → Text) → Response A → Option Fault
raise_for_status lower response =
    if ltb response.status_code 400
    then none
    else if response.status_code == 429 || leb 500 response.status_code
    then some (provider_unavailable (some response.status_code))
    else if is_out_of_budget lower response.body
    then some (provider_unavailable (some response.status_code))
    else some (provider_request_error response.status_code)

-- What the attempt comes back with; `posted none` is a transport error.
pub data Answer (A : Type 0) : Type 0 where
  posted : Option (Response A) → Answer A

unfoldable pub json : {A : Type 0} → Body A → Result Fault A
json unreadable = err value_error
json (parsed error value) = ok value

unfoldable pub attempt : {A : Type 0} → (Text → Text) → Answer A → Result Fault A
attempt lower (posted none) = err transport_error
attempt lower (posted (some response)) = elim (raise_for_status lower response) [
  | none ↦ json response.body
  | some fault ↦ err fault
]

-- The exceptions of the second `except`.
abbrev pub is_transient : {A : Type 0} → Result Fault A → Bool
is_transient (ok value) = false
is_transient (err transport_error) = true
is_transient (err value_error) = false
is_transient (err (provider_unavailable status)) = true
is_transient (err (provider_request_error status)) = false

-- What is raised for the last exception.
abbrev pub surface : {A : Type 0} → Result Fault A → Result Fault A
surface (ok value) = ok value
surface (err transport_error) = err (provider_unavailable none)
surface (err value_error) = err value_error
surface (err (provider_unavailable status)) = err (provider_unavailable status)
surface (err (provider_request_error status)) = err (provider_request_error status)

-- How the request ends, and the delays slept before that.
pub record Run (A : Type 0) : Type 0 where
  pub result : Result Fault A
  pub delays : List ℕ

unfoldable pub sleep : {A : Type 0} → ℕ → Run A → Run A
sleep seconds run = record { result = run.result; delays = seconds ∷ run.delays }

module _ {A : Type 0} (lower : Text → Text) (base : ℕ) (jitters : ℕ → ℕ)
    (answers : ℕ → Answer A) where
  -- `base * (2**attempt) + rng.random() * jitter`
  unfoldable pub delay : ℕ → ℕ
  delay k = base * 2 ^ k + jitters k

  -- The attempt `k`, with `n` more to make where it fails.
  unfoldable pub try_from : ℕ → ℕ → Run A
  try_from zero k = record { result = surface (attempt lower (answers k)); delays = [] }
  try_from (suc n) k = elim (is_transient (attempt lower (answers k))) [
    | false ↦ record { result = attempt lower (answers k); delays = [] }
    | true ↦ sleep (delay k) (try_from n (k + 1))
  ]

  unfoldable pub request_with_retries : ℕ → Run A
  request_with_retries max_retries = try_from max_retries 0
