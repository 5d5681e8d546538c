-- ===== src/Llm/Http/Tests.antt =====
-- Requests at concrete answers (src/moc/llm/http.py).
use moreofchat.Prelude.{ℕ, zero, suc, ◌≡◌, refl, none, some, [], ◌∷◌}
use moreofchat.Dict.{contains}
use moreofchat.Result.{ok, err}
use moreofchat.Str.{Text, starts_with}
use moreofchat.Agent.FigureAudit.{is_within}
use moreofchat.Llm.Http.{
  Answer, posted, Response, unreadable, parsed, provider_unavailable, provider_request_error,
  raise_for_status, is_out_of_budget, is_quota_code, is_quota_message, attempt, json, sleep, delay,
  try_from, request_with_retries,
}

abbrev as_is : Text → Text
as_is text = text

-- "your billing"
abbrev spent : Response ℕ
spent = record {
  status_code = 400;
  body =
      parsed
        (some (record {
          code = none;
          kind = some "invalid_request_error";
          message = some (121 ∷ 32 ∷ 98 ∷ 105 ∷ 108 ∷ 108 ∷ 105 ∷ 110 ∷ 103 ∷ []);
        }))
        0;
}

abbrev malformed : Response ℕ
malformed = record {
  status_code = 400;
  body =
      parsed (some (record { code = none; kind = some "invalid_request_error"; message = none })) 0;
}

abbrev served : Response ℕ
served = record { status_code = 200; body = parsed none 7 }

abbrev jitters : ℕ → ℕ
jitters k = 1

-- A transport error, then 503, then the answer.
abbrev recovering : ℕ → Answer ℕ
recovering zero = posted none
recovering (suc zero) = posted (some (record { status_code = 503; body = unreadable }))
recovering (suc (suc k)) = posted (some served)

spent_fails_over : raise_for_status as_is spent ≡ some (provider_unavailable (some 400))
unfolding raise_for_status is_out_of_budget is_quota_code is_quota_message contains is_within
    starts_with
spent_fails_over = refl

malformed_is_ours : raise_for_status as_is malformed ≡ some (provider_request_error 400)
unfolding raise_for_status is_out_of_budget is_quota_code is_quota_message contains
malformed_is_ours = refl

recovers :
    request_with_retries as_is 10 jitters recovering 3
    ≡ record { result = ok 7; delays = 11 ∷ 21 ∷ [] }
unfolding request_with_retries try_from delay sleep attempt raise_for_status json
recovers = refl

gives_up :
    request_with_retries as_is 10 jitters recovering 0
    ≡ record { result = err (provider_unavailable none); delays = [] }
unfolding request_with_retries try_from attempt
gives_up = refl
