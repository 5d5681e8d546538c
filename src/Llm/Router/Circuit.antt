-- ===== src/Llm/Router/Circuit.antt =====
-- One provider's circuit breaker on its own.
use moreofchat.Prelude.{
  ℕ, ◌+◌, ◌≤◌, ◌<◌, none, some, List, [], ◌∷◌, true, false, ◌≡◌, refl, ◌↔◌, arith, length, is_some,
}
use moreofchat.Llm.Router.{Breaker, is_open, record_success, record_failure}

-- Open only after as many failures as the threshold, and shut below it.
pub record IsSound (b : Breaker) : Type 0 where
  pub armed : 0 < b.threshold
  pub tripped : b.threshold ≤ b.failures → is_some b.opened_at ≡ true
  pub earned : is_some b.opened_at ≡ true → b.threshold ≤ b.failures

pub is_open-IsSound : (b : Breaker) (now : ℕ) → IsSound b → IsSound (is_open b now).1
unfolding is_open
is_open-IsSound b now s = ground arith

pub record_success-IsSound : (b : Breaker) → IsSound b → IsSound (record_success b)
unfolding record_success
record_success-IsSound b s = ground arith

pub record_failure-IsSound : (b : Breaker) (now : ℕ) → IsSound b → IsSound (record_failure b now)
unfolding record_failure
record_failure-IsSound b now s = ground arith

abbrev pub fail_all : Breaker → List ℕ → Breaker
fail_all b [] = b
fail_all b (now ∷ times) = fail_all (record_failure b now) times

fail_all-counts :
    (times : List ℕ) (b : Breaker)
    → IsSound b
    → IsSound (fail_all b times)
      × ((fail_all b times).failures ≡ b.failures + length times)
      × ((fail_all b times).threshold ≡ b.threshold)
unfolding record_failure
fail_all-counts [] b s = (s, omega arith, refl)
fail_all-counts (now ∷ times) b s =
    let (sound, count, same) =
      fail_all-counts times (record_failure b now) (record_failure-IsSound b now s) in
    (sound, omega (arith, count), same)

-- Failures one after another, with no success between, leave a breaker open exactly when there are
-- as many of them, with those already counted, as the threshold.
pub fail_all-opens :
    (times : List ℕ) (b : Breaker)
    → IsSound b
    → (is_some (fail_all b times).opened_at ≡ true) ↔ (b.threshold ≤ b.failures + length times)
fail_all-opens times b s =
    let (sound, count, same) = fail_all-counts times b s in
    (
      λ h. omega (arith, sound.earned h, count, same),
      λ h. sound.tripped (omega (arith, h, count, same)),
    )

-- An open breaker refuses every call until its reset time has passed, and is left as it is.
pub is_open-refuses :
    (b : Breaker) (at now : ℕ)
    → b.opened_at ≡ some at
    → ((is_open b now ≡ (true, b)) ↔ (now < at + b.reset_seconds))
unfolding is_open
is_open-refuses b at now open_then = (λ h. ground (arith, h), λ h. ground (arith, h))

-- The call that is let through when the reset time has passed does not open the breaker again by
-- failing, where the threshold is above one: the count starts over at one failure, and calls go on
-- being let through.
pub half_open-failure_stays_shut :
    (b : Breaker) (at now later any_time : ℕ)
    → b.opened_at ≡ some at
    → at + b.reset_seconds ≤ now
    → 1 < b.threshold
    → ((is_open b now).0 ≡ false)
      × ((record_failure (is_open b now).1 later).opened_at ≡ none)
      × ((record_failure (is_open b now).1 later).failures ≡ 1)
      × ((is_open (record_failure (is_open b now).1 later) any_time).0 ≡ false)
unfolding is_open record_failure
half_open-failure_stays_shut b at now later any_time open_then due above = ground arith
