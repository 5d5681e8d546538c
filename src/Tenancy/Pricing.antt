-- ===== src/Tenancy/Pricing.antt =====
-- src/moc/tenancy/pricing.py: the price of one call. A rate is a decimal with its number of places and
-- a price the number of millionths of a dollar, to which the code quantizes half to even.
pub mod Rounding
pub mod Nearest
pub mod Unpriced
mod Tests
use moreofchat.Prelude.{
  ℕ, zero, suc, ◌+◌, ◌*◌, ◌/◌, ◌%◌, String, Bool, true, false, Option, none, some, List, [], ◌∷◌,
  ltb, ◌==◌, if◌then◌else◌, ◌&&◌, is_some,
}
use moreofchat.Dict.{Dict, get}
use moreofchat.Arabic.Numerals.{Ratio, add_ratio}

pub record Decimal : Type 0 where
  pub digits : ℕ
  pub places : ℕ

-- The four keys of a block of rates, in dollars for a million tokens.
pub record Rates : Type 0 where
  pub input : Option Decimal
  pub output : Option Decimal
  pub cached_input : Option Decimal
  pub cache_write : Option Decimal

-- `long_context` is a block of its own, with the size of a prompt past which it holds.
pub record ModelRates : Type 0 where
  pub short_context : Rates
  pub long_context : Rates
  pub threshold : Option ℕ

pub data Tier : Type 0 where
  short long : Tier

pub record Priced : Type 0 where
  pub usd : Option ℕ
  pub tier : Tier

pub record Usage : Type 0 where
  pub input_tokens : ℕ
  pub output_tokens : ℕ
  pub cached_tokens : ℕ
  pub cache_write_tokens : ℕ

unfoldable pub power_of_ten : ℕ → ℕ
power_of_ten zero = 1
power_of_ten (suc n) = 10 * power_of_ten n

-- `Decimal(tokens) * rate`
unfoldable pub cost : ℕ → Decimal → Ratio
cost tokens rate = record { num = tokens * rate.digits; den = power_of_ten rate.places }

-- The rate, or zero where there is none and no token to pay for.
unfoldable pub rate_or_zero : ℕ → Option Decimal → Option Decimal
rate_or_zero tokens (some rate) = some rate
rate_or_zero zero none = some (record { digits = 0; places = 0 })
rate_or_zero (suc tokens) none = none

unfoldable pub add_costs :
    Usage → Option Decimal → Option Decimal → Option Decimal → Option Decimal → Option Ratio
add_costs u (some input) (some output) (some cached) (some write) = some (
    add_ratio
      (add_ratio (add_ratio (cost u.input_tokens input) (cost u.output_tokens output))
        (cost u.cached_tokens cached))
      (cost u.cache_write_tokens write))
add_costs u _ _ _ _ = none

unfoldable pub total : Rates → Usage → Option Ratio
total book u =
    add_costs u book.input book.output (rate_or_zero u.cached_tokens book.cached_input)
      (rate_or_zero u.cache_write_tokens book.cache_write)

-- The number next to `num / den`, and the even one of two.
unfoldable pub half_even : ℕ → ℕ → ℕ
half_even num den =
    let below = num / den in
    let rest = 2 * (num % den) in
    let tie = if below % 2 == 0 then below else below + 1 in
    if ltb rest den then below else if ltb den rest then below + 1 else tie

unfoldable pub quantize : Option Ratio → Option ℕ
quantize none = none
quantize (some r) = some (half_even r.num r.den)

unfoldable pub is_over : Option ℕ → ℕ → Bool
is_over none prompt = false
is_over (some threshold) prompt = ltb threshold prompt

unfoldable pub price_model : Option ModelRates → Usage → Priced
price_model none u = record { usd = none; tier = short }
price_model (some rates) u =
    if is_over rates.threshold (u.input_tokens + u.cached_tokens + u.cache_write_tokens)
    then record { usd = quantize (total rates.long_context u); tier = long }
    else record { usd = quantize (total rates.short_context u); tier = short }

unfoldable pub price : Dict ModelRates → String → Usage → Priced
price table model u = price_model (get model table) u

unfoldable pub cost_usd : Dict ModelRates → String → Usage → Option ℕ
cost_usd table model u = (price table model u).usd

unfoldable pub priced_models : Dict ModelRates → List String
priced_models [] = []
priced_models ((model, rates) ∷ table) =
    let rest = priced_models table in
    if is_some rates.short_context.input && is_some rates.short_context.output
    then model ∷ rest
    else rest
