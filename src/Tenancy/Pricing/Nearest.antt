-- ===== src/Tenancy/Pricing/Nearest.antt =====
-- The price is the cost to the nearest millionth (src/moc/tenancy/pricing.py).
use moreofchat.Prelude.{
  ℕ, zero, suc, ◌+◌, ◌*◌, ◌<◌, ◌≡◌, refl, ◌∙◌, String, Option, none, some, ltb, if◌then◌else◌,
  arith, subst, ◌⊎◌, inl, inr,
}
use native.Mathlib.Nat.{mul-le-mul_left}
use Prim.{⊥, Unit, tt}
use moreofchat.Dict.{Dict, get}
use moreofchat.Arabic.Numerals.{Ratio, add_ratio}
use moreofchat.Tenancy.Pricing.{
  Decimal, Rates, ModelRates, Usage, power_of_ten, cost, rate_or_zero, add_costs, total, quantize,
  is_over, price_model, price,
}
use moreofchat.Tenancy.Pricing.Rounding.{IsNearest, half_even-IsNearest}

product-positive : (a b : ℕ) → 0 < a → 0 < b → 0 < a * b
product-positive a b pa pb =
    let bound = mul-le-mul_left {m = 1} {n = b} a (omega (arith, pb)) in grind (arith, bound, pa)

power_of_ten-positive : (n : ℕ) → 0 < power_of_ten n
unfolding power_of_ten
power_of_ten-positive zero = omega arith
power_of_ten-positive (suc n) = omega (arith, power_of_ten-positive n)

abbrev DenIsPositive : Option Ratio → Type 0
DenIsPositive none = ⊥
DenIsPositive (some r) = 0 < r.den

abbrev HeldIsNearest : Ratio → Option ℕ → Type 0
HeldIsNearest r none = ⊥
HeldIsNearest r (some n) = IsNearest n r

add_costs-positive :
    (u : Usage) (input output cached write : Option Decimal) (r : Ratio)
    → add_costs u input output cached write ≡ some r
    → 0 < r.den
unfolding add_costs add_ratio cost
add_costs-positive u (some i) (some o) (some c) (some w) r added =
    let pi = power_of_ten-positive i.places in
    let po = power_of_ten-positive o.places in
    let pc = power_of_ten-positive c.places in
    let pw = power_of_ten-positive w.places in
    subst (λ (o : Option Ratio). DenIsPositive o) added
      (product-positive _ _ (product-positive _ _ (product-positive _ _ pi po) pc) pw)
add_costs-positive u (some i) (some o) (some c) none r added = cc
add_costs-positive u (some i) (some o) none write r added = cc
add_costs-positive u (some i) none cached write r added = cc
add_costs-positive u none output cached write r added = cc

-- The block of rates for a prompt of this size.
abbrev pub block_for : Option ℕ → ℕ → ModelRates → Rates
block_for none prompt rates = rates.short_context
block_for (some threshold) prompt rates =
    if ltb threshold prompt then rates.long_context else rates.short_context

abbrev pub book_of : ModelRates → Usage → Rates
book_of rates u =
    block_for rates.threshold (u.input_tokens + u.cached_tokens + u.cache_write_tokens) rates

abbrev pub plus : Ratio → Ratio → Ratio
plus a b = record { num = a.num * b.den + b.num * a.den; den = a.den * b.den }

-- A number of tokens at a rate.
abbrev pub charge : ℕ → Decimal → Ratio
charge tokens rate = record { num = tokens * rate.digits; den = power_of_ten rate.places }

-- The rate is the one in the table, or there are no such tokens.
abbrev pub IsRate : ℕ → Option Decimal → Decimal → Type 0
IsRate tokens held rate = (held ≡ some rate) ⊎ (tokens ≡ 0)

-- `r` is the charge of each kind of tokens at the rate for that kind.
pub data IsBill (book : Rates) (u : Usage) : Ratio → Type 0 where
  bill :
      (input output cached written : Decimal)
      → book.input ≡ some input
      → book.output ≡ some output
      → IsRate u.cached_tokens book.cached_input cached
      → IsRate u.cache_write_tokens book.cache_write written
      → IsBill book u (
          plus
            (plus
              (plus (charge u.input_tokens input) (charge u.output_tokens output))
              (charge u.cached_tokens cached))
            (charge u.cache_write_tokens written))

rate_or_zero-IsRate :
    (tokens : ℕ) (held : Option Decimal) (rate : Decimal)
    → rate_or_zero tokens held ≡ some rate
    → IsRate tokens held rate
unfolding rate_or_zero
rate_or_zero-IsRate tokens (some r) rate held = inl held
rate_or_zero-IsRate zero none rate held = inr refl
rate_or_zero-IsRate (suc tokens) none rate held = cc

abbrev Billed : Rates → Usage → Option Ratio → Type 0
Billed book u none = Unit {0}
Billed book u (some r) = IsBill book u r

add_costs-IsBill :
    (book : Rates) (u : Usage) (input output cached written : Option Decimal)
    → book.input ≡ input
    → book.output ≡ output
    → rate_or_zero u.cached_tokens book.cached_input ≡ cached
    → rate_or_zero u.cache_write_tokens book.cache_write ≡ written
    → Billed book u (add_costs u input output cached written)
unfolding add_costs cost add_ratio
add_costs-IsBill book u (some i) (some o) (some c) (some w) hi ho hc hw =
    bill i o c w hi ho (rate_or_zero-IsRate u.cached_tokens book.cached_input c hc)
      (rate_or_zero-IsRate u.cache_write_tokens book.cache_write w hw)
add_costs-IsBill book u (some i) (some o) (some c) none hi ho hc hw = tt
add_costs-IsBill book u (some i) (some o) none written hi ho hc hw = tt
add_costs-IsBill book u (some i) none cached written hi ho hc hw = tt
add_costs-IsBill book u none output cached written hi ho hc hw = tt

total-IsBill : (book : Rates) (u : Usage) (r : Ratio) → total book u ≡ some r → IsBill book u r
unfolding total
total-IsBill book u r summed =
    subst (Billed book u) summed (add_costs-IsBill book u _ _ _ _ refl refl refl refl)

quantize-IsNearest :
    (book : Rates) (u : Usage) (sum : Option Ratio) (n : ℕ)
    → total book u ≡ sum
    → quantize sum ≡ some n
    → (r : Ratio) × (total book u ≡ some r) × IsNearest n r
unfolding quantize total
quantize-IsNearest book u none n summed quantized = cc
quantize-IsNearest book u (some r) n summed quantized = (
  r,
  summed,
  subst (λ (m : Option ℕ). HeldIsNearest r m) quantized
      (half_even-IsNearest r.num r.den (add_costs-positive u _ _ _ _ r summed)),
)

pub book_usd :
    (short long : Rates) (threshold : Option ℕ) (u : Usage)
    → quantize (
        total
          (book_of (record { short_context = short; long_context = long; threshold = threshold }) u)
          u)
      ≡ (price_model
          (some (record { short_context = short; long_context = long; threshold = threshold }))
          u).usd
unfolding price_model is_over
book_usd short long none u = refl
book_usd short long (some threshold) u = ground arith

price_model-IsNearest :
    (rates : Option ModelRates) (u : Usage) (n : ℕ)
    → (price_model rates u).usd ≡ some n
    → (held : ModelRates) × (r : Ratio) × (rates ≡ some held)
      × IsBill (book_of held u) u r
      × IsNearest n r
unfolding price_model
price_model-IsNearest none u n priced = cc
price_model-IsNearest (some rates) u n priced =
    let near =
      quantize-IsNearest (book_of rates u) u _ n refl
        (book_usd rates.short_context rates.long_context rates.threshold u ∙ priced) in
    (rates, near.0, refl, total-IsBill (book_of rates u) u near.0 near.1, near.2)

-- A price is the bill of the call to the nearest millionth of a dollar, and to the even one where two
-- are as near. The bill charges the input, output, cached and written tokens each at the rate for
-- them, of the model's own block, or of its long-context block where the prompt, the cached and
-- the written tokens included, is past the threshold; a rate may be missing only where there are no
-- tokens to pay at it.
pub price-IsNearest :
    (table : Dict ModelRates) (model : String) (u : Usage) (n : ℕ)
    → (price table model u).usd ≡ some n
    → (rates : ModelRates) × (r : Ratio) × (get model table ≡ some rates)
      × IsBill (book_of rates u) u r
      × IsNearest n r
unfolding price
price-IsNearest table model u n priced = price_model-IsNearest (get model table) u n priced
