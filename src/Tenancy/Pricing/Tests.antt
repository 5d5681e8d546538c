-- ===== src/Tenancy/Pricing/Tests.antt =====
-- The price of small calls (src/moc/tenancy/pricing.py).
use moreofchat.Prelude.{ℕ, ◌≡◌, refl, Option, none, some, [], ◌∷◌, is_some}
use moreofchat.Dict.{Dict, get}
use moreofchat.Arabic.Numerals.{Ratio, add_ratio}
use moreofchat.Tenancy.Pricing.{
  Decimal, Rates, ModelRates, Usage, power_of_ten, cost, rate_or_zero, add_costs, total, half_even,
  quantize, is_over, price_model, price,
}
use moreofchat.Tenancy.Pricing.Nearest.{book_of, IsBill, price-IsNearest}
use moreofchat.Tenancy.Pricing.Rounding.{IsNearest}
use moreofchat.Tenancy.Pricing.Unpriced.{is_payable, price-is_payable}

abbrev tenths : ℕ → Option Decimal
tenths n = some (record { digits = n; places = 1 })

abbrev nothing : Rates
nothing = record { input = none; output = none; cached_input = none; cache_write = none }

-- 0.5 and 2.5 dollars for a million tokens, and no rate for a cache write.
abbrev rates : ModelRates
rates = record {
  short_context = record {
    input = tenths 5;
    output = tenths 25;
    cached_input = tenths 1;
    cache_write = none;
  };
  long_context = nothing;
  threshold = none;
}

abbrev table : Dict ModelRates
table = ("small", rates) ∷ []

abbrev usage : ℕ → Usage
usage written = record {
  input_tokens = 3;
  output_tokens = 2;
  cached_tokens = 1;
  cache_write_tokens = written;
}

-- 1.5 + 5 + 0.1 = 6.6 millionths.
priced : (price table "small" (usage 0)).usd ≡ some 7
unfolding price get price_model is_over total rate_or_zero add_costs cost power_of_ten add_ratio
    quantize half_even
priced = refl

price-IsNearest_example :
    (held : ModelRates) × (r : Ratio) × (get "small" table ≡ some held)
    × IsBill (book_of held (usage 0)) (usage 0) r
    × IsNearest 7 r
price-IsNearest_example = price-IsNearest table "small" (usage 0) 7 priced

price-is_payable_example :
    is_some (price table "small" (usage 4)).usd ≡ is_payable (book_of rates (usage 4)) (usage 4)
unfolding get
price-is_payable_example = price-is_payable table "small" (usage 4) rates refl
