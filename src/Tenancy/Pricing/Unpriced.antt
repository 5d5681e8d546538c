-- ===== src/Tenancy/Pricing/Unpriced.antt =====
-- Which calls have no price (src/moc/tenancy/pricing.py).
use moreofchat.Prelude.{
  ℕ, zero, suc, ◌≡◌, refl, String, Bool, Option, none, some, ◌==◌, arith, ◌&&◌, ◌||◌, is_some, ap,
  sym, ◌∙◌,
}
use moreofchat.Dict.{Dict, get}
use moreofchat.Tenancy.Pricing.{
  Decimal, Rates, ModelRates, Usage, rate_or_zero, add_costs, total, quantize, price_model, price,
}
use moreofchat.Tenancy.Pricing.Nearest.{book_of, book_usd}

-- Every rate that the call uses is there: the two base rates, and a cache rate where such tokens are.
abbrev pub is_payable : Rates → Usage → Bool
is_payable book u =
    is_some book.input
    && is_some book.output
    && (is_some book.cached_input || u.cached_tokens == 0)
    && (is_some book.cache_write || u.cache_write_tokens == 0)

rate_or_zero-is_some :
    (tokens : ℕ) (rate : Option Decimal)
    → is_some (rate_or_zero tokens rate) ≡ (is_some rate || tokens == 0)
unfolding rate_or_zero
rate_or_zero-is_some tokens (some rate) = refl
rate_or_zero-is_some zero none = refl
rate_or_zero-is_some (suc tokens) none = ground arith

add_costs-is_some :
    (u : Usage) (input output cached write : Option Decimal)
    → is_some (quantize (add_costs u input output cached write))
      ≡ (is_some input && is_some output && is_some cached && is_some write)
unfolding add_costs quantize
add_costs-is_some u (some i) (some o) (some c) (some w) = refl
add_costs-is_some u (some i) (some o) (some c) none = refl
add_costs-is_some u (some i) (some o) none write = refl
add_costs-is_some u (some i) none cached write = refl
add_costs-is_some u none output cached write = refl

book-is_some : (book : Rates) (u : Usage) → is_some (quantize (total book u)) ≡ is_payable book u
unfolding total
book-is_some book u = ground (
  arith,
  add_costs-is_some u book.input book.output (rate_or_zero u.cached_tokens book.cached_input)
      (rate_or_zero u.cache_write_tokens book.cache_write),
  rate_or_zero-is_some u.cached_tokens book.cached_input,
  rate_or_zero-is_some u.cache_write_tokens book.cache_write,
)

price_model-is_some :
    (rates : ModelRates) (u : Usage)
    → is_some (price_model (some rates) u).usd ≡ is_payable (book_of rates u) u
price_model-is_some rates u =
    ap (λ (usd : Option ℕ). is_some usd)
      (sym (book_usd rates.short_context rates.long_context rates.threshold u))
    ∙ book-is_some (book_of rates u) u

-- A call has a price exactly where each rate that it uses is in the table: the input and output rates of
-- the block that holds for its prompt, and the rate of cached or of written tokens where it has any. A
-- missing rate gives no price, never zero.
pub price-is_payable :
    (table : Dict ModelRates) (model : String) (u : Usage) (rates : ModelRates)
    → get model table ≡ some rates
    → is_some (price table model u).usd ≡ is_payable (book_of rates u) u
unfolding price
price-is_payable table model u rates held = rw held (price_model-is_some rates u)
