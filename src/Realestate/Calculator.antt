-- ===== src/Realestate/Calculator.antt =====
-- src/moc/verticals/realestate/calculator.py: the published payment schedule of a unit, or a
-- refusal. Prices, percentages, counts and years are whole numbers that are not negative, as the
-- inventory holds them; what the arithmetic makes of them may be negative, so a schedule is in ℤ.
pub mod Laws
mod Tests
use moreofchat.Prelude.{
  ℕ, suc, zero, ◌+◌, ◌-◌, ◌*◌, ◌/◌, String, str_eq, Option, none, some, List, [], ◌∷◌, ◌++◌, ◌==◌,
  if◌then◌else◌, not, replicate, get_or, Bool, true, false,
}
use moreofchat.Prelude.Int.{ℤ, pos, ◌-ℤ◌, scale, floor_div}
use moreofchat.Result.{Result, ok, err, require, ◌>>=◌, ◌>>◌}
use moreofchat.Dict.{Dict, get}

-- The exceptions, with the division by a count of zero, which the code does not test for.
pub data Refusal : Type 0 where
  plan_unavailable unoffered_down_payment carries_interest unknown_frequency : Refusal
  inconsistent_count division_by_zero : Refusal

abbrev pub payments_per_year : Dict ℕ
payments_per_year =
    ("monthly", 12) ∷ ("quarterly", 4) ∷ ("semi-annually", 2) ∷ ("annually", 1) ∷ ("yearly", 1) ∷ []

pub record PaymentPlan : Type 0 where
  pub down_payment_pct : ℕ
  pub interest_rate : Option ℕ
  pub frequency : String
  pub installment_count : ℕ
  pub years : ℕ

pub record InventoryUnit : Type 0 where
  pub unit_id : String
  pub as_of : Option String
  pub price : ℕ
  pub payment_plan : Option PaymentPlan

pub record PaymentSchedule : Type 0 where
  pub unit_id : String
  pub as_of : Option String
  pub total : ℕ
  pub down_payment : ℕ
  pub down_payment_pct : ℕ
  pub installment_amount : ℤ
  pub installment_count : ℕ
  pub final_installment_amount : ℤ
  pub installments : List ℤ
  pub frequency : String
  pub years : ℕ
  pub interest_rate : ℕ

-- From the price on, for a plan whose terms are the ones asked for and understood.
compute : InventoryUnit → PaymentPlan → ℕ → ℕ → Result Refusal PaymentSchedule
compute unit plan rate per_year =
    let down_payment = (unit.price * plan.down_payment_pct + 50) / 100 in
    let count = plan.installment_count in
    if not (count == plan.years * per_year)
    then err inconsistent_count
    else if count == 0
    then err division_by_zero
    else let remaining = pos unit.price -ℤ pos down_payment in
      let installment = floor_div remaining count in
      let final = remaining -ℤ scale (count - 1) installment in
      ok (record {
        unit_id = unit.unit_id;
        as_of = unit.as_of;
        total = unit.price;
        down_payment = down_payment;
        down_payment_pct = plan.down_payment_pct;
        installment_amount = installment;
        installment_count = count;
        final_installment_amount = final;
        installments = replicate (count - 1) installment ++ (final ∷ []);
        frequency = plan.frequency;
        years = plan.years;
        interest_rate = rate;
      })

-- Whether a percentage was asked for that is not the one offered.
abbrev pub differs : Option ℕ → ℕ → Bool
differs none offered = false
differs (some asked) offered = not (asked == offered)

schedule_of : InventoryUnit → PaymentPlan → Option ℕ → Result Refusal PaymentSchedule
unfolding compute
schedule_of unit plan asked =
    let rate = get_or plan.interest_rate 0 in
    if differs asked plan.down_payment_pct
    then err unoffered_down_payment
    else if not (rate == 0)
    then err carries_interest
    else do
      per_year ← require unknown_frequency (get plan.frequency payments_per_year)
      compute unit plan rate per_year

pub payment_schedule : InventoryUnit → Option ℕ → Result Refusal PaymentSchedule
unfolding schedule_of
payment_schedule unit asked = do
  plan ← require plan_unavailable unit.payment_plan
  schedule_of unit plan asked
