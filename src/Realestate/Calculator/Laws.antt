-- ===== src/Realestate/Calculator/Laws.antt =====
-- What a published schedule adds up to, and which requests get one.
use Prim.Native.Nat.{◌*◌}
use moreofchat.Prelude.{
  ℕ, suc, zero, ◌+◌, ◌-◌, ◌/◌, ◌≤◌, ◌<◌, Option, none, some, List, [], ◌∷◌, ◌++◌, replicate, get_or,
  true, false, ◌≡◌, refl, ◌↔◌, inl, inr, length, length-append, length-replicate, All, All-append,
  arith, Option-cases,
}
use moreofchat.Prelude.Int.{
  ℤ, pos, negsuc, ◌+ℤ◌, ◌-ℤ◌, ◌≤ℤ◌, scale, floor_div, scale_parts, floor_div_parts, int_laws,
}
use moreofchat.Result.{ok, is_ok}
use moreofchat.Dict.{get}
use moreofchat.Realestate.Calculator.{
  payments_per_year, PaymentPlan, InventoryUnit, PaymentSchedule, compute, schedule_of,
  payment_schedule, differs,
}

unfoldable pub sum : List ℤ → ℤ
sum [] = pos 0
sum (x ∷ xs) = x +ℤ sum xs

sum-append : (xs ys : List ℤ) → sum (xs ++ ys) ≡ sum xs +ℤ sum ys
unfolding sum
sum-append [] ys = omega int_laws
sum-append (x ∷ xs) ys = rw (sum-append xs ys) (omega int_laws)

sum-replicate : (n : ℕ) (a : ℤ) → sum (replicate n a) ≡ scale n a
unfolding sum
sum-replicate zero a = omega (int_laws, scale_parts 0 a)
sum-replicate (suc n) a =
    rw (sum-replicate n a) (omega (int_laws, scale_parts n a, scale_parts (suc n) a))

-- A quotient rounded down, and the remainder added to one part of it.
remainder_bounds :
    (r : ℤ) (c : ℕ)
    → (floor_div r (suc c) ≤ℤ r -ℤ scale c (floor_div r (suc c)))
      × (r -ℤ scale c (floor_div r (suc c)) +ℤ pos 1 ≤ℤ floor_div r (suc c) +ℤ pos (suc c))
remainder_bounds r c =
    let q = floor_div r (suc c) in
    let near = floor_div_parts r c in
    (
      omega (int_laws, near, scale_parts c q, scale_parts (suc c) q),
      omega (int_laws, near, scale_parts c q, scale_parts (suc c) q),
    )

-- The parts of a schedule that came out of the arithmetic, with the plan that it was read from.
pub record Published (unit : InventoryUnit) (d : PaymentSchedule) : Type 0 where
  pub plan : PaymentPlan
  pub planned : unit.payment_plan ≡ some plan
  pub total : d.total ≡ unit.price
  pub pct : d.down_payment_pct ≡ plan.down_payment_pct
  pub down : d.down_payment ≡ (unit.price * plan.down_payment_pct + 50) / 100
  pub count : ℕ
  pub counted : d.installment_count ≡ suc count
  pub stated : d.installment_count ≡ plan.installment_count
  pub each : d.installment_amount ≡ floor_div (pos d.total -ℤ pos d.down_payment) (suc count)
  pub last :
      d.final_installment_amount
      ≡ pos d.total -ℤ pos d.down_payment -ℤ scale count d.installment_amount
  pub listed :
      d.installments ≡ replicate count d.installment_amount ++ (d.final_installment_amount ∷ [])

compute-Published :
    (unit : InventoryUnit) (plan : PaymentPlan) (rate per_year : ℕ) (d : PaymentSchedule)
    → unit.payment_plan ≡ some plan
    → compute unit plan rate per_year ≡ ok d
    → Published unit d
unfolding compute
compute-Published unit plan rate per_year d at h = record {
  plan = plan;
  planned = at;
  total = ground arith;
  pct = ground arith;
  down = ground arith;
  count = plan.installment_count - 1;
  counted = ground arith;
  stated = ground arith;
  each =
      let full : suc (plan.installment_count - 1) ≡ plan.installment_count = ground (arith, h) in
      rw full (ground arith);
  last = ground arith;
  listed = ground arith;
}

schedule_of-Published :
    (unit : InventoryUnit) (plan : PaymentPlan) (asked : Option ℕ) (d : PaymentSchedule)
    → unit.payment_plan ≡ some plan
    → schedule_of unit plan asked ≡ ok d
    → Published unit d
unfolding schedule_of
schedule_of-Published unit plan asked d at h =
    elim (Option-cases (get plan.frequency payments_per_year)) [
      | inl unknown ↦ absurd (ground (arith, h, unknown))
      | inr (per_year, known) ↦
          compute-Published unit plan (get_or plan.interest_rate 0) per_year d at
            (ground (arith, h, known))
    ]

payment_schedule-Published :
    (unit : InventoryUnit) (asked : Option ℕ) (d : PaymentSchedule)
    → payment_schedule unit asked ≡ ok d
    → Published unit d
unfolding payment_schedule
payment_schedule-Published unit asked d h = elim (Option-cases unit.payment_plan) [
  | inl none_there ↦ absurd (ground (arith, h, none_there))
  | inr (plan, at) ↦ schedule_of-Published unit plan asked d at (ground (arith, h, at))
]

-- A schedule adds up to the price to the pound: the down payment and the instalments, of which
-- there are as many as it states and at least one.
pub schedule-reconciles :
    (unit : InventoryUnit) (asked : Option ℕ) (d : PaymentSchedule)
    → payment_schedule unit asked ≡ ok d
    → (pos d.down_payment +ℤ sum d.installments ≡ pos unit.price)
      × (length d.installments ≡ d.installment_count)
      × (0 < d.installment_count)
unfolding sum
schedule-reconciles unit asked d h =
    let p = payment_schedule-Published unit asked d h in
    (
      rw (p.listed, sum-append, sum-replicate, p.last, p.total) (omega int_laws),
      rw (p.listed, length-append, length-replicate, p.counted) (omega arith),
      omega (arith, p.counted),
    )

-- The last instalment carries the remainder and no more: it is at least the others, and above them
-- by less than one pound for each instalment.
pub final_installment_bounds :
    (unit : InventoryUnit) (asked : Option ℕ) (d : PaymentSchedule)
    → payment_schedule unit asked ≡ ok d
    → (d.installment_amount ≤ℤ d.final_installment_amount)
      × (d.final_installment_amount +ℤ pos 1 ≤ℤ d.installment_amount +ℤ pos d.installment_count)
final_installment_bounds unit asked d h =
    let p = payment_schedule-Published unit asked d h in
    rw (p.last, p.each, p.counted) (remainder_bounds (pos d.total -ℤ pos d.down_payment) p.count)

-- The down payment is the offered share of the price, rounded half up.
pub down_payment-half_up :
    (unit : InventoryUnit) (asked : Option ℕ) (d : PaymentSchedule)
    → payment_schedule unit asked ≡ ok d
    → (100 * d.down_payment ≤ unit.price * d.down_payment_pct + 50)
      × (unit.price * d.down_payment_pct + 50 < 100 * d.down_payment + 100)
down_payment-half_up unit asked d h =
    let p = payment_schedule-Published unit asked d h in rw (p.down, p.pct) (omega arith)

abbrev pub IsNonneg : ℤ → Type 0
IsNonneg a = pos 0 ≤ℤ a

All-replicate : (n : ℕ) (a : ℤ) → IsNonneg a → All IsNonneg (replicate n a)
All-replicate zero a h = tt
All-replicate (suc n) a h = (h, All-replicate n a h)

floor_div-IsNonneg : (a : ℤ) (n : ℕ) → IsNonneg a → IsNonneg (floor_div a n)
unfolding floor_div
floor_div-IsNonneg (pos m) n h = omega arith
floor_div-IsNonneg (negsuc m) n h = absurd (omega arith)

-- Where the offered share is at most the whole price, the down payment is within the price and no
-- instalment is negative.
pub installments-IsNonneg :
    (unit : InventoryUnit) (asked : Option ℕ) (d : PaymentSchedule)
    → payment_schedule unit asked ≡ ok d
    → d.down_payment_pct ≤ 100
    → (d.down_payment ≤ unit.price) × All IsNonneg d.installments
installments-IsNonneg unit asked d h within =
    let p = payment_schedule-Published unit asked d h in
    let (low, high) = down_payment-half_up unit asked d h in
    let covered : d.down_payment ≤ unit.price = grind (arith, low, within) in
    let each : IsNonneg d.installment_amount =
      rw p.each (floor_div-IsNonneg _ (suc p.count) (rw p.total (omega (int_laws, covered)))) in
    let (least, most) = final_installment_bounds unit asked d h in
    (
      covered,
      rw p.listed (
          All-append IsNonneg (replicate p.count d.installment_amount)
            (d.final_installment_amount ∷ []) (All-replicate p.count _ each)
            (omega (arith, each, least), tt)),
    )

-- Terms that were published for the unit and that the request agrees with.
pub record Terms (unit : InventoryUnit) (asked : Option ℕ) : Type 0 where
  pub plan : PaymentPlan
  pub planned : unit.payment_plan ≡ some plan
  pub same : (pct : ℕ) → asked ≡ some pct → pct ≡ plan.down_payment_pct
  pub free : get_or plan.interest_rate 0 ≡ 0
  pub per_year : ℕ
  pub known : get plan.frequency payments_per_year ≡ some per_year
  pub consistent : plan.installment_count ≡ plan.years * per_year
  pub due : 0 < plan.installment_count

differs-false :
    (asked : Option ℕ) (offered : ℕ)
    → ((pct : ℕ) → asked ≡ some pct → pct ≡ offered)
    → differs asked offered ≡ false
differs-false none offered h = refl
differs-false (some pct) offered h = ground (arith, h pct refl)

schedule_of-Terms :
    (unit : InventoryUnit) (plan : PaymentPlan) (asked : Option ℕ)
    → unit.payment_plan ≡ some plan
    → is_ok (schedule_of unit plan asked) ≡ true
    → Terms unit asked
unfolding schedule_of
schedule_of-Terms unit plan asked at h =
    elim (Option-cases (get plan.frequency payments_per_year)) [
      | inl unknown ↦ absurd (ground (arith, h, unknown))
      | inr (per_year, known) ↦ record {
        plan = plan;
        planned = at;
        same = λ pct e. ground (arith, h, e);
        free = ground (arith, h);
        per_year = per_year;
        known = known;
        consistent = ground (arith, h, known);
        due = ground (arith, h, known);
      }
    ]

-- Exactly which requests get a schedule: the unit has a plan, the percentage asked for, if any, is
-- the one offered, the plan carries no interest, its frequency is a known one, and its count of
-- instalments is that of its years and is not zero.
pub payment_schedule-Terms :
    (unit : InventoryUnit) (asked : Option ℕ)
    → (is_ok (payment_schedule unit asked) ≡ true) ↔ Terms unit asked
unfolding payment_schedule
payment_schedule-Terms unit asked = (
  λ h. elim (Option-cases unit.payment_plan) [
    | inl none_there ↦ absurd (ground (arith, h, none_there))
    | inr (plan, at) ↦ schedule_of-Terms unit plan asked at (ground (arith, h, at))
  ],
  λ t. ground (arith, differs-false asked t.plan.down_payment_pct t.same),
)

-- Naming the offered percentage is the same request as naming none.
pub payment_schedule-offered :
    (unit : InventoryUnit) (plan : PaymentPlan)
    → unit.payment_plan ≡ some plan
    → payment_schedule unit (some plan.down_payment_pct) ≡ payment_schedule unit none
unfolding payment_schedule
payment_schedule-offered unit plan at = ground arith
