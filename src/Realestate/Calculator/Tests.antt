-- ===== src/Realestate/Calculator/Tests.antt =====
-- The schedule that the source quotes: 302,343 a quarter, and 302,355 at the end.
use moreofchat.Prelude.{◌<◌, ◌++◌, [], ◌∷◌, none, some, ◌≡◌, refl, length, replicate}
use moreofchat.Prelude.Int.{pos, ◌+ℤ◌, ◌-ℤ◌, scale, floor_div}
use moreofchat.Result.{ok, err}
use moreofchat.Dict.{get}
use moreofchat.Realestate.Calculator.{
  PaymentPlan, InventoryUnit, PaymentSchedule, payment_schedule, unoffered_down_payment,
  division_by_zero,
}
use moreofchat.Realestate.Calculator.Laws.{sum, schedule-reconciles}

abbrev quarterly : PaymentPlan
quarterly = record {
  down_payment_pct = 10;
  interest_rate = some 0;
  frequency = "quarterly";
  installment_count = 16;
  years = 4;
}

abbrev villa : InventoryUnit
villa = record { unit_id = "U-1"; as_of = none; price = 5_375_000; payment_plan = some quarterly }

abbrev villa_schedule : PaymentSchedule
villa_schedule = record {
  unit_id = "U-1";
  as_of = none;
  total = 5_375_000;
  down_payment = 537_500;
  down_payment_pct = 10;
  installment_amount = pos 302_343;
  installment_count = 16;
  final_installment_amount = pos 302_355;
  installments = replicate 15 (pos 302_343) ++ (pos 302_355 ∷ []);
  frequency = "quarterly";
  years = 4;
  interest_rate = 0;
}

villa_run : payment_schedule villa none ≡ ok villa_schedule
unfolding payment_schedule get ◌-ℤ◌ scale floor_div
villa_run = refl

other_terms : payment_schedule villa (some 40) ≡ err unoffered_down_payment
unfolding payment_schedule
other_terms = refl

schedule-reconciles_example :
    (pos villa_schedule.down_payment +ℤ sum villa_schedule.installments ≡ pos villa.price)
    × (length villa_schedule.installments ≡ villa_schedule.installment_count)
    × (0 < villa_schedule.installment_count)
schedule-reconciles_example = schedule-reconciles villa none villa_schedule villa_run

abbrev empty_plan : PaymentPlan
empty_plan = record quarterly { installment_count = 0; years = 0 }

divides_by_zero :
    payment_schedule (record villa { payment_plan = some empty_plan }) none ≡ err division_by_zero
unfolding payment_schedule get
divides_by_zero = refl
