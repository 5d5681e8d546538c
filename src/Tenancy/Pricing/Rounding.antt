-- ===== src/Tenancy/Pricing/Rounding.antt =====
-- Rounding half to even (src/moc/tenancy/pricing.py).
use moreofchat.Prelude.{
  ℕ, ◌+◌, ◌*◌, ◌/◌, ◌%◌, ◌≤◌, ◌<◌, ◌≡◌, ltb, ◌==◌, if-elim, arith, ◌⊎◌, inl, inr, ◌≢◌,
}
use native.Mathlib.Nat.{div-add-mod, mod-lt}
use moreofchat.Arabic.Numerals.{Ratio}
use moreofchat.Tenancy.Pricing.{half_even}

-- Nearer than half a unit, or just half a unit away and even, which twice the distance states without a
-- division.
abbrev pub IsNearest : ℕ → Ratio → Type 0
IsNearest n r =
    ((2 * (r.den * n) < 2 * r.num + r.den) × (2 * r.num < 2 * (r.den * n) + r.den))
    ⊎ ((n % 2 ≡ 0) × (2 * (r.den * n) ≤ 2 * r.num + r.den) × (2 * r.num ≤ 2 * (r.den * n) + r.den))

below-IsNearest :
    (num den : ℕ)
    → 0 < den
    → 2 * (num % den) < den
    → IsNearest (num / den) (record { num = num; den = den })
below-IsNearest num den filled low =
    let whole = div-add-mod num den in inl (omega (arith, whole, low), omega (arith, whole, low))

above-IsNearest :
    (num den : ℕ)
    → 0 < den
    → den < 2 * (num % den)
    → IsNearest (num / den + 1) (record { num = num; den = den })
above-IsNearest num den filled high =
    let whole = div-add-mod num den in
    let rest = mod-lt num filled in
    inl (grind (arith, whole, rest, high), grind (arith, whole, rest, high))

even_tie-IsNearest :
    (num den : ℕ)
    → 2 * (num % den) ≡ den
    → (num / den) % 2 ≡ 0
    → IsNearest (num / den) (record { num = num; den = den })
even_tie-IsNearest num den tie even =
    let whole = div-add-mod num den in
    inr (even, omega (arith, whole, tie), omega (arith, whole, tie))

next_even : (n : ℕ) → n % 2 ≢ 0 → (n + 1) % 2 ≡ 0
next_even n odd = omega (arith, odd)

odd_tie-IsNearest :
    (num den : ℕ)
    → 2 * (num % den) ≡ den
    → (num / den) % 2 ≢ 0
    → IsNearest (num / den + 1) (record { num = num; den = den })
odd_tie-IsNearest num den tie odd =
    let whole = div-add-mod num den in
    inr (next_even (num / den) odd, grind (arith, whole, tie), grind (arith, whole, tie))

pub half_even-IsNearest :
    (num den : ℕ) → 0 < den → IsNearest (half_even num den) (record { num = num; den = den })
unfolding half_even
half_even-IsNearest num den filled =
    let r : Ratio = record { num = num; den = den } in
    let rest = 2 * (num % den) in
    if-elim (λ (n : ℕ). IsNearest n r) (ltb rest den)
      (λ low. below-IsNearest num den filled (ground (arith, low)))
      (λ not_low.
        if-elim (λ (n : ℕ). IsNearest n r) (ltb den rest)
          (λ high. above-IsNearest num den filled (ground (arith, high)))
          (λ not_high.
            let tie : rest ≡ den = ground (arith, not_low, not_high) in
            if-elim (λ (n : ℕ). IsNearest n r) ((num / den) % 2 == 0)
              (λ even. even_tie-IsNearest num den tie (ground (arith, even)))
              (λ odd. odd_tie-IsNearest num den tie (ground (arith, odd)))))
