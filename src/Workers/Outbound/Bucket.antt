-- ===== src/Workers/Outbound/Bucket.antt =====
-- The token bucket keeps to its rate, whatever the clock does (src/moc/workers/outbound.py).
use moreofchat.Prelude.{
  ℕ, ◌+◌, ◌*◌, ◌≤◌, ◌≡◌, refl, ap, sym, subst, Bool, some, List, [], ◌∷◌, if◌then◌else◌, if-elim,
  arith,
}
use moreofchat.Prelude.Int.{
  ℤ, pos, pos_part, neg_part, scale, ◌+ℤ◌, ◌-ℤ◌, ◌≤ℤ◌, +ℤ_parts, -ℤ_parts, scale_parts,
}
use native.Mathlib.Nat.{mul-le-mul_left}
use moreofchat.Workers.Outbound.{RateLimit, Stored, ltb_ℤ, min_ℤ, held, refilled, draw_from, draw}

scale_sub :
    (n : ℕ) (a b : ℤ)
    → pos_part (scale n (a -ℤ b)) + n * neg_part a + n * pos_part b
      ≡ neg_part (scale n (a -ℤ b)) + n * pos_part a + n * neg_part b
scale_sub n a b =
    let difference = ap (λ m. n * m) (-ℤ_parts a b) in
    let scaled = scale_parts n (a -ℤ b) in grind (arith, difference, scaled)

abbrev pub bucket : ℤ → ℤ → Stored
bucket k at_time = record { tokens = some k; updated_at = some at_time }

refilled_le :
    (l : RateLimit) (now k last : ℤ)
    → pos_part (refilled l now (k, last))
        + neg_part k
        + l.refill * pos_part last
        + l.refill * neg_part now
      ≤ neg_part (refilled l now (k, last))
        + pos_part k
        + l.refill * pos_part now
        + l.refill * neg_part last
unfolding refilled min_ℤ ltb_ℤ
refilled_le l now k last =
    let step = scale_sub l.refill now last in
    let sum = +ℤ_parts k (scale l.refill (now -ℤ last)) in ground arith

-- The clock does not go back.
abbrev pub Ascends : ℤ → List ℤ → Type 0
Ascends t [] = Unit
Ascends t (now ∷ later) = (t ≤ℤ now) × Ascends now later

refilled_ge :
    (l : RateLimit) (now k last : ℤ) → pos 0 ≤ℤ k → last ≤ℤ now → pos 0 ≤ℤ refilled l now (k, last)
unfolding refilled min_ℤ ltb_ℤ
refilled_ge l now k last nonneg ascends =
    let step = scale_sub l.refill now last in
    let sum = +ℤ_parts k (scale l.refill (now -ℤ last)) in
    let longer =
      mul-le-mul_left {m = pos_part last + neg_part now} {n = pos_part now + neg_part last} l.refill
        (omega (arith, ascends)) in
    grind (arith, longer)

-- The parts of a token that a draw takes from the bucket.
abbrev taken : RateLimit → Bool → ℕ
taken l granted = if granted then l.unit else 0

draw_from_parts :
    (l : RateLimit) (now k : ℤ)
    → (k' : ℤ) × ((draw_from l now k).0 ≡ bucket k' now)
      × (pos_part k' + taken l (draw_from l now k).1 + neg_part k ≡ neg_part k' + pos_part k)
      × (pos 0 ≤ℤ k → pos 0 ≤ℤ k')
unfolding draw_from ltb_ℤ
draw_from_parts l now k =
    let less = -ℤ_parts k (pos l.unit) in
    if-elim
      (λ (r : Stored × Bool).
        (k' : ℤ) × (r.0 ≡ bucket k' now)
        × (pos_part k' + taken l r.1 + neg_part k ≡ neg_part k' + pos_part k)
        × (pos 0 ≤ℤ k → pos 0 ≤ℤ k'))
      (ltb_ℤ k (pos l.unit)) (λ short. (k, refl, omega arith, λ nonneg. nonneg))
      (λ enough. (k -ℤ pos l.unit, refl, omega (arith, less), λ nonneg. ground (arith, less)))

-- k' parts at the time t', after a grant of g parts, are within the k parts at the time t and the
-- refill of the time between.
Within : RateLimit → ℤ → ℤ → ℤ → ℤ → ℕ → Type 0
Within l k t k' t' g =
    pos_part k' + g + neg_part k + l.refill * pos_part t + l.refill * neg_part t'
    ≤ neg_part k' + pos_part k + l.refill * pos_part t' + l.refill * neg_part t

draw-Within :
    (l : RateLimit) (now k last : ℤ)
    → (k' : ℤ) × ((draw l now (some (bucket k last))).0 ≡ bucket k' now)
      × Within l k last k' now (taken l (draw l now (some (bucket k last))).1)
      × (pos 0 ≤ℤ k → last ≤ℤ now → pos 0 ≤ℤ k')
unfolding draw held Within
draw-Within l now k last =
    let level = refilled_le l now k last in
    let drawn = draw_from_parts l now (refilled l now (k, last)) in
    (
      drawn.0,
      drawn.1,
      omega (arith, level, drawn.2),
      λ nonneg ascends. drawn.3 (refilled_ge l now k last nonneg ascends),
    )

-- Successive draws at the given times, and the parts of tokens that they granted.
unfoldable pub draws : RateLimit → Stored → List ℤ → Stored × ℕ
draws l stored [] = (stored, 0)
draws l stored (now ∷ later) =
    let here = draw l now (some stored) in
    let rest = draws l here.0 later in (rest.0, taken l here.1 + rest.1)

abbrev pub last_of : ℤ → List ℤ → ℤ
last_of t [] = t
last_of t (now ∷ later) = last_of now later

draws-Within :
    (l : RateLimit) (k t : ℤ) (times : List ℤ)
    → (k' : ℤ) × ((draws l (bucket k t) times).0 ≡ bucket k' (last_of t times))
      × Within l k t k' (last_of t times) (draws l (bucket k t) times).1
      × (pos 0 ≤ℤ k → Ascends t times → pos 0 ≤ℤ k')
unfolding draws Within
draws-Within l k t [] = (k, refl, omega arith, λ nonneg ascends. nonneg)
draws-Within l k t (now ∷ later) =
    let here = draw-Within l now k t in
    let rest = draws-Within l here.0 now later in
    subst
      (λ (s : Stored).
        (k' : ℤ) × ((draws l s later).0 ≡ bucket k' (last_of now later))
        × Within l k t k' (last_of now later)
            (taken l (draw l now (some (bucket k t))).1 + (draws l s later).1)
        × (pos 0 ≤ℤ k → Ascends t (now ∷ later) → pos 0 ≤ℤ k'))
      (sym here.1)
      (
        rest.0,
        rest.1,
        omega (arith, here.2, rest.2),
        λ nonneg ascends. rest.3 (here.3 nonneg ascends.0) ascends.1,
      )

-- Where the bucket holds k parts at the time t and the clock does not go back, draws grant no more
-- than k and what is refilled from t to the last of them.
pub draws-limit :
    (l : RateLimit) (k t : ℤ) (times : List ℤ)
    → pos 0 ≤ℤ k
    → Ascends t times
    → pos (draws l (bucket k t) times).1 ≤ℤ (k +ℤ scale l.refill (last_of t times -ℤ t))
unfolding Within
draws-limit l k t times nonneg ascends =
    let final = draws-Within l k t times in
    let left = final.3 nonneg ascends in
    let step = scale_sub l.refill (last_of t times) t in
    let sum = +ℤ_parts k (scale l.refill (last_of t times -ℤ t)) in
    omega (arith, final.2, left, step, sum)
