-- ===== src/Work/Margin.antt =====
-- The claim decision in exact arithmetic.
use native.Mathlib.Nat.{le-div_iff_mul-le, mod-eq_of_lt}
use nexus_client.Prelude.{ℕ, ◌*◌, ◌/◌, ◌%◌, ◌^◌, ◌≤◌, ◌<◌, ◌≡◌, ◌↔◌, true, arith}
use nexus_client.Work.Select.{should_claim}

-- A product of two 64-bit numbers fits 128 bits.
product_fits : (a b : ℕ) → a < 2 ^ 64 → b < 2 ^ 64 → a * b < 2 ^ 128
product_fits a b h k = grind arith

-- For 64-bit rewards and margins the 128-bit product does not overflow: a job is claimed exactly when its
-- reward reaches the floor, the denominator is not zero, and cost * denominator is at most
-- reward * numerator.
pub should_claim_iff :
    (reward est floor num den : ℕ)
    → reward < 2 ^ 64
    → num < 2 ^ 64
    → (should_claim reward est floor num den ≡ true)
      ↔ ((floor ≤ reward) × (0 < den) × (est * den ≤ reward * num))
unfolding should_claim
should_claim_iff reward est floor num den h k =
    let fits = product_fits reward num h k in
    let exact : reward * num % 2 ^ 128 ≡ reward * num = mod-eq_of_lt fits in
    rw exact (
      λ e.
          let pos : 0 < den = ground arith in
          (ground arith, pos, (le-div_iff_mul-le pos).0 (ground arith)),
      λ (reach, pos, cheap).
          let low : est ≤ reward * num / den = (le-div_iff_mul-le pos).1 cheap in ground arith,
    )
