-- ===== src/Api/Refill.antt =====
-- How many tokens come back to a bucket (internal/api/api.go), in the roundings of float64.
use native.Mathlib.Nat.{mul-le-mul, mul-le-mul_right, le_of_mul-le-mul_right}
use open_kmip_server.Common.{ℕ, suc, ◌*◌, ◌^◌, ◌≤◌, ◌==◌, ◌≡◌, arith, Bool-cases, inl, inr, false}
use open_kmip_server.External.Float.{Float64, IsFloat64}
use open_kmip_server.Api.Limiter.{refill}

-- What the bounds of the four steps make together: r tokens of u steps each are in the product p of s
-- and c, where x, k and m scale the bounds of the product, of s and of c.
bounds_compose :
    (r u p s c d x x' k l m n : ℕ)
    → 1 ≤ u
    → r * u ≤ p
    → p * u * x ≤ s * c * x'
    → s * k ≤ d * u * l
    → c * m ≤ n * u * x'
    → r * (x * m * k) ≤ d * l * n * (x' * x')
bounds_compose r u p s c d x x' k l m n positive h_int h_mul h_s h_c =
    le_of_mul-le-mul_right {k = u * u} chain square
  where
    scaled : p * u * x * (m * k) ≤ s * c * x' * (m * k)
    scaled = mul-le-mul_right (m * k) h_mul

    tokens : r * u * (u * x * (m * k)) ≤ p * (u * x * (m * k))
    tokens = mul-le-mul_right (u * x * (m * k)) h_int

    factors : s * k * (c * m) * x' ≤ d * u * l * (n * u * x') * x'
    factors = mul-le-mul_right x' (mul-le-mul h_s h_c)

    square : 1 * 1 ≤ u * u
    square = mul-le-mul positive positive

    to_scaled : p * (u * x * (m * k)) ≡ p * u * x * (m * k)
    to_scaled = grind arith

    to_factors : s * c * x' * (m * k) ≡ s * k * (c * m) * x'
    to_factors = grind arith

    from_tokens : r * u * (u * x * (m * k)) ≡ r * (x * m * k) * (u * u)
    from_tokens = grind arith

    to_bound : d * u * l * (n * u * x') * x' ≡ d * l * n * (x' * x') * (u * u)
    to_bound = grind arith

    chain : r * (x * m * k) * (u * u) ≤ d * l * n * (x' * x') * (u * u)
    chain = omega (arith, tokens, scaled, factors, to_scaled, to_factors, from_tokens, to_bound)

positive_count : (n : ℕ) → (n == 0) ≡ false → 1 ≤ n
positive_count n h = ground (arith, h)

-- In the first minute since the last request, at most one token comes back for each 0.6 seconds.
pub refill-bounded :
    (float : Float64) (law : IsFloat64 float) (d : ℕ)
    → d ≤ 60000000000
    → refill float d * 600000000 ≤ d
unfolding refill
refill-bounded float law d h = elim (Bool-cases (refill float d == 0)) [
  | inl nothing ↦ ground (arith, nothing)
  | inr some_tokens ↦
      let law_one : 1 * law.one ≤ refill float d * law.one =
        mul-le-mul_right law.one (positive_count (refill float d) some_tokens) in
      let p = float.mul (float.seconds d) (float.constant 100 60) in
      omega (
        arith,
        h,
        bounds_compose (refill float d) law.one (law.steps p) (law.steps (float.seconds d))
            (law.steps (float.constant 100 60)) d (2 ^ 53) (suc (2 ^ 53)) (1000000000 * 2 ^ 51)
            (suc (2 ^ 51)) (60 * 2 ^ 53) 100 law.one-positive (law.to_int-steps p)
            (law.steps-mul _ _ (omega (arith, law_one, law.to_int-steps p))) (law.steps-seconds d)
            (law.steps-constant 100 60 (omega arith) (omega arith)),
      )
]
