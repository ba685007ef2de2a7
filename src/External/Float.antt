-- ===== src/External/Float.antt =====
-- The arithmetic of float64, as internal/api/api.go uses it: on values that are not negative.
use open_kmip_server.Common.{ℕ, suc, ◌*◌, ◌^◌, ◌≤◌}

pub record Float64 : Type 1 where
  pub Float : Type 0
  -- d.Seconds() of a time.Duration, which counts nanoseconds
  pub seconds : ℕ → Float
  -- the constant a / b, which the compiler computes exactly and then rounds
  pub constant : ℕ → ℕ → Float
  pub mul : Float → Float → Float
  -- int(x), which cuts the fraction off
  pub to_int : Float → ℕ

-- What IEEE 754 says of the roundings, from above: each has a relative error of at most 2 ^ -53. A value
-- is a number of smallest steps (2 ^ -1074), of which 1.0 has `one`; +Inf counts as 2 ^ 1024.
pub record IsFloat64 (f : Float64) : Type 0 where
  pub steps : f.Float → ℕ
  pub one : ℕ
  pub one-positive : 1 ≤ one
  -- two roundings: float64(nsec) / 1e9, and its sum with float64(sec)
  pub steps-seconds : (d : ℕ) → steps (f.seconds d) * (1000000000 * 2 ^ 51) ≤ d * one * suc (2 ^ 51)
  pub steps-constant :
      (a b : ℕ) → 1 ≤ b → b ≤ a → steps (f.constant a b) * (b * 2 ^ 53) ≤ a * one * suc (2 ^ 53)
  -- a product from 1.0 on, which is no subnormal number
  pub steps-mul :
      (x y : f.Float)
      → one ≤ steps (f.mul x y)
      → steps (f.mul x y) * one * 2 ^ 53 ≤ steps x * steps y * suc (2 ^ 53)
  pub to_int-steps : (x : f.Float) → f.to_int x * one ≤ steps x
