-- ===== src/Api/Bounds.antt =====
-- How many requests the rate limiter lets an address make (internal/api/api.go).
use open_kmip_server.Common.{
  ℕ, suc, ◌+◌, ◌-◌, ◌*◌, ◌≤◌, String, true, false, ◌&&◌, ◌≡◌, refl, ◌∙◌, none, some, List, [], ◌∷◌,
  arith, ltb, ◌==◌, str_eq, eq_iff, eq_refl, Bool-cases, Option-cases, inl, inr, if◌then◌else◌,
}
use open_kmip_server.Common.Dict
use open_kmip_server.Common.Dict.{get-put, get-empty}
use open_kmip_server.External.Float.{Float64, IsFloat64}
use open_kmip_server.Api.Refill.{refill-bounded}
use open_kmip_server.Api.Limiter.{RateBucket, IpRateLimiter, new_ip_rate_limiter, allow, refilled}

-- The time in which one token comes back, 0.6 seconds.
abbrev pub token_time : ℕ
token_time = 600000000

-- Requests from addresses, at times that do not go back from t on.
abbrev pub InOrder : ℕ → List (ℕ × String) → Type 0
InOrder t [] = Unit
InOrder t ((now, ip) ∷ requests) = (t ≤ now) × InOrder now requests

-- The time of the last request.
abbrev pub last_time : ℕ → List (ℕ × String) → ℕ
last_time t [] = t
last_time t ((now, ip) ∷ requests) = last_time now requests

last_time-later :
    (t : ℕ) (requests : List (ℕ × String)) → InOrder t requests → t ≤ last_time t requests
last_time-later t [] h = omega arith
last_time-later t ((now, ip) ∷ requests) h = omega (arith, h.0, last_time-later now requests h.1)

-- The limiter after a request that leaves the bucket of the address so.
abbrev with_bucket : IpRateLimiter → String → ℕ → ℕ → IpRateLimiter
with_bucket rl ip tokens now = record rl {
  visitors = Dict.put rl.visitors ip (record { tokens = tokens; last_seen = now });
}

bucket_there :
    (rl : IpRateLimiter) (ip : String) (tokens now : ℕ)
    → Dict.get (with_bucket rl ip tokens now).visitors ip
      ≡ some (record { tokens = tokens; last_seen = now })
bucket_there rl ip tokens now =
    ground
      (arith, eq_refl ip, get-put rl.visitors ip ip (record { tokens = tokens; last_seen = now }))

positive : (n : ℕ) → (n == 0) ≡ false → 1 ≤ n
positive n h = ground (arith, h)

module _ (float : Float64) where
  -- How many of the requests come from the address and are let through.
  unfoldable pub allowed : String → IpRateLimiter → List (ℕ × String) → ℕ
  allowed ip rl [] = 0
  allowed ip rl ((now, from) ∷ requests) =
      let rest = allowed ip (allow float now rl from).1 requests in
      if str_eq from ip && (allow float now rl from).0 then suc rest else rest

  module _ (now : ℕ) (rl : IpRateLimiter) (ip : String) (b : RateBucket)
      (found : Dict.get rl.visitors ip ≡ some b) where
    allow-empty :
        (refilled float now b == 0) ≡ true
        → allow float now rl ip ≡ (false, with_bucket rl ip 0 now)
    unfolding allow
    allow-empty empty = rw (allow, found, empty) refl

    allow-left :
        (refilled float now b == 0) ≡ false
        → allow float now rl ip ≡ (true, with_bucket rl ip (refilled float now b - 1) now)
    unfolding allow
    allow-left left = rw (allow, found, left) refl

  module _ (law : IsFloat64 float) where
    refilled-bounded :
        (now : ℕ) (b : RateBucket)
        → refilled float now b * token_time ≤ b.tokens * token_time + (now - b.last_seen)
    refilled-bounded now b = elim (Bool-cases (ltb (100 * token_time) (now - b.last_seen))) [
      | inl long ↦ ground (arith, long)
      | inr short ↦
          ground
            (arith, short, refill-bounded float law (now - b.last_seen) (ground (arith, short)))
    ]

    allow-first :
        (now : ℕ) (rl : IpRateLimiter) (ip : String)
        → Dict.get rl.visitors ip ≡ none
        → allow float now rl ip ≡ (true, with_bucket rl ip 99 now)
    unfolding allow
    allow-first now rl ip missing = rw (allow, missing) refl

    -- The buckets of other addresses.
    allow-elsewhere :
        (now : ℕ) (rl : IpRateLimiter) (from ip : String)
        → str_eq from ip ≡ false
        → Dict.get (allow float now rl from).1.visitors ip ≡ Dict.get rl.visitors ip
    unfolding allow
    allow-elsewhere now rl from ip other = elim (Option-cases (Dict.get rl.visitors from)) [
      | inl missing ↦ ground (
        arith,
        missing,
        other,
        get-put rl.visitors from ip (record { tokens = 99; last_seen = now }),
      )
      | inr (old, there) ↦ ground (
        arith,
        there,
        other,
        get-put rl.visitors from ip (record { tokens = 0; last_seen = now }),
        get-put rl.visitors from ip
            (record { tokens = refilled float now old - 1; last_seen = now }),
      )
    ]

    allowed-from :
        (ip : String) (rl : IpRateLimiter) (t : ℕ) (requests : List (ℕ × String)) (b : RateBucket)
        → Dict.get rl.visitors ip ≡ some b
        → b.last_seen ≤ t
        → InOrder t requests
        → allowed ip rl requests * token_time
          ≤ b.tokens * token_time + (last_time t requests - b.last_seen)
    unfolding allowed
    allowed-from ip rl t [] b found seen ordered = omega arith
    allowed-from ip rl t ((now, from) ∷ requests) b found seen ordered =
        elim (Bool-cases (str_eq from ip)) [
          | inl own ↦
              let same : from ≡ ip = (eq_iff from ip).0 own in
              rw (same, eq_refl ip)
                (elim (Bool-cases (refilled float now b == 0)) [
                  | inl empty ↦ rw (allow-empty now rl ip b found empty) (
                      omega (
                        arith,
                        allowed-from ip (with_bucket rl ip 0 now) now requests
                            (record { tokens = 0; last_seen = now }) (bucket_there rl ip 0 now)
                            (omega arith) ordered.1,
                        ordered.0,
                        seen,
                        last_time-later now requests ordered.1,
                      ))
                  | inr left ↦ rw (allow-left now rl ip b found left) (
                      omega (
                        arith,
                        allowed-from ip (with_bucket rl ip (refilled float now b - 1) now) now
                            requests (record { tokens = refilled float now b - 1; last_seen = now })
                            (bucket_there rl ip (refilled float now b - 1) now) (omega arith)
                            ordered.1,
                        refilled-bounded now b,
                        positive (refilled float now b) left,
                        ordered.0,
                        seen,
                        last_time-later now requests ordered.1,
                      ))
                ])
          | inr other ↦ rw other (
              omega (
                arith,
                allowed-from ip (allow float now rl from).1 now requests b
                    (allow-elsewhere now rl from ip other ∙ found) (omega (arith, seen, ordered.0))
                    ordered.1,
              ))
        ]

    first-allowed :
        (ip : String) (rl : IpRateLimiter) (t : ℕ) (requests : List (ℕ × String))
        → Dict.get rl.visitors ip ≡ none
        → InOrder t requests
        → allowed ip rl requests * token_time ≤ 100 * token_time + (last_time t requests - t)
    unfolding allowed
    first-allowed ip rl t [] missing ordered = omega arith
    first-allowed ip rl t ((now, from) ∷ requests) missing ordered =
        elim (Bool-cases (str_eq from ip)) [
          | inl own ↦
              let same : from ≡ ip = (eq_iff from ip).0 own in
              rw (same, eq_refl ip, allow-first now rl ip missing)
                (omega (
                  arith,
                  allowed-from ip (with_bucket rl ip 99 now) now requests
                      (record { tokens = 99; last_seen = now }) (bucket_there rl ip 99 now)
                      (omega arith) ordered.1,
                  ordered.0,
                  last_time-later now requests ordered.1,
                ))
          | inr other ↦ rw other (
              omega (
                arith,
                first-allowed ip (allow float now rl from).1 now requests
                    (allow-elsewhere now rl from ip other ∙ missing) ordered.1,
                ordered.0,
                last_time-later now requests ordered.1,
              ))
        ]

    -- With the roundings of float64 as documented: of any requests to a new limiter, at times that do not
    -- go back, one address gets through at most a hundred and one for each 0.6 seconds from the start to
    -- the last request.
    pub allowed-bounded :
        (ip : String) (t : ℕ) (requests : List (ℕ × String))
        → InOrder t requests
        → allowed ip new_ip_rate_limiter requests * token_time
          ≤ 100 * token_time + (last_time t requests - t)
    unfolding new_ip_rate_limiter
    allowed-bounded ip t requests ordered =
        first-allowed ip new_ip_rate_limiter t requests (get-empty {V = RateBucket} ip) ordered
