-- ===== src/Api/Limiter.antt =====
-- internal/api/api.go: the rate limiter, one bucket for each address. The clock is the monotonic one
-- that now.Sub reads, so no elapsed time is negative.
use open_kmip_server.Common.{
  ℕ, suc, ◌+◌, ◌-◌, String, Bool, true, false, none, some, ltb, ◌==◌, if◌then◌else◌,
}
use open_kmip_server.Common.Dict
use open_kmip_server.Common.Dict.{Dict}
use open_kmip_server.External.Float.{Float64}
use open_kmip_server.External.Libraries.{Libraries}
use open_kmip_server.Kmip.Action.{World, fail, Outcome}
use open_kmip_server.Web.Http.{extract_ip}
use open_kmip_server.Api.{Answered, Backend, ApiRequest, Handler, log_audit}

pub record RateBucket : Type 0 where
  pub tokens : ℕ
  pub last_seen : ℕ

pub record IpRateLimiter : Type 0 where
  pub visitors : Dict RateBucket

unfoldable pub new_ip_rate_limiter : IpRateLimiter
new_ip_rate_limiter = record { visitors = Dict.empty }

abbrev pub bucket_size : ℕ
bucket_size = 100

-- if b.tokens > 100 { b.tokens = 100 }
abbrev pub capped : ℕ → ℕ
capped tokens = if ltb bucket_size tokens then bucket_size else tokens

module _ (float : Float64) where
  open float use {seconds, constant, mul, to_int}

  -- int(elapsed * (100.0 / 60.0)), for an elapsed time in nanoseconds
  unfoldable pub refill : ℕ → ℕ
  refill elapsed = to_int (mul (seconds elapsed) (constant 100 60))

  -- What a request finds in a bucket, after the refill.
  abbrev pub refilled : ℕ → RateBucket → ℕ
  refilled now b = capped (b.tokens + refill (now - b.last_seen))

  unfoldable pub allow : ℕ → IpRateLimiter → String → Bool × IpRateLimiter
  allow now rl ip = elim (Dict.get rl.visitors ip) [
    | none ↦ (
      true,
      record rl { visitors = Dict.put rl.visitors ip (record { tokens = 99; last_seen = now }) },
    )
    | some b ↦
        if refilled now b == 0
        then (
          false,
          record rl { visitors = Dict.put rl.visitors ip (record { tokens = 0; last_seen = now }) },
        )
        else (
          true,
          record rl {
            visitors =
                Dict.put rl.visitors ip (record { tokens = refilled now b - 1; last_seen = now });
          },
        )
  ]

  -- rateLimitMiddleware around a handler: an address over its rate is answered with 429. The header
  -- Retry-After of that answer is left out.
  unfoldable pub rate_limit_middleware :
      {S : Type 0}
      → Libraries
      → String
      → ApiRequest
      → Handler S
      → IpRateLimiter
      → World (Backend S)
      → (Outcome Answered × World (Backend S)) × IpRateLimiter
  unfolding allow
  rate_limit_middleware l api_key r next rl w =
      let allowed = allow (l.machine.now w.moment) rl (extract_ip r.remote_addr) in
      if allowed.0 then (next (record w { moment = suc w.moment }), allowed.1) else (
        (
          fail 429 "rate limit exceeded",
          (log_audit l api_key r "RATE_LIMITED" "" "" "failure" "too many requests"
              (record w { moment = suc w.moment })).1,
        ),
        allowed.1,
      )
