-- ===== src/RateLimit/Cleanup.antt =====
-- What a limiter answers after idle buckets were dropped.
use oxi_gate.Base.{ℕ, ◌+◌, ◌≤◌, ◌<◌, ◌≡◌, refl, ◌⊎◌, inl, Option, none, some, arith}
use oxi_gate.Machine.{Float}
use oxi_gate.Net.{IpAddr}
use oxi_gate.RateLimit.{
  Bucket, RateLimiter, max_credit, stored_tat, tat_of, retained, check, cleanup,
}
use oxi_gate.RateLimit.Check.{check_self}

-- A bucket that is dropped lies in the past, where it says the same as no bucket.
retained_tat :
    (t now idle : ℕ) (o : Option Bucket)
    → t ≤ now
    → 0 < idle
    → (stored_tat (retained t idle o) now ≡ stored_tat o now)
      ⊎ ((stored_tat (retained t idle o) now ≡ now) × (stored_tat o now ≤ now))
retained_tat t now idle none h p = inl refl
retained_tat t now idle (some b) h p = ground arith

-- Whether and when idle buckets are cleaned up changes no later decision, nor the arrival time that
-- a later check writes.
pub check-cleanup :
    (float : Float) (rl : RateLimiter float) (t now max_idle : ℕ) (ip : IpAddr)
    → t ≤ now
    → 0 < max_idle + rl.cfg.window
    → ((check float (cleanup float rl t max_idle) now ip).1 ≡ (check float rl now ip).1)
      × ((check float (cleanup float rl t max_idle) now ip).0.buckets ip
          ≡ (check float rl now ip).0.buckets ip)
unfolding tat_of cleanup max_credit
check-cleanup float rl t now max_idle ip h p = ground (
  arith,
  check_self float (cleanup float rl t max_idle) now ip,
  check_self float rl now ip,
  retained_tat t now (max_idle + rl.cfg.window) (rl.buckets ip) h p,
)
