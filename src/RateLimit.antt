-- ===== src/RateLimit.antt =====
-- src/ratelimit.rs: the limiter, one theoretical arrival time (TAT) for each client address.
-- Instants and durations are numbers of nanoseconds; the clock's reading is an argument. The
-- counters are `u64` and wrap. The concurrent map of buckets is a function from addresses.
pub mod Check
pub mod Burst
pub mod Alone
pub mod Cleanup
mod Tests
use oxi_gate.Base.{
  ℕ, ◌+◌, ◌-◌, ◌*◌, ◌/◌, ◌%◌, ◌^◌, max, Bool, true, false, ltb, if◌then◌else◌, Option, none, some,
}
use oxi_gate.Machine.{Float}
use oxi_gate.Net.{IpAddr, ip_eq}

abbrev pub u64_mod : ℕ
u64_mod = 2 ^ 64

abbrev pub second : ℕ
second = 1_000_000_000

pub record Bucket : Type 0 where
  pub tat : ℕ

-- `entry(ip).or_insert_with(|| Bucket { tat: now })`: the arrival time that the entry holds.
abbrev pub stored_tat : Option Bucket → ℕ → ℕ
stored_tat none now = now
stored_tat (some b) now = b.tat

-- `now.duration_since(b.tat) < max_idle + window`; `duration_since` stops at 0.
abbrev pub retained : ℕ → ℕ → Option Bucket → Option Bucket
retained now idle none = none
retained now idle (some b) = if ltb (now - b.tat) idle then some b else none

module _ (float : Float) where
  open float use {F64, of_u32, zero_f, one_f, times, minus, max_f, mul_f64}

  pub record RateLimitConfig : Type 0 where
    pub rate : ℕ
    pub window : ℕ
    pub burst : F64

  unfoldable pub from_rps : ℕ → F64 → RateLimitConfig
  from_rps rps burst = record { rate = max rps 1; window = second; burst = max_f burst one_f }

  pub record RateLimiter : Type 0 where
    pub cfg : RateLimitConfig
    pub buckets : IpAddr → Option Bucket
    pub emission : ℕ
    pub rejects : ℕ
    pub allows : ℕ

  unfoldable pub new : RateLimitConfig → RateLimiter
  new cfg = record {
    cfg = cfg;
    buckets = λ ip. none;
    emission = cfg.window / max cfg.rate 1;
    rejects = 0;
    allows = 0;
  }

  -- `emission.mul_f64((rate as f64 * burst - 1.0).max(0.0))`
  unfoldable pub max_credit : RateLimiter → ℕ
  max_credit rl =
      let burst_requests = times (of_u32 rl.cfg.rate) rl.cfg.burst in
      mul_f64 rl.emission (max_f (minus burst_requests one_f) zero_f)

  unfoldable pub tat_of : RateLimiter → ℕ → IpAddr → ℕ
  tat_of rl now ip = stored_tat (rl.buckets ip) now

  abbrev pub put : RateLimiter → IpAddr → ℕ → RateLimiter
  put rl ip tat = record rl {
    buckets = λ j. if ip_eq ip j then some (record { tat = tat }) else rl.buckets j;
  }

  unfoldable pub check : RateLimiter → ℕ → IpAddr → RateLimiter × Bool
  unfolding max_credit tat_of
  check rl now ip =
      let cost = rl.emission in
      let tat = tat_of rl now ip in
      let entered = put rl ip tat in
      if ltb (now + max_credit rl) tat
      then (record entered { rejects = (rl.rejects + 1) % u64_mod }, false)
      else let new_tat = if ltb now tat then tat + cost else now + cost in
        (record (put entered ip new_tat) { allows = (rl.allows + 1) % u64_mod }, true)

  unfoldable pub cleanup : RateLimiter → ℕ → ℕ → RateLimiter
  cleanup rl now max_idle = record rl {
    buckets = λ ip. retained now (max_idle + rl.cfg.window) (rl.buckets ip);
  }
