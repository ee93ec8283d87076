-- ===== src/RateLimit/Check.antt =====
-- One check: what it decides, and what it writes.
use oxi_gate.Base.{
  ℕ, ◌+◌, ◌≤◌, ◌<◌, ◌≡◌, ◌≢◌, refl, ◌⊎◌, inl, inr, Bool, true, false, Bool-cases, ltb,
  if◌then◌else◌, some, arith,
}
use oxi_gate.Machine.{Float}
use oxi_gate.Net.{IpAddr, ip_eq, ip_eq_iff}
use oxi_gate.RateLimit.{RateLimiter, max_credit, tat_of, check}

module _ (float : Float) (rl : RateLimiter float) (now : ℕ) where
  -- A check of one address leaves the others' buckets, and every setting, as they were.
  pub check_other :
      (ip other : IpAddr) → ip ≢ other → (check float rl now ip).0.buckets other ≡ rl.buckets other
  unfolding check
  check_other ip other h =
      let miss : ip_eq ip other ≡ false = miss_of (ip_eq ip other) refl in
      elim (Bool-cases (ltb (now + max_credit float rl) (tat_of float rl now ip))) [
        | inl e ↦ rw e (rw miss)
        | inr e ↦ rw e (rw miss)
      ]
    where
      miss_of : (b : Bool) → ip_eq ip other ≡ b → b ≡ false
      miss_of true e = absurd (h ((ip_eq_iff ip other).0 e))
      miss_of false e = refl

  pub check_keeps :
      (ip : IpAddr)
      → ((check float rl now ip).0.emission ≡ rl.emission)
        × (max_credit float (check float rl now ip).0 ≡ max_credit float rl)
  unfolding check max_credit
  check_keeps ip = elim (Bool-cases (ltb (now + max_credit float rl) (tat_of float rl now ip))) [
    | inl e ↦ rw e (refl, refl)
    | inr e ↦ rw e (refl, refl)
  ]

  abbrev pub later : ℕ → ℕ
  later tat = if ltb now tat then tat + rl.emission else now + rl.emission

  -- The request is allowed when the arrival time is within the credit, and the arrival time then
  -- moves one emission on; otherwise it stays.
  pub check_self :
      (ip : IpAddr)
      → let tat = tat_of float rl now ip in
        ((tat ≤ now + max_credit float rl)
          × ((check float rl now ip).1 ≡ true)
          × ((check float rl now ip).0.buckets ip ≡ some (record { tat = later tat })))
        ⊎ ((now + max_credit float rl < tat)
            × ((check float rl now ip).1 ≡ false)
            × ((check float rl now ip).0.buckets ip ≡ some (record { tat = tat })))
  unfolding check
  check_self ip =
      let own : ip_eq ip ip ≡ true = (ip_eq_iff ip ip).1 refl in
      elim (Bool-cases (ltb (now + max_credit float rl) (tat_of float rl now ip))) [
        | inl e ↦ inr (ground arith, rw e refl, rw e (rw own refl))
        | inr e ↦ inl (ground arith, rw e refl, rw e (rw own refl))
      ]
