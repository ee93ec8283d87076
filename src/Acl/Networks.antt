-- ===== src/Acl/Networks.antt =====
-- Membership of a network, as agreement of the leading bits.
use Prim.Native.Nat.{bit_and}
use oxi_gate.Base.{
  ℕ, ◌-◌, ◌/◌, ◌^◌, ◌<◌, ◌≡◌, ap, sym, ◌↔◌, true, Bool-cases, ◌==◌, ==_iff, leb, inl, inr, arith,
}
use oxi_gate.Base.Bits.{bit_and_high-eq_iff, pow_two-pos}
use oxi_gate.Net.{IpAddr, v4, v6}
use oxi_gate.Acl.{mask, same_network, contains}

mask_lem : (w prefix : ℕ) → mask w prefix ≡ 2 ^ w - 2 ^ (w - prefix)
unfolding mask
mask_lem w prefix = elim (Bool-cases (leb w prefix)) [
  | inl e ↦
      let none_left : w - prefix ≡ 0 = ground arith in
      rw e (ap (λ k. 2 ^ w - 2 ^ k) (sym none_left))
  | inr e ↦ elim (Bool-cases (prefix == 0)) [
    | inl z ↦
        let all_left : w - prefix ≡ w = ground arith in
        rw (e, z) (omega (arith, ap (λ k. 2 ^ k) all_left))
    | inr z ↦ rw (e, z) (omega (arith, pow_two-pos (w - prefix)))
  ]
]

same_network_iff :
    (w prefix a b : ℕ)
    → a < 2 ^ w
    → b < 2 ^ w
    → (same_network w prefix a b ≡ true) ↔ (a / 2 ^ (w - prefix) ≡ b / 2 ^ (w - prefix))
unfolding same_network
same_network_iff w prefix a b ha hb =
    let masks = bit_and_high-eq_iff w (w - prefix) a b (omega arith) ha hb in
    let test = ==_iff (bit_and a (mask w prefix)) (bit_and b (mask w prefix)) in
    let m = mask_lem w prefix in (λ e. masks.0 (rw m at (test.0 e)), λ e. test.1 (rw m (masks.1 e)))

contains-v4_iff :
    (a prefix b : ℕ)
    → a < 2 ^ 32
    → b < 2 ^ 32
    → (contains (record { addr = v4 a; prefix = prefix }) (v4 b) ≡ true)
      ↔ (a / 2 ^ (32 - prefix) ≡ b / 2 ^ (32 - prefix))
unfolding contains
contains-v4_iff a prefix b = same_network_iff 32 prefix a b

contains-v6_iff :
    (a prefix b : ℕ)
    → a < 2 ^ 128
    → b < 2 ^ 128
    → (contains (record { addr = v6 a; prefix = prefix }) (v6 b) ≡ true)
      ↔ (a / 2 ^ (128 - prefix) ≡ b / 2 ^ (128 - prefix))
unfolding contains
contains-v6_iff a prefix b = same_network_iff 128 prefix a b

pub data Family : Type 0 where
  ipv4 ipv6 : Family

abbrev pub bits : Family → ℕ
bits ipv4 = 32
bits ipv6 = 128

abbrev pub address : Family → ℕ → IpAddr
address ipv4 a = v4 a
address ipv6 a = v6 a

-- A network of IPv4 or IPv6 holds the addresses of its own kind that agree with its address in the
-- first `prefix` bits; a prefix of the whole width and more asks for the same address, and a prefix
-- of 0 for nothing.
pub contains_iff :
    (family : Family) (a prefix b : ℕ)
    → a < 2 ^ bits family
    → b < 2 ^ bits family
    → (contains (record { addr = address family a; prefix = prefix }) (address family b) ≡ true)
      ↔ (a / 2 ^ (bits family - prefix) ≡ b / 2 ^ (bits family - prefix))
contains_iff ipv4 a prefix b = contains-v4_iff a prefix b
contains_iff ipv6 a prefix b = contains-v6_iff a prefix b
