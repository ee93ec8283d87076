-- ===== src/Net.antt =====
-- The address types of `std::net`: an IPv4 address is its `u32`, an IPv6 address its `u128`.
use oxi_gate.Base.{ℕ, ◌≡◌, ◌↔◌, Bool, false, ◌==◌, Eq, arith}

pub data IpAddr : Type 0 where
  v4 : ℕ → IpAddr
  v6 : ℕ → IpAddr

pub record SocketAddr : Type 0 where
  pub ip : IpAddr
  pub port : ℕ

abbrev pub ip_eq : IpAddr → IpAddr → Bool
ip_eq (v4 a) (v4 b) = a == b
ip_eq (v6 a) (v6 b) = a == b
ip_eq _ _ = false

pub ip_eq_iff : (a b : IpAddr) → (ip_eq a b ≡ Bool.true) ↔ (a ≡ b)
ip_eq_iff (v4 a) (v4 b) = ground arith
ip_eq_iff (v6 a) (v6 b) = ground arith
ip_eq_iff (v4 a) (v6 b) = ground arith
ip_eq_iff (v6 a) (v4 b) = ground arith

instance abbrev pub ip_Eq : Eq IpAddr
ip_Eq = record { beq = ip_eq; beq_iff = ip_eq_iff }
