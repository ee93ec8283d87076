-- ===== src/Acl/Tests.antt =====
-- The access lists of the unit tests in src/security.rs, and the theorems at these inputs.
use oxi_gate.Base.{
  ℕ, ◌+◌, ◌/◌, ◌^◌, ◌≡◌, refl, ◌↔◌, ◌⊎◌, codes, str_eq, split_once, parse_uint, true, false, [],
  ◌∷◌, ok, arith,
}
use oxi_gate.Samples.{quad, known_ips}
use oxi_gate.Acl.{Acl, IpNet, contains, is_allowed, from_config}
use oxi_gate.Net.{v6}
use oxi_gate.Acl.Networks.{ipv6, contains_iff}
use oxi_gate.Acl.Decision.{IsIn, is_allowed_iff}

abbrev all_but_ten : Acl
all_but_ten = record {
  allow = record { addr = quad 0 0 0 0; prefix = 0 } ∷ [];
  deny = record { addr = quad 10 0 0 0; prefix = 8 } ∷ [];
}

parses : from_config known_ips (codes "0.0.0.0/0" ∷ []) (codes "10.0.0.0/8" ∷ []) ≡ ok all_but_ten
unfolding from_config str_eq split_once parse_uint
parses = refl

acl_deny_wins :
    (is_allowed all_but_ten (quad 10 1 2 3) ≡ false)
    × (is_allowed all_but_ten (quad 1 2 3 4) ≡ true)
unfolding is_allowed
acl_deny_wins = (refl, refl)

ten_network :
    (contains (record { addr = quad 10 0 0 0; prefix = 8 }) (quad 10 1 2 3) ≡ true)
    × (contains (record { addr = quad 10 0 0 0; prefix = 8 }) (quad 11 1 2 3) ≡ false)
unfolding contains
ten_network = (refl, refl)

is_allowed_iff_example : (is_allowed all_but_ten (quad 1 2 3 4) ≡ true) ↔ (
    (¬ IsIn (quad 1 2 3 4) all_but_ten.deny)
    × ((all_but_ten.allow ≡ []) ⊎ IsIn (quad 1 2 3 4) all_but_ten.allow))
is_allowed_iff_example = is_allowed_iff all_but_ten (quad 1 2 3 4)

abbrev sample_net : IpNet
sample_net = record { addr = v6 (2 ^ 127); prefix = 64 }

contains_iff_example :
    (contains sample_net (v6 (2 ^ 127 + 1)) ≡ true)
    ↔ (◌≡◌ {A = ℕ} (2 ^ 127 / 2 ^ 64) ((2 ^ 127 + 1) / 2 ^ 64))
contains_iff_example = contains_iff ipv6 (2 ^ 127) 64 (2 ^ 127 + 1) (omega arith) (omega arith)
