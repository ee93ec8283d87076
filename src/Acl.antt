-- ===== src/Acl.antt =====
-- src/security.rs: IP networks in CIDR notation and the allow and deny lists.
-- The parser of IP addresses is the standard library's and is the parameter `parse_ip`.
pub mod Networks
pub mod Decision
pub mod Listed
mod Tests
use Prim.Native.Nat.{bit_and}
use oxi_gate.Base.{
  ℕ, ◌+◌, ◌-◌, ◌^◌, Text, split_once, parse_uint, Bool, true, false, ◌==◌, leb, if◌then◌else◌,
  Option, none, some, List, [], ◌∷◌, is_empty, any, Result, ok, err, ◌>>=◌, ok_or, collect,
}
use oxi_gate.Net.{IpAddr, v4, v6}

pub record IpNet : Type 0 where
  pub addr : IpAddr
  pub prefix : ℕ

pub record Acl : Type 0 where
  pub allow : List IpNet
  pub deny : List IpNet

-- `!((1 << (w - prefix)) - 1)` on w bits, and its two special cases.
unfoldable pub mask : ℕ → ℕ → ℕ
mask w prefix =
    if leb w prefix
    then 2 ^ w - 1
    else if prefix == 0
    then 0
    else 2 ^ w - 1 - (2 ^ (w - prefix) - 1)

unfoldable pub same_network : ℕ → ℕ → ℕ → ℕ → Bool
unfolding mask
same_network w prefix a b = bit_and a (mask w prefix) == bit_and b (mask w prefix)

unfoldable pub contains_addr : IpAddr → ℕ → IpAddr → Bool
unfolding same_network
contains_addr (v4 a) prefix (v4 b) = same_network 32 prefix a b
contains_addr (v6 a) prefix (v6 b) = same_network 128 prefix a b
contains_addr _ prefix _ = false

unfoldable pub contains : IpNet → IpAddr → Bool
unfolding contains_addr
contains net ip = contains_addr net.addr net.prefix ip

unfoldable pub is_allowed : Acl → IpAddr → Bool
unfolding contains
is_allowed acl ip =
    if any (λ n. contains n ip) acl.deny
    then false
    else if is_empty acl.allow
    then true
    else any (λ n. contains n ip) acl.allow

pub data ParseError : Type 0 where
  bad_ip bad_prefix : ParseError

abbrev full_prefix : IpAddr → ℕ
full_prefix (v4 a) = 32
full_prefix (v6 a) = 128

module _ (parse_ip : Text → Option IpAddr) where
  unfoldable pub parse_parts : Text → Option (Text × Text) → Result ParseError IpNet
  parse_parts s (some (ip, pfx)) = do
    addr ← ok_or (parse_ip ip) bad_ip
    prefix ← ok_or (parse_uint 255 pfx) bad_prefix
    ok (record { addr = addr; prefix = prefix })
  parse_parts s none = do
    addr ← ok_or (parse_ip s) bad_ip
    ok (record { addr = addr; prefix = full_prefix addr })

  unfoldable pub parse_cidr : Text → Result ParseError IpNet
  unfolding parse_parts
  parse_cidr s = parse_parts s (split_once s b'/')

  unfoldable pub from_config : List Text → List Text → Result ParseError Acl
  unfolding parse_cidr
  from_config allow deny = do
    allow ← collect parse_cidr allow
    deny ← collect parse_cidr deny
    ok (record { allow = allow; deny = deny })
