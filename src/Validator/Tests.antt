-- ===== src/Validator/Tests.antt =====
-- The validator at the sample configuration with an access list.
use oxi_gate.Base.{
  ℕ, ◌≡◌, refl, ◌↔◌, Text, codes, str_eq, split_once, parse_uint, Bool, false, some, [], ◌∷◌, ok,
  err,
}
use oxi_gate.Config.{Config}
use oxi_gate.Samples.{base_cfg, whole, known_uri, known_ips}
use oxi_gate.Validator.{validate, bad_cidr}
use oxi_gate.Validator.Valid.{IsValid, validate_iff}
use oxi_gate.Validator.AccessLists.{IsKept, IsBuilt, validate-from_config}

abbrev guarded : Config ℕ
guarded = record base_cfg {
  acl = some (record { allow = []; deny = codes "10.0.0.0/8" ∷ [] });
  proxy_protocol_trusted_cidrs = codes "10.0.0.0/8" ∷ [];
}

abbrev no_file : Text → Bool
no_file path = false

valid : validate whole known_uri known_ips no_file guarded ≡ ok tt
unfolding validate split_once parse_uint str_eq
valid = refl

refuses_prefix :
    validate whole known_uri known_ips no_file
      (record guarded { proxy_protocol_trusted_cidrs = codes "10.0.0.0/129" ∷ [] })
    ≡ err bad_cidr
unfolding validate split_once parse_uint str_eq
refuses_prefix = refl

validate_iff_example :
    (validate whole known_uri known_ips no_file guarded ≡ ok tt)
    ↔ IsValid whole known_uri known_ips no_file guarded
validate_iff_example = validate_iff whole known_uri known_ips no_file guarded

validate-from_config_example :
    IsKept whole known_uri known_ips no_file guarded.acl
    × IsBuilt whole known_uri known_ips no_file guarded.proxy_protocol_trusted_cidrs []
validate-from_config_example = validate-from_config whole known_uri known_ips no_file guarded valid
