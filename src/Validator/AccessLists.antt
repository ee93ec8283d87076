-- ===== src/Validator/AccessLists.antt =====
-- A validated configuration and the access lists that src/main.rs builds of it with
-- `Acl::from_config(..).ok()`: a list that does not parse would silently be no list.
use oxi_gate.Base.{
  ◌≡◌, refl, Text, Bool, Option, none, some, List, [], ◌∷◌, All, All-of_append, length, ok, collect,
  to_option, arith,
}
use oxi_gate.Config.{Config, AclConfig}
use oxi_gate.Http.{Uri}
use oxi_gate.Machine.{Float}
use oxi_gate.Net.{IpAddr}
use oxi_gate.Acl
use oxi_gate.Acl.{Acl, IpNet}
use oxi_gate.Validator.{validate}
use oxi_gate.Validator.Valid.{IsCidr, IsAcl, validate_iff}

module _ (F : Float) (parse_uri : Text → Option Uri) (parse_ip : Text → Option IpAddr)
    (exists : Text → Bool) where
  -- A list of networks, all of which parse, parses to a list with one network for each entry.
  parsed_list :
      (xs : List Text)
      → All (IsCidr F parse_uri parse_ip exists) xs
      → (nets : List IpNet) × (collect (Acl.parse_cidr parse_ip) xs ≡ ok nets)
        × (length nets ≡ length xs)
  parsed_list [] h = ([], refl, refl)
  parsed_list (x ∷ xs) ((net, p, l), h) =
      let (nets, e, same) = parsed_list xs h in (net ∷ nets, rw (p, e) refl, omega arith)

  -- The list that the program builds from an entry of the configuration.
  abbrev pub IsBuilt : List Text → List Text → Type 0
  IsBuilt allow deny =
      (built : Acl) × (to_option (Acl.from_config parse_ip allow deny) ≡ some built)
      × (length built.allow ≡ length allow)
      × (length built.deny ≡ length deny)

  abbrev pub IsKept : Option AclConfig → Type 0
  IsKept none = Unit
  IsKept (some acl) = IsBuilt acl.allow acl.deny

  built_lem :
      (allow deny : List Text)
      → All (IsCidr F parse_uri parse_ip exists) allow
      → All (IsCidr F parse_uri parse_ip exists) deny
      → IsBuilt allow deny
  unfolding Acl.from_config
  built_lem allow deny h k =
      let (a, e, n) = parsed_list allow h in
      let (d, f, m) = parsed_list deny k in (record { allow = a; deny = d }, rw (e, f) refl, n, m)

  kept_lem : (acl : Option AclConfig) → IsAcl F parse_uri parse_ip exists acl → IsKept acl
  kept_lem none h = tt
  kept_lem (some acl) h =
      let (a, d) = All-of_append (IsCidr F parse_uri parse_ip exists) acl.allow acl.deny h in
      built_lem acl.allow acl.deny a d

  -- When the validator accepts a configuration, the access list of it and the list of the trusted
  -- proxies both parse, with one network for each entry: the program never goes on without a list
  -- that was asked for.
  pub validate-from_config :
      (cfg : Config F.F64)
      → validate F parse_uri parse_ip exists cfg ≡ ok tt
      → IsKept cfg.acl × IsBuilt cfg.proxy_protocol_trusted_cidrs []
  validate-from_config cfg e =
      let (_, (_, (_, (_, (_, (_, (_, (_, (_, (_, (acl, trusted))))))))))) =
        (validate_iff F parse_uri parse_ip exists cfg).0 e in
      (kept_lem cfg.acl acl, built_lem cfg.proxy_protocol_trusted_cidrs [] trusted tt)
