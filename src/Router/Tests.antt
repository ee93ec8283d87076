-- ===== src/Router/Tests.antt =====
-- The configuration of the unit tests in src/router.rs, and the theorems at it.
use oxi_gate.Base.{
  ℕ, ◌≡◌, ◌↔◌, ◌⊎◌, ◌<◌, refl, Text, codes, true, some, none, [], ◌∷◌, ◌++◌, length, get_elem?, In,
}
use oxi_gate.Config.{RouteConfig}
use oxi_gate.Samples.{base_cfg}
use oxi_gate.Lb
use oxi_gate.Router.{path_matches, from_config, resolve, all_lbs}
use oxi_gate.Router.Matching.{path_matches_iff}
use oxi_gate.Router.Resolve.{IsBest, Fits, resolve-from_config}
use oxi_gate.Router.AllLbs.{all_lbs-from_config}

router_code : Unit {0}
unfolding from_config resolve path_matches all_lbs
router_code = tt

routes_api_prefix : resolve (from_config base_cfg).0 (codes "/api/users") ≡ some 0
unfolding router_code
routes_api_prefix = refl

routes_longest : resolve (from_config base_cfg).0 (codes "/api/v2/x") ≡ some 1
unfolding router_code
routes_longest = refl

routes_default : resolve (from_config base_cfg).0 (codes "/apiary") ≡ some 2
unfolding router_code
routes_default = refl

path_matches_iff_example : (path_matches (codes "/apiary") (codes "/api") ≡ true) ↔ (
    (codes "/apiary" ≡ codes "/api")
    ⊎ ((rest : Text) × (codes "/apiary" ≡ codes "/api" ++ b'/' ∷ rest)))
path_matches_iff_example = path_matches_iff (codes "/apiary") (codes "/ap") b'i' (λ e. cc)

resolve-from_config_example :
    ((i : ℕ) × (resolve (from_config base_cfg).0 (codes "/api") ≡ some i)
      × IsBest base_cfg (codes "/api") i)
    ⊎ (((j : ℕ) (rc : RouteConfig)
          → get_elem? base_cfg.routes j ≡ some rc
          → ¬ Fits base_cfg (codes "/api") rc)
        × (((resolve (from_config base_cfg).0 (codes "/api") ≡ none) × (base_cfg.upstreams ≡ []))
            ⊎ ((resolve (from_config base_cfg).0 (codes "/api") ≡ some (length base_cfg.routes))
                × (get_elem? (from_config base_cfg).1 (length base_cfg.routes)
                    ≡ some (Lb.from_config base_cfg)))))
resolve-from_config_example = resolve-from_config base_cfg (codes "/api")

all_lbs-from_config_example :
    In 1 (all_lbs (from_config base_cfg).0) ↔ (1 < length (from_config base_cfg).1)
all_lbs-from_config_example = all_lbs-from_config base_cfg 1
