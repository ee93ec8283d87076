-- ===== src/Server/Reload.antt =====
-- What a sequence of reloads leaves in the cells that tasks share.
use oxi_gate.Base.{
  ◌≡◌, refl, sym, ap, subst, inl, inr, Text, if◌then◌else◌, Option, List, [], ◌∷◌, Result, ok, err,
  Result-cases, bind-eq-ok,
}
use oxi_gate.Config.{Config}
use oxi_gate.Config.Load.{LoadError}
use oxi_gate.Machine.{Float}
use oxi_gate.Net.{IpAddr}
use oxi_gate.Server.{
  BuildError, panics, bad_tls, bad_trusted, Disk, Runtime, Cells, rebuilt, cells_of, from_config,
  new, load_config, swap_config, start, install, reload,
}
use oxi_gate.Server.Build.{from_config-parts}
use oxi_gate.Tls.{Pem}

module _ (F : Float) (parse_ip : Text → Option IpAddr) (P : Pem) where
  -- What is on disk when the signal arrives, and what loading the configuration gives.
  abbrev pub Attempt : Type 0
  Attempt = Disk P × Result LoadError (Config F.F64)

  -- The loop of the SIGHUP task: one attempt for each signal, the first one first, until a panic
  -- ends the task.
  unfoldable pub reloads : List Attempt → Cells F parse_ip P → Cells F parse_ip P
  unfolding reload
  reloads [] cells = cells
  reloads ((disk, loaded) ∷ rest) cells =
      let (cells', goes_on) = reload F parse_ip P disk loaded cells in
      let later = reloads rest cells' in if goes_on then later else cells'

  abbrev pub Good : Type 0
  Good = Disk P × Config F.F64

  abbrev pub settled : Result BuildError (Runtime F parse_ip P) → Good → Good → Good → Good
  settled (ok rt) taken kept good = taken
  settled (err (panics p)) taken kept good = good
  settled (err _) taken kept good = kept

  -- The last attempt that both loads and builds, before any that panics: what was on disk, and the
  -- configuration.
  abbrev pub last_good : List Attempt → Good → Good
  last_good [] good = good
  last_good ((disk, err e) ∷ rest) good = last_good rest good
  last_good ((disk, ok c) ∷ rest) good =
      let taken = last_good rest (disk, c) in
      let kept = last_good rest good in settled (from_config F parse_ip P disk c) taken kept good

  -- Every cell is that of one runtime, and the runtime is what this configuration builds with this
  -- on disk.
  abbrev pub IsCoherent : Good → Cells F parse_ip P → Type 0
  IsCoherent (disk, cfg) cells =
      (from_config F parse_ip P disk cfg ≡ ok cells.runtime)
      × (cells.runtime.config ≡ cfg)
      × (load_config F parse_ip P cells.state ≡ cfg)
      × (cells.admin_token ≡ cfg.admin_token)
      × (cells.health_config ≡ cfg.health_check)
      × (cells.health_client ≡ cells.runtime.client)
      × (cells.shared_rl ≡ cells.runtime.rate_limiter)

  install-IsCoherent :
      (disk : Disk P) (cfg : Config F.F64) (rt : Runtime F parse_ip P) (cells : Cells F parse_ip P)
      → from_config F parse_ip P disk cfg ≡ ok rt
      → IsCoherent (disk, cfg) (install F parse_ip P cfg rt cells)
  unfolding install load_config swap_config
  install-IsCoherent disk cfg rt cells e =
      let same = (from_config-parts F parse_ip P disk cfg rt e).0 in
      (e, same, refl, ap (λ c. c.admin_token) same, ap (λ c. c.health_check) same, refl, refl)

  IsCoherent-of_eq :
      {g g' : Good} {x x' : Cells F parse_ip P}
      → g' ≡ g
      → x' ≡ x
      → IsCoherent g x
      → IsCoherent g' x'
  IsCoherent-of_eq {g = g} {x' = x'} p q h =
      subst (λ y. IsCoherent y x') (sym p) (subst (IsCoherent g) (sym q) h)

  reloads-IsCoherent :
      (attempts : List Attempt) (good : Good) (cells : Cells F parse_ip P)
      → IsCoherent good cells
      → IsCoherent (last_good attempts good) (reloads attempts cells)
  unfolding reloads reload
  reloads-IsCoherent [] good cells h = h
  reloads-IsCoherent ((disk, err e) ∷ rest) good cells h = reloads-IsCoherent rest good cells h
  reloads-IsCoherent ((disk, ok c) ∷ rest) good cells h =
      elim (Result-cases (from_config F parse_ip P disk c)) [
        | inl (rt, built) ↦ IsCoherent-of_eq (ap choice built) (ap outcome built) (
            reloads-IsCoherent rest (disk, c) (install F parse_ip P c rt cells)
              (install-IsCoherent disk c rt cells built))
        | inr (panics p, failed) ↦ IsCoherent-of_eq (ap choice failed) (ap outcome failed) h
        | inr (bad_tls e, failed) ↦
            IsCoherent-of_eq (ap choice failed) (ap outcome failed)
              (reloads-IsCoherent rest good cells h)
        | inr (bad_trusted e, failed) ↦
            IsCoherent-of_eq (ap choice failed) (ap outcome failed)
              (reloads-IsCoherent rest good cells h)
      ]
    where
      choice : Result BuildError (Runtime F parse_ip P) → Good
      choice r = settled r (last_good rest (disk, c)) (last_good rest good) good

      outcome : Result BuildError (Runtime F parse_ip P) → Cells F parse_ip P
      outcome r =
          let (cells', goes_on) = rebuilt F parse_ip P c r cells in
          if goes_on then reloads rest cells' else cells'

  -- After any sequence of reloads from a start, each with what is on disk at that moment, whether
  -- their files load and build or not, the admin token, the health checks' thresholds and the global
  -- state are those of the last configuration that loaded and built, the first one where none did;
  -- the runtime is what that configuration builds with what was on disk then, its certificates
  -- included, and the limiter and the client that others share are the runtime's. An attempt that
  -- fails leaves every cell as it was, and so do an attempt that panics and all attempts after it.
  pub start-reloads :
      (disk : Disk P) (initial : Config F.F64) (cells : Cells F parse_ip P)
      (attempts : List Attempt)
      → start F parse_ip P disk initial ≡ ok cells
      → IsCoherent (last_good attempts (disk, initial)) (reloads attempts cells)
  unfolding start new load_config
  start-reloads disk initial cells attempts e =
      reloads-IsCoherent attempts (disk, initial) cells started
    where
      started : IsCoherent (disk, initial) cells
      started =
          let (rt, built, made) =
            bind-eq-ok (from_config F parse_ip P disk initial)
              (λ rt. ok (cells_of F parse_ip P initial rt)) e in
          let same = (from_config-parts F parse_ip P disk initial rt built).0 in
          let made_of : cells_of F parse_ip P initial rt ≡ cells = cc in
          subst (IsCoherent (disk, initial)) made_of (
            built,
            same,
            refl,
            ap (λ c. c.admin_token) same,
            ap (λ c. c.health_check) same,
            refl,
            refl,
          )
