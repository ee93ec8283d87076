-- ===== src/Health/Thresholds.antt =====
-- What the counters of the health checks amount to.
use oxi_gate.Base.{
  ℕ, suc, ◌+◌, ◌%◌, ◌≤◌, ◌<◌, max, ◌≡◌, refl, ap, ap₂, ◌∙◌, Bool, true, false, not, ◌&&◌, leb,
  if◌then◌else◌, List, [], ◌∷◌, length, arith,
}
use oxi_gate.Config.{HealthCheckConfig}
use oxi_gate.Lb.{UpstreamRuntime, set_healthy}
use oxi_gate.Health.{u32_mod, ThresholdState, fresh, record_result}

-- An upstream and its counters after a history of results, the newest first.
abbrev pub after :
    HealthCheckConfig → UpstreamRuntime → List Bool → ThresholdState × UpstreamRuntime
after cfg u [] = (fresh, u)
after cfg u (result ∷ older) =
    let (entry, u') = after cfg u older in record_result cfg result entry u'

-- How many of the newest results were successes, or failures, without a break.
abbrev pub successes_run : List Bool → ℕ
successes_run [] = 0
successes_run (true ∷ older) = suc (successes_run older)
successes_run (false ∷ older) = 0

abbrev pub failures_run : List Bool → ℕ
failures_run [] = 0
failures_run (true ∷ older) = 0
failures_run (false ∷ older) = suc (failures_run older)

-- The mark that a history asks for, in terms of the runs alone.
abbrev pub mark : HealthCheckConfig → Bool → List Bool → Bool
mark cfg first [] = first
mark cfg first (true ∷ older) =
    if leb (max cfg.healthy_threshold 1) (successes_run (true ∷ older))
    then true
    else mark cfg first older
mark cfg first (false ∷ older) =
    if leb (max cfg.unhealthy_threshold 1) (failures_run (false ∷ older))
    then false
    else mark cfg first older

successes_run-le : (results : List Bool) → successes_run results ≤ length results
successes_run-le [] = omega arith
successes_run-le (true ∷ older) = omega (arith, successes_run-le older)
successes_run-le (false ∷ older) = omega arith

failures_run-le : (results : List Bool) → failures_run results ≤ length results
failures_run-le [] = omega arith
failures_run-le (true ∷ older) = omega arith
failures_run-le (false ∷ older) = omega (arith, failures_run-le older)

up_mark :
    (u : UpstreamRuntime) (b enough : Bool)
    → (if not b && enough then set_healthy true u else set_healthy b u)
      ≡ set_healthy (if enough then true else b) u
up_mark u true true = refl
up_mark u true false = refl
up_mark u false true = refl
up_mark u false false = refl

down_mark :
    (u : UpstreamRuntime) (b enough : Bool)
    → (if b && enough then set_healthy false u else set_healthy b u)
      ≡ set_healthy (if enough then false else b) u
down_mark u true true = refl
down_mark u true false = refl
down_mark u false true = refl
down_mark u false false = refl

-- The counters implement the runs: after any history of fewer than 2 ^ 32 checks they are the
-- lengths of the runs of the newest results, and the upstream is marked as the runs ask, up once
-- `healthy_threshold` successes follow each other, down once `unhealthy_threshold` failures do (a
-- threshold of 0 counts as 1), and otherwise as before. Nothing else of the upstream changes.
pub after-mark :
    (cfg : HealthCheckConfig) (u : UpstreamRuntime) (results : List Bool)
    → length results < u32_mod
    → after cfg u results ≡ (
      record { fails = failures_run results; successes = successes_run results },
      set_healthy (mark cfg u.healthy results) u,
    )
unfolding record_result
after-mark cfg u [] h = refl
after-mark cfg u (true ∷ older) h =
    let count : (successes_run older + 1) % u32_mod ≡ suc (successes_run older) =
      omega (arith, successes_run-le older) in
    ap (λ p. record_result cfg true p.0 p.1) (after-mark cfg u older (omega arith))
    ∙ ap₂ (λ s v. (record { fails = 0; successes = s }, v)) count
        (ap
            (λ s.
              if not (mark cfg u.healthy older) && leb (max cfg.healthy_threshold 1) s
              then set_healthy true u
              else set_healthy (mark cfg u.healthy older) u)
            count
          ∙ up_mark u (mark cfg u.healthy older)
              (leb (max cfg.healthy_threshold 1) (suc (successes_run older))))
after-mark cfg u (false ∷ older) h =
    let count : (failures_run older + 1) % u32_mod ≡ suc (failures_run older) =
      omega (arith, failures_run-le older) in
    ap (λ p. record_result cfg false p.0 p.1) (after-mark cfg u older (omega arith))
    ∙ ap₂ (λ s v. (record { fails = s; successes = 0 }, v)) count
        (ap
            (λ s.
              if mark cfg u.healthy older && leb (max cfg.unhealthy_threshold 1) s
              then set_healthy false u
              else set_healthy (mark cfg u.healthy older) u)
            count
          ∙ down_mark u (mark cfg u.healthy older)
              (leb (max cfg.unhealthy_threshold 1) (suc (failures_run older))))
