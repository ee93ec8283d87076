-- ===== src/Proxy/BodyLimit/Tests.antt =====
-- A body in two frames, and the theorem at it.
use oxi_gate.Base.{ℕ, ◌+◌, ◌≤◌, ◌≡◌, refl, ◌↔◌, max, codes, length, List, [], ◌∷◌, ok, err, arith}
use oxi_gate.Proxy.BodyLimit.{
  data_frame, trailers, Poll, ready, ended, pending, SourceError, too_large, idle_timeout,
  collect_limited, idle_wrap,
}
use oxi_gate.Proxy.BodyLimit.Collects.{contents, IsTimely, collect_limited_iff}

abbrev two_frames : List (ℕ × Poll SourceError)
two_frames =
    (10_000_000, ready (ok (data_frame (codes "abc"))))
    ∷ (40_000_000, pending)
    ∷ (55_000_000, ready (ok (data_frame (codes "de"))))
    ∷ (55_000_000, ended)
    ∷ []

within_limits : collect_limited two_frames 5 0 50_000_000 ≡ ok (codes "abcde")
unfolding collect_limited
within_limits = refl

over_limit : collect_limited two_frames 4 0 50_000_000 ≡ err too_large
unfolding collect_limited
over_limit = refl

too_late :
    collect_limited ((10_000_000, pending) ∷ (70_000_000, pending) ∷ []) 4 0 50_000_000
    ≡ err idle_timeout
unfolding collect_limited
too_late = refl

-- An hour later than the start.
late_frame :
    collect_limited
      ((3_600_000_000_000, ready (ok (data_frame (codes "abc")))) ∷ (3_600_000_000_000, ended) ∷ [])
      4
      0
      50_000_000
    ≡ err idle_timeout
unfolding collect_limited
late_frame = refl

never_ends :
    collect_limited ((10_000_000, ready (ok (data_frame (codes "abc")))) ∷ []) 4 0 50_000_000
    ≡ err idle_timeout
unfolding collect_limited
never_ends = refl

-- A reader that does not poll for long gets the frame; one that waits gets the timeout.
slow_reader :
    idle_wrap
      (record { delay = 50_000_000; idle = 50_000_000 })
      ((90_000_000, ready (ok trailers))
        ∷ (95_000_000, pending)
        ∷ (150_000_000, ready (ok trailers))
        ∷ [])
    ≡ ready (ok trailers) ∷ pending ∷ ready (err idle_timeout) ∷ []
unfolding idle_wrap
slow_reader = refl

collect_limited_iff_example : (collect_limited two_frames 5 0 50_000_000 ≡ ok (codes "abcde")) ↔ (
    (codes "abcde" ≡ contents two_frames)
    × (length (contents two_frames) ≤ 5)
    × IsTimely (max 50_000_000 50_000_000) (0 + max 50_000_000 50_000_000) two_frames)
collect_limited_iff_example =
    collect_limited_iff 5 (omega arith) two_frames 0 50_000_000 (codes "abcde") (omega arith)
