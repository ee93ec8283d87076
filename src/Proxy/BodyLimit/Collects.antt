-- ===== src/Proxy/BodyLimit/Collects.antt =====
-- Which bodies `collect_limited` accepts, and what it returns.
use oxi_gate.Base.{
  ℕ, ◌+◌, ◌%◌, ◌^◌, ◌≤◌, ◌<◌, max, ◌≡◌, ◌≢◌, true, ap, sym, ◌∙◌, ◌↔◌, inl, inr, Text, Bool-cases,
  leb, ltb, List, [], ◌∷◌, ◌++◌, length, length-append, ok, err, arith,
}
use oxi_gate.Proxy.BodyLimit.{
  data_frame, trailers, Poll, ready, ended, pending, SourceError, LimitedBody, idle_timeout,
  poll_frame_at, map_err_poll_frame, limited_poll_frame, idle_poll_frame, reset_timer, data_of,
  collect, collect_limited, usize_mod,
}
use mathlib.Core.List.{append_assoc, append-nil}

-- All the data of a body, up to its end.
abbrev pub contents : List (ℕ × Poll SourceError) → Text
contents [] = []
contents ((now, ready (ok frame)) ∷ polls) = data_of frame ++ contents polls
contents ((now, ready (err e)) ∷ polls) = contents polls
contents ((now, ended) ∷ polls) = []
contents ((now, pending) ∷ polls) = contents polls

-- No error, and each frame, and the end, which there is, stand before `idle` has passed since the
-- last frame, or just then; and what finds nothing stands before.
abbrev pub IsTimely : ℕ → ℕ → List (ℕ × Poll SourceError) → Type 0
IsTimely idle deadline [] = ⊥
IsTimely idle deadline ((now, ready (ok frame)) ∷ polls) =
    (now ≤ deadline) × IsTimely idle (now + idle) polls
IsTimely idle deadline ((now, ready (err e)) ∷ polls) = ⊥
IsTimely idle deadline ((now, ended) ∷ polls) = now ≤ deadline
IsTimely idle deadline ((now, pending) ∷ polls) = (now < deadline) × IsTimely idle deadline polls

-- The timer comes before a poll that is late.
collect-late :
    (limited : LimitedBody) (idle delay now : ℕ) (got bytes : Text) (polled : Poll SourceError)
    (polls : List (ℕ × Poll SourceError))
    → ltb delay now ≡ true
    → collect limited (record { delay = delay; idle = idle }) got ((now, polled) ∷ polls) ≢ ok bytes
unfolding collect poll_frame_at idle_poll_frame
collect-late limited idle delay now got bytes polled polls late e =
    let fired : leb delay delay ≡ true = ground arith in
    let timed : err idle_timeout ≡ ok bytes = rw (late, fired) at e in cc

IsTimely-late :
    (idle delay now : ℕ) (polled : Poll SourceError) (polls : List (ℕ × Poll SourceError))
    → ltb delay now ≡ true
    → ¬ IsTimely idle delay ((now, polled) ∷ polls)
IsTimely-late idle delay now (ready (ok frame)) polls late (t, _) = absurd (ground arith)
IsTimely-late idle delay now (ready (err e)) polls late t = t
IsTimely-late idle delay now ended polls late t = absurd (ground arith)
IsTimely-late idle delay now pending polls late (t, _) = absurd (ground arith)

module _ (limit : ℕ) (h : limit < 2 ^ 63) where
  abbrev Accepted : ℕ → ℕ → ℕ → Text → Text → List (ℕ × Poll SourceError) → Type 0
  Accepted seen idle delay got bytes polls =
      (collect (record { max = limit; seen = seen }) (record { delay = delay; idle = idle }) got
          polls
        ≡ ok bytes)
      ↔ ((bytes ≡ got ++ contents polls)
          × (seen + length (contents polls) ≤ limit)
          × IsTimely idle delay polls)

  late_iff :
      (seen idle delay : ℕ) (got bytes : Text) (now : ℕ) (polled : Poll SourceError)
      (polls : List (ℕ × Poll SourceError))
      → ltb delay now ≡ true
      → Accepted seen idle delay got bytes ((now, polled) ∷ polls)
  late_iff seen idle delay got bytes now polled polls late = (
    λ e. absurd (
        collect-late (record { max = limit; seen = seen }) idle delay now got bytes polled polls
          late e),
    λ (_, _, t). absurd (IsTimely-late idle delay now polled polls late t),
  )

  collect_iff :
      (seen idle delay : ℕ) (got bytes : Text) (polls : List (ℕ × Poll SourceError))
      → seen ≤ limit
      → length (contents polls) < 2 ^ 63
      → Accepted seen idle delay got bytes polls
  unfolding collect map_err_poll_frame limited_poll_frame poll_frame_at idle_poll_frame reset_timer
  collect_iff seen idle delay got bytes [] p q = (λ e. cc, λ (_, _, t). absurd t)
  collect_iff seen idle delay got bytes ((now, ready (err e)) ∷ polls) p q =
      elim (Bool-cases (ltb delay now)) [
        | inl late ↦ late_iff seen idle delay got bytes now (ready (err e)) polls late
        | inr early ↦ rw early (λ e. cc, λ (_, _, t). absurd t)
      ]
  collect_iff seen idle delay got bytes ((now, ready (ok trailers)) ∷ polls) p q =
      elim (Bool-cases (ltb delay now)) [
        | inl late ↦ late_iff seen idle delay got bytes now (ready (ok trailers)) polls late
        | inr early ↦
            let (f, g) = collect_iff seen idle (now + idle) got bytes polls p q in
            rw (early, append-nil got)
              (
                λ e. let (whole, total, timely) = f e in (whole, total, (ground arith, timely)),
                λ (whole, total, (_, timely)). g (whole, total, timely),
              )
      ]
  collect_iff seen idle delay got bytes ((now, ready (ok (data_frame b))) ∷ polls) p q =
      let size = length-append b (contents polls) in
      elim (Bool-cases (ltb delay now)) [
        | inl late ↦ late_iff seen idle delay got bytes now (ready (ok (data_frame b))) polls late
        | inr early ↦ elim (Bool-cases (ltb limit ((seen + length b) % usize_mod))) [
          | inl over ↦ rw (early, over) (λ e. cc, λ (_, total, _). absurd (ground arith))
          | inr fits ↦
              let (f, g) =
                collect_iff ((seen + length b) % usize_mod) idle (now + idle) (got ++ b) bytes polls
                  (ground arith) (omega arith) in
              rw (early, fits)
                (
                  λ e.
                      let (whole, total, timely) = f e in
                      (
                        whole ∙ append_assoc got b (contents polls),
                        omega arith,
                        (ground arith, timely),
                      ),
                  λ (whole, total, (_, timely)).
                      g (whole ∙ sym (append_assoc got b (contents polls)), omega arith, timely),
                )
        ]
      ]
  collect_iff seen idle delay got bytes ((now, ended) ∷ polls) p q =
      elim (Bool-cases (ltb delay now)) [
        | inl late ↦ late_iff seen idle delay got bytes now ended polls late
        | inr early ↦ rw early (
          λ e.
              let same : got ≡ bytes = ground arith in
              (sym same ∙ sym (append-nil got), omega arith, ground arith),
          λ (whole, _, _). ap ok (sym (whole ∙ append-nil got)),
        )
      ]
  collect_iff seen idle delay got bytes ((now, pending) ∷ polls) p q =
      elim (Bool-cases (ltb delay now)) [
        | inl late ↦ late_iff seen idle delay got bytes now pending polls late
        | inr early ↦ elim (Bool-cases (leb delay now)) [
          | inl fires ↦ rw (early, fires) (λ e. cc, λ (_, _, (t, _)). absurd (ground arith))
          | inr waits ↦
              let (f, g) = collect_iff seen idle delay got bytes polls p q in
              rw (early, waits)
                (
                  λ e. let (whole, total, timely) = f e in (whole, total, (ground arith, timely)),
                  λ (whole, total, (_, timely)). g (whole, total, timely),
                )
        ]
      ]

  -- The body is accepted exactly when it has no error, it ends, neither the end nor a frame is later
  -- than the idle timeout (at least 50 ms) after the frame before, or after the start, no poll finds
  -- nothing when that time is over, and its data is at most `limit` bytes; all of its data, in
  -- order, is then the result. (For a limit and a body below 2 ^ 63 bytes.)
  pub collect_limited_iff :
      (body : List (ℕ × Poll SourceError)) (now idle : ℕ) (bytes : Text)
      → length (contents body) < 2 ^ 63
      → (collect_limited body limit now idle ≡ ok bytes) ↔ (
          (bytes ≡ contents body)
          × (length (contents body) ≤ limit)
          × IsTimely (max idle 50_000_000) (now + max idle 50_000_000) body)
  unfolding collect_limited
  collect_limited_iff body now idle bytes q =
      let (f, g) =
        collect_iff 0 (max idle 50_000_000) (now + max idle 50_000_000) [] bytes body (omega arith)
          q in
      (
        λ e. let (whole, total, timely) = f e in (whole, omega arith, timely),
        λ (whole, total, timely). g (whole, omega arith, timely),
      )
