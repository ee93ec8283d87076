-- ===== src/Proxy/BodyLimit.antt =====
-- src/proxy/body_limit.rs: the size limit and the idle timeout around a request's body.
-- A body is the list of what its polls find, each with the clock's reading; times are numbers of
-- nanoseconds, `seen` is a `usize`, which wraps. A task that waits for a body is polled when the body
-- or the timer wakes it, at that moment, and polls again at once after a frame. So `collect`, which
-- always waits, meets the timer before anything later; a response's reader waits only once a poll
-- has found nothing, since it does not poll while the client is slow. Where a list is over and the
-- body has not ended, nothing but the timer wakes a task that waits.
pub mod Collects
mod Tests
use oxi_gate.Base.{
  ℕ, ◌+◌, ◌%◌, ◌^◌, max, Text, Bool, true, false, ◌&&◌, leb, ltb, if◌then◌else◌, List, [], ◌∷◌,
  ◌++◌, length, Result, ok, err,
}

pub data BodyLimitError : Type 0 where
  too_large idle_timeout other : BodyLimitError

pub data Frame : Type 0 where
  data_frame : Text → Frame
  trailers : Frame

-- `Poll<Option<Result<Frame, E>>>`
pub data Poll (E : Type 0) : Type 0 where
  ready : Result E Frame → Poll E
  ended pending : Poll E

-- The errors of the body under the wrappers all become `Other`.
pub data SourceError : Type 0 where
  source_error : SourceError

abbrev pub usize_mod : ℕ
usize_mod = 2 ^ 64

unfoldable pub map_err_poll_frame : Poll SourceError → Poll BodyLimitError
map_err_poll_frame (ready (ok frame)) = ready (ok frame)
map_err_poll_frame (ready (err e)) = ready (err other)
map_err_poll_frame ended = ended
map_err_poll_frame pending = pending

pub record LimitedBody : Type 0 where
  pub max : ℕ
  pub seen : ℕ

unfoldable pub new_limited : ℕ → LimitedBody
new_limited max = record { max = max; seen = 0 }

unfoldable pub limited_poll_frame :
    LimitedBody → Poll BodyLimitError → LimitedBody × Poll BodyLimitError
limited_poll_frame this (ready (ok (data_frame bytes))) =
    let seen = (this.seen + length bytes) % usize_mod in
    if ltb this.max seen
    then (record this { seen = seen }, ready (err too_large))
    else (record this { seen = seen }, ready (ok (data_frame bytes)))
limited_poll_frame this (ready (ok trailers)) = (this, ready (ok trailers))
limited_poll_frame this (ready (err e)) = (this, ready (err other))
limited_poll_frame this ended = (this, ended)
limited_poll_frame this pending = (this, pending)

-- The timer is the instant at which it fires.
pub record IdleBody : Type 0 where
  pub delay : ℕ
  pub idle : ℕ

unfoldable pub new_idle : ℕ → ℕ → IdleBody
new_idle now idle = record { delay = now + max idle 50_000_000; idle = max idle 50_000_000 }

unfoldable pub reset_timer : ℕ → IdleBody → IdleBody
reset_timer now this = record this { delay = now + this.idle }

unfoldable pub idle_poll_frame : ℕ → IdleBody → Poll BodyLimitError → IdleBody × Poll BodyLimitError
unfolding reset_timer
idle_poll_frame now this (ready (ok frame)) = (reset_timer now this, ready (ok frame))
idle_poll_frame now this (ready (err e)) = (this, ready (err e))
idle_poll_frame now this ended = (this, ended)
idle_poll_frame now this pending =
    if leb this.delay now then (this, ready (err idle_timeout)) else (this, pending)

-- The poll of a task that waits or not: the timer wakes one that waits, and finds nothing there.
unfoldable pub poll_frame_at :
    Bool → ℕ → IdleBody → Poll BodyLimitError → IdleBody × Poll BodyLimitError
unfolding idle_poll_frame
poll_frame_at waiting now this inner =
    if waiting && ltb this.delay now
    then idle_poll_frame this.delay this pending
    else idle_poll_frame now this inner

abbrev pub data_of : Frame → Text
data_of (data_frame bytes) = bytes
data_of trailers = []

abbrev pub gather :
    Poll BodyLimitError → Text → Result BodyLimitError Text → Result BodyLimitError Text
gather (ready (err e)) got rest = err e
gather (ready (ok frame)) got rest = rest
gather ended got rest = ok got
gather pending got rest = rest

abbrev pub gathered : Poll BodyLimitError → Text → Text
gathered (ready (ok frame)) got = got ++ data_of frame
gathered _ got = got

-- The polls of the three wrappers, one inside the other, until the end or an error.
unfoldable pub collect :
    LimitedBody → IdleBody → Text → List (ℕ × Poll SourceError) → Result BodyLimitError Text
unfolding map_err_poll_frame limited_poll_frame poll_frame_at
collect limited idle got [] = err idle_timeout
collect limited idle got ((now, polled) ∷ polls) =
    let (limited', inner) = limited_poll_frame limited (map_err_poll_frame polled) in
    let (idle', outer) = poll_frame_at true now idle inner in
    gather outer got (collect limited' idle' (gathered outer got) polls)

unfoldable pub collect_limited :
    List (ℕ × Poll SourceError) → ℕ → ℕ → ℕ → Result BodyLimitError Text
unfolding collect new_limited new_idle
collect_limited body max now idle = collect (new_limited max) (new_idle now idle) [] body

abbrev is_pending : Poll BodyLimitError → Bool
is_pending pending = true
is_pending _ = false

-- What the reader has received once it has this poll: nothing follows the end or an error.
abbrev followed : Poll BodyLimitError → List (Poll BodyLimitError) → List (Poll BodyLimitError)
followed (ready (err e)) rest = ready (err e) ∷ []
followed (ready (ok frame)) rest = ready (ok frame) ∷ rest
followed ended rest = ended ∷ []
followed pending rest = pending ∷ rest

unfoldable pub idle_polls :
    Bool → IdleBody → List (ℕ × Poll SourceError) → List (Poll BodyLimitError)
unfolding map_err_poll_frame poll_frame_at
idle_polls waiting idle [] = if waiting then ready (err idle_timeout) ∷ [] else []
idle_polls waiting idle ((now, polled) ∷ polls) =
    let (idle', outer) = poll_frame_at waiting now idle (map_err_poll_frame polled) in
    followed outer (idle_polls (is_pending outer) idle' polls)

-- `idle_wrap` of a response's body: what its reader receives at each poll.
unfoldable pub idle_wrap : IdleBody → List (ℕ × Poll SourceError) → List (Poll BodyLimitError)
unfolding idle_polls
idle_wrap idle body = idle_polls false idle body
