-- ===== src/Server/Counts.antt =====
-- How many connections are open at once, and what becomes of each.
mod Tests
use oxi_gate.Base.{
  ℕ, ◌+◌, ◌≤◌, ◌≡◌, ◌⊎◌, refl, ap, true, false, Bool-cases, inl, inr, ltb, leb, max, length, ok,
  ◌>>=◌, bind-eq-ok, length-append, List, [], ◌∷◌, arith,
}
use oxi_gate.Config.{Config}
use oxi_gate.Server.{max_conn, channel_cap, permits, limits, new_semaphore, max_permits}
use oxi_gate.Server.Dispatch.{
  AcceptedConn, State, Step, Reach, accepts, dispatches, spawns, finishes, releases, signals,
  dispatcher_stops, accept_stops, here, after, start, try_send, dispatch, spawn, finish, release,
  signal, stop_dispatcher, stop_accepting,
}

-- A permit is free, or held by a task; the gauge is the number of tasks that are being handled; the
-- channel is within its bound; and every connection is in one place.
abbrev pub IsCounted : ℕ → ℕ → State → Type 0
IsCounted cap limit s =
    (s.channel_cap ≡ cap)
    × (length s.queue ≤ cap)
    × (s.permits + s.starting + s.running + s.closing ≡ limit)
    × (s.active_connections ≡ s.running)
    × (s.accepted
        ≡ length s.queue + s.starting + s.running + s.closing + s.shed + s.finished + s.dropped)

try_send-IsCounted :
    (cap limit : ℕ) (conn : AcceptedConn) (s : State)
    → IsCounted cap limit s
    → IsCounted cap limit (try_send conn s)
unfolding try_send
try_send-IsCounted cap limit conn s (a, b, c, d, e) = elim (Bool-cases s.receiving) [
  | inr closed ↦ rw closed (a, b, c, d, omega arith)
  | inl open_now ↦ elim (Bool-cases (ltb (length s.queue) s.channel_cap)) [
    | inl room ↦
        rw (open_now, room)
          (
            a,
            ground (arith, length-append s.queue (conn ∷ [])),
            c,
            d,
            omega (arith, length-append s.queue (conn ∷ [])),
          )
    | inr full ↦ rw (open_now, full) (a, b, c, d, omega arith)
  ]
]

dispatch-IsCounted :
    (cap limit : ℕ) (conn : AcceptedConn) (rest : List AcceptedConn) (s : State)
    → s.queue ≡ conn ∷ rest
    → IsCounted cap limit s
    → IsCounted cap limit (dispatch rest s)
unfolding dispatch
dispatch-IsCounted cap limit conn rest s q (a, b, c, d, e) =
    let one_less = ap length q in
    elim (Bool-cases (ltb 0 s.permits)) [
      | inl free ↦ rw free (a, omega arith, ground arith, d, omega arith)
      | inr taken ↦ rw taken (a, omega arith, c, d, omega arith)
    ]

Step-IsCounted :
    (cap limit : ℕ) {s t : State} → Step s t → IsCounted cap limit s → IsCounted cap limit t
unfolding spawn finish release signal stop_dispatcher stop_accepting
Step-IsCounted cap limit {s} (accepts conn p) h = try_send-IsCounted cap limit conn s h
Step-IsCounted cap limit {s} (dispatches conn rest p q) h =
    dispatch-IsCounted cap limit conn rest s q h
Step-IsCounted cap limit (spawns p) (a, b, c, d, e) = (a, b, omega arith, omega arith, omega arith)
Step-IsCounted cap limit (finishes p) (a, b, c, d, e) =
    (a, b, omega arith, omega arith, omega arith)
Step-IsCounted cap limit (releases p) (a, b, c, d, e) = (a, b, omega arith, d, omega arith)
Step-IsCounted cap limit signals h = h
Step-IsCounted cap limit (dispatcher_stops p q) (a, b, c, d, e) =
    (a, omega arith, c, d, omega arith)
Step-IsCounted cap limit (accept_stops p q) h = h

Reach-IsCounted :
    (cap limit : ℕ) {s t : State} → Reach s t → IsCounted cap limit s → IsCounted cap limit t
Reach-IsCounted cap limit here h = h
Reach-IsCounted cap limit (after r step) h =
    Step-IsCounted cap limit step (Reach-IsCounted cap limit r h)

-- Until a signal comes both loops run and nothing is dropped.
abbrev IsOpen : State → Type 0
IsOpen s = (s.receiving ≡ true) × (s.accepting ≡ true) × (s.dropped ≡ 0)

try_send-IsOpen :
    (conn : AcceptedConn) (s : State)
    → (s.shutdown ≡ false → IsOpen s)
    → (try_send conn s).shutdown ≡ false
    → IsOpen (try_send conn s)
unfolding try_send
try_send-IsOpen conn s h off = elim (Bool-cases s.receiving) [
  | inr closed ↦ absurd (ground (arith, h (ground arith)))
  | inl running ↦ elim (Bool-cases (ltb (length s.queue) s.channel_cap)) [
    | inl room ↦
        let (_, accepting, none_dropped) = h (rw (running, room) at off) in
        rw (running, room) (refl, accepting, none_dropped)
    | inr full ↦
        let (_, accepting, none_dropped) = h (rw (running, full) at off) in
        rw (running, full) (refl, accepting, none_dropped)
  ]
]

dispatch-IsOpen :
    (rest : List AcceptedConn) (s : State)
    → (s.shutdown ≡ false → IsOpen s)
    → (dispatch rest s).shutdown ≡ false
    → IsOpen (dispatch rest s)
unfolding dispatch
dispatch-IsOpen rest s h off = elim (Bool-cases (ltb 0 s.permits)) [
  | inl free ↦ rw free (h (rw free at off))
  | inr taken ↦ rw taken (h (rw taken at off))
]

Step-IsOpen :
    {s t : State} → Step s t → (s.shutdown ≡ false → IsOpen s) → t.shutdown ≡ false → IsOpen t
unfolding spawn finish release signal stop_dispatcher stop_accepting
Step-IsOpen {s} (accepts conn p) h off = try_send-IsOpen conn s h off
Step-IsOpen {s} (dispatches conn rest p q) h off = dispatch-IsOpen rest s h off
Step-IsOpen (spawns p) h off = h off
Step-IsOpen (finishes p) h off = h off
Step-IsOpen (releases p) h off = h off
Step-IsOpen signals h off = cc
Step-IsOpen (dispatcher_stops p (inl on)) h off = cc
Step-IsOpen (dispatcher_stops p (inr (gone, none_left))) h off = absurd (ground (arith, h off))
Step-IsOpen (accept_stops p on) h off = cc

Reach-IsOpen :
    {s t : State} → Reach s t → (s.shutdown ≡ false → IsOpen s) → t.shutdown ≡ false → IsOpen t
Reach-IsOpen here h = h
Reach-IsOpen (after r step) h = Step-IsOpen step (Reach-IsOpen r h)

new_semaphore-ok : (n p : ℕ) → new_semaphore n ≡ ok p → p ≡ n
unfolding new_semaphore
new_semaphore-ok n p e = elim (Bool-cases (leb n max_permits)) [
  | inl fits ↦ ground arith
  | inr large ↦ absurd (ground arith)
]

limits-ok :
    {F64 : Type 0} (config : Config F64) (cap limit : ℕ)
    → limits config ≡ ok (cap, limit)
    → (cap ≡ max (max_conn config) 256) × (limit ≡ max (max_conn config) 64)
unfolding limits channel_cap permits
limits-ok config cap limit e =
    let (p, made, e1) =
      bind-eq-ok (new_semaphore (permits (max_conn config)))
        (λ conn_limit.
          new_semaphore (channel_cap (max_conn config)) >>= λ cap. ok (cap, conn_limit))
        e in
    let (c, built, e2) =
      bind-eq-ok (new_semaphore (channel_cap (max_conn config))) (λ cap. ok (cap, p)) e1 in
    let q = new_semaphore-ok (permits (max_conn config)) p made in
    let r = new_semaphore-ok (channel_cap (max_conn config)) c built in (ground arith, ground arith)

-- Where the channel and the semaphore are made, and however accepting, dispatching, the tasks and a
-- shutdown interleave: no more connections are handled at once than the larger of 64 and the
-- configured number, each permit is free or held by one task, the gauge of the active connections is
-- exactly the number being handled, no more wait than the channel's bound, and every connection that
-- was accepted waits, is with a task, was served to its end, was counted as shed, or was dropped,
-- which none is before a shutdown.
pub start-IsCounted :
    {F64 : Type 0} (config : Config F64) (cap limit : ℕ) (s : State)
    → limits config ≡ ok (cap, limit)
    → Reach (start cap limit) s
    → (s.running ≤ max (max_conn config) 64)
      × (s.permits + s.starting + s.running + s.closing ≡ max (max_conn config) 64)
      × (s.active_connections ≡ s.running)
      × (length s.queue ≤ max (max_conn config) 256)
      × (s.accepted
          ≡ length s.queue + s.starting + s.running + s.closing + s.shed + s.finished + s.dropped)
      × ((s.shutdown ≡ true) ⊎ (s.dropped ≡ 0))
unfolding start
start-IsCounted config cap limit s made r =
    let (cap_eq, limit_eq) = limits-ok config cap limit made in
    let (a, b, c, d, e) =
      Reach-IsCounted cap limit r (refl, omega arith, omega arith, refl, refl) in
    (
      omega arith,
      omega arith,
      d,
      omega arith,
      e,
      elim (Bool-cases s.shutdown) [
        | inl on ↦ inl on
        | inr off ↦ inr (Reach-IsOpen r (λ _. (refl, refl, refl)) off).2
      ],
    )
