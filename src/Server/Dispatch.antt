-- ===== src/Server/Dispatch.antt =====
-- The accept loop, the bounded channel and the dispatcher of `main`. The state holds the channel and,
-- beside the semaphore's permits and the gauge, how many connection tasks stand at each place of the
-- code: holding a permit before the gauge goes up, being handled, and behind the gauge's decrement
-- with the permit still held. Each step is one of the calls that other tasks can come between. The
-- gauge is an `i64`; a counter is a `u64` and is not let wrap here, being only a log of what was shed.
-- The bounds that a run starts with are `limits` of Server.antt. A task that panics is not modelled:
-- it would give its permit back and leave the gauge up.
use oxi_gate.Base.{
  ℕ, ◌+◌, ◌-◌, ◌<◌, ◌≡◌, ◌⊎◌, Bool, true, false, ltb, length, if◌then◌else◌, List, [], ◌∷◌, ◌++◌,
}
use oxi_gate.Net.{SocketAddr}
use oxi_gate.ProxyProtocol.Stream.{Stream}

pub record AcceptedConn : Type 0 where
  pub stream : Stream
  pub remote_addr : SocketAddr

pub record State : Type 0 where
  -- The channel: its bound, what waits in it, and whether its receiver and its sender are there.
  pub channel_cap : ℕ
  pub queue : List AcceptedConn
  pub receiving : Bool
  pub accepting : Bool
  -- What the `watch` channel holds.
  pub shutdown : Bool
  -- The semaphore and the tasks.
  pub permits : ℕ
  pub starting : ℕ
  pub running : ℕ
  pub closing : ℕ
  pub active_connections : ℕ
  -- `requests_total` under `ACCEPT`, `503`, and the connections that were ever accepted, served to
  -- the end, and dropped without a count.
  pub shed : ℕ
  pub accepted : ℕ
  pub finished : ℕ
  pub dropped : ℕ

unfoldable pub start : ℕ → ℕ → State
start channel_cap permits = record {
  channel_cap = channel_cap;
  queue = [];
  receiving = true;
  accepting = true;
  shutdown = false;
  permits = permits;
  starting = 0;
  running = 0;
  closing = 0;
  active_connections = 0;
  shed = 0;
  accepted = 0;
  finished = 0;
  dropped = 0;
}

-- `conn_tx.try_send`: a closed channel ends the loop, a full one sheds the connection.
unfoldable pub try_send : AcceptedConn → State → State
try_send conn s =
    if s.receiving
    then (if ltb (length s.queue) s.channel_cap
        then record s { accepted = s.accepted + 1; queue = s.queue ++ conn ∷ [] }
        else record s { accepted = s.accepted + 1; shed = s.shed + 1 })
    else record s { accepted = s.accepted + 1; accepting = false; dropped = s.dropped + 1 }

-- The dispatcher with a connection that it received: without a permit the connection is shed.
unfoldable pub dispatch : List AcceptedConn → State → State
dispatch rest s =
    if ltb 0 s.permits
    then record s { queue = rest; permits = s.permits - 1; starting = s.starting + 1 }
    else record s { queue = rest; shed = s.shed + 1 }

-- `active_connections.inc()`, and the task.
unfoldable pub spawn : State → State
spawn s = record s {
  starting = s.starting - 1;
  active_connections = s.active_connections + 1;
  running = s.running + 1;
}

-- `handle_one_connection` returns, and `active_connections.dec()`.
unfoldable pub finish : State → State
finish s = record s {
  running = s.running - 1;
  active_connections = s.active_connections - 1;
  closing = s.closing + 1;
}

-- The task's permit is dropped at the end of its block.
unfoldable pub release : State → State
release s = record s { closing = s.closing - 1; permits = s.permits + 1; finished = s.finished + 1 }

-- SIGTERM or SIGINT: `shutdown_tx.send(true)`.
unfoldable pub signal : State → State
signal s = record s { shutdown = true }

-- The dispatcher leaves its loop, on the shutdown's signal or once the sender is gone and nothing
-- waits: the receiver is dropped with what still waits in it.
unfoldable pub stop_dispatcher : State → State
stop_dispatcher s = record s { receiving = false; dropped = s.dropped + length s.queue; queue = [] }

-- The accept loop leaves on the signal: `drop(conn_tx)`.
unfoldable pub stop_accepting : State → State
stop_accepting s = record s { accepting = false }

pub data Step : State → State → Type 0 where
  accepts : {s : State} (conn : AcceptedConn) → s.accepting ≡ true → Step s (try_send conn s)
  dispatches :
      {s : State} (conn : AcceptedConn) (rest : List AcceptedConn)
      → s.receiving ≡ true
      → s.queue ≡ conn ∷ rest
      → Step s (dispatch rest s)
  spawns : {s : State} → 0 < s.starting → Step s (spawn s)
  finishes : {s : State} → 0 < s.running → Step s (finish s)
  releases : {s : State} → 0 < s.closing → Step s (release s)
  signals : {s : State} → Step s (signal s)
  dispatcher_stops :
      {s : State}
      → s.receiving ≡ true
      → (s.shutdown ≡ true) ⊎ ((s.accepting ≡ false) × (s.queue ≡ []))
      → Step s (stop_dispatcher s)
  accept_stops : {s : State} → s.accepting ≡ true → s.shutdown ≡ true → Step s (stop_accepting s)

pub data Reach : State → State → Type 0 where
  here : {s : State} → Reach s s
  after : {s t u : State} → Reach s t → Step t u → Reach s u
