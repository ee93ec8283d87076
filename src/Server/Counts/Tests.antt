-- ===== src/Server/Counts/Tests.antt =====
-- A connection that is accepted, dispatched, handled and ended.
use oxi_gate.Base.{◌≤◌, ◌+◌, ◌≡◌, ◌⊎◌, refl, max, length, codes, true, ok, [], ◌∷◌, arith}
use oxi_gate.ProxyProtocol.Stream.{chunk}
use oxi_gate.Samples.{base_cfg, quad}
use oxi_gate.Server.{max_conn, limits}
use oxi_gate.Server.Counts.{start-IsCounted}
use oxi_gate.Server.Dispatch
use oxi_gate.Server.Dispatch.{
  AcceptedConn, State, Reach, here, after, accepts, dispatches, spawns, finishes,
}

abbrev conn : AcceptedConn
conn = record {
  stream = chunk (codes "GET /") ∷ [];
  remote_addr = record { ip = quad 10 0 0 7; port = 4000 };
}

abbrev s0 : State
s0 = Dispatch.start 10_000 10_000

abbrev handled : State
handled = Dispatch.finish (Dispatch.spawn (Dispatch.dispatch [] (Dispatch.try_send conn s0)))

bounds : limits base_cfg ≡ ok (10_000, 10_000)
unfolding limits
bounds = refl

handles : Reach s0 handled
unfolding Dispatch.start Dispatch.try_send Dispatch.dispatch Dispatch.spawn
handles =
    after
      (after (after (after here (accepts conn refl)) (dispatches conn [] refl refl))
        (spawns (ground arith)))
      (finishes (ground arith))

start-IsCounted_example :
    (handled.running ≤ max (max_conn base_cfg) 64)
    × (handled.permits + handled.starting + handled.running + handled.closing
        ≡ max (max_conn base_cfg) 64)
    × (handled.active_connections ≡ handled.running)
    × (length handled.queue ≤ max (max_conn base_cfg) 256)
    × (handled.accepted
        ≡ length handled.queue
          + handled.starting
          + handled.running
          + handled.closing
          + handled.shed
          + handled.finished
          + handled.dropped)
    × ((handled.shutdown ≡ true) ⊎ (handled.dropped ≡ 0))
start-IsCounted_example = start-IsCounted base_cfg 10_000 10_000 handled bounds handles
