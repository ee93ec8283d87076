-- ===== src/LoadShed.antt =====
-- src/middleware/load_shed.rs: the counter of the calls in flight, shared by all connections.
-- The state has, beside the atomic counter, how many calls stand at each place of the code: between
-- the counter's increment and the decrement of a refused call, waiting for the inner service, or
-- dropped there (their future is never polled again, so the line behind the `await` is not reached).
-- Each atomic operation is a step, so the calls interleave in every way.
pub mod Bound
mod Tests
use oxi_gate.Base.{ℕ, ◌+◌, ◌-◌, ◌%◌, ◌^◌, ◌<◌, Bool, leb, if◌then◌else◌}

abbrev pub usize_mod : ℕ
usize_mod = 2 ^ 64

pub record State : Type 0 where
  pub max_concurrency : ℕ
  pub in_flight : ℕ
  pub refused : ℕ
  pub running : ℕ
  pub dropped : ℕ

unfoldable pub new : ℕ → State
new max_concurrency = record {
  max_concurrency = max_concurrency;
  in_flight = 0;
  refused = 0;
  running = 0;
  dropped = 0;
}

-- `fetch_add(1)` and `fetch_sub(1)` wrap.
abbrev add_one : ℕ → ℕ
add_one n = (n + 1) % usize_mod

abbrev sub_one : ℕ → ℕ
sub_one n = (n + usize_mod - 1) % usize_mod

-- The comparison of `call`, on the counter's old value.
abbrev pub is_refused : State → Bool
is_refused s = leb s.max_concurrency s.in_flight

-- `call`, up to its second atomic operation or its wait.
unfoldable pub call : State → State
call s =
    if is_refused s
    then record s { in_flight = add_one s.in_flight; refused = s.refused + 1 }
    else record s { in_flight = add_one s.in_flight; running = s.running + 1 }

-- The decrement of a refused call.
unfoldable pub refuse : State → State
refuse s = record s { in_flight = sub_one s.in_flight; refused = s.refused - 1 }

-- The inner service answers, and the counter goes down.
unfoldable pub finish : State → State
finish s = record s { in_flight = sub_one s.in_flight; running = s.running - 1 }

-- The future is dropped while it waits: the client is gone.
unfoldable pub drop_future : State → State
drop_future s = record s { running = s.running - 1; dropped = s.dropped + 1 }

pub data Step : State → State → Type 0 where
  calls : {s : State} → Step s (call s)
  refuses : {s : State} → 0 < s.refused → Step s (refuse s)
  finishes : {s : State} → 0 < s.running → Step s (finish s)
  drops : {s : State} → 0 < s.running → Step s (drop_future s)

-- A number of steps, one after the other.
pub data Reach : ℕ → State → State → Type 0 where
  start : {s : State} → Reach 0 s s
  after : {n : ℕ} {s t u : State} → Reach n s t → Step t u → Reach (n + 1) s u
