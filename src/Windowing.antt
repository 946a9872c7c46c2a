-- ===== src/Windowing.antt =====
-- PRISM/src/window/window_manager.cpp. Time points are nanoseconds and durations milliseconds; the
-- 64-bit counts of the clock, which last 292 years, are taken as unbounded.
use prism_dev.Common.{
  ℕ, ◌+◌, ◌-◌, ◌*◌, Bool, true, false, ◌&&◌, List, [], ◌∷◌, ◌++◌, Option, none, some, keep, ltb,
  leb, if◌then◌else◌,
}
use prism_dev.Packet.{ParsedRecord, Window}
pub mod Slices
pub mod History
pub mod Exact
pub mod Schedule
pub mod Buffer
pub mod Order
pub mod Members
pub mod Complete
pub mod Lag
pub mod First
pub mod Sustained

pub record WindowManager : Type 0 where
  pub window_size : ℕ
  pub step_size : ℕ
  pub buffer : List ParsedRecord
  pub next_emit_time : ℕ
  pub last_time : ℕ
  pub initialized : Bool

-- A duration in milliseconds, in the unit of the time points.
abbrev pub ms : ℕ → ℕ
ms d = d * 1_000_000

unfoldable pub new : ℕ → ℕ → WindowManager
new window_size step_size = record {
  window_size = window_size;
  step_size = step_size;
  buffer = [];
  next_emit_time = 0;
  last_time = 0;
  initialized = false;
}

-- The test by which a buffered record enters the window.
abbrev pub within : ℕ → ℕ → ParsedRecord → Bool
within start_time end_time r = leb start_time r.timestamp && leb r.timestamp end_time

-- The loop that takes records from the front while they are older than the next window needs.
unfoldable pub drop_older : ℕ → List ParsedRecord → List ParsedRecord
drop_older oldest_needed [] = []
drop_older oldest_needed (r ∷ rs) =
    let rest = drop_older oldest_needed rs in if ltb r.timestamp oldest_needed then rest else r ∷ rs

-- The part of `addRecord` below the test of monotonicity: note the time, and set the first emission.
unfoldable pub arm : WindowManager → ParsedRecord → WindowManager
arm m r =
    if m.initialized
    then record m { last_time = r.timestamp; buffer = m.buffer ++ r ∷ [] }
    else record m {
      last_time = r.timestamp;
      next_emit_time = r.timestamp + ms m.window_size;
      initialized = true;
      buffer = m.buffer ++ r ∷ [];
    }

-- The part that emits, with the window that it fills.
unfoldable pub emit : WindowManager → WindowManager × Window
emit m = (
  record m { next_emit_time = next; buffer = drop_older (next - ms m.window_size) m.buffer },
  record {
    start_time = start;
    end_time = m.next_emit_time;
    records = keep (within start m.next_emit_time) m.buffer;
  },
)
  where
    start : ℕ
    start = m.next_emit_time - ms m.window_size

    next : ℕ
    next = m.next_emit_time + ms m.step_size

-- `none` is the result false, on which `outWindow` stays as it was; `some w` is the result true with
-- the window filled in.
unfoldable pub add_record : WindowManager → ParsedRecord → WindowManager × Option Window
add_record m r =
    if m.initialized && ltb r.timestamp m.last_time
    then (m, none)
    else if leb armed.next_emit_time r.timestamp
    then (emitted.0, some emitted.1)
    else (armed, none)
  where
    armed : WindowManager
    armed = arm m r

    emitted : WindowManager × Window
    emitted = emit armed

-- The manager after a sequence of records.
unfoldable pub feed : WindowManager → List ParsedRecord → WindowManager
feed m [] = m
feed m (r ∷ rs) = feed (add_record m r).0 rs
