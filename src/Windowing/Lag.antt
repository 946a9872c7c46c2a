-- ===== src/Windowing/Lag.antt =====
-- How far the windows of PRISM/src/window/window_manager.cpp fall behind the records.
use prism_dev.Common.{ℕ, suc, ◌+◌, ◌*◌, ◌≤◌, ◌<◌, ◌≡◌, arith, true, List, [], ◌∷◌, length}
use prism_dev.Packet.{ParsedRecord}
use prism_dev.Windowing.{WindowManager, ms, new, arm, emit, add_record, feed}

-- Each record comes at most `g` after the one before, the first after the time `t`.
abbrev pub Close : ℕ → ℕ → List ParsedRecord → Type 0
Close g t [] = Unit {0}
Close g t (r ∷ rs) = (t ≤ r.timestamp) × (r.timestamp ≤ t + g) × Close g r.timestamp rs

-- Each record comes at least `g` after the one before.
abbrev pub Spaced : ℕ → ℕ → List ParsedRecord → Type 0
Spaced g t [] = Unit {0}
Spaced g t (r ∷ rs) = (t + g ≤ r.timestamp) × Spaced g r.timestamp rs

-- A record in time moves the emission by one step if it is due, and by none otherwise.
add_record_moves :
    (m : WindowManager) (r : ParsedRecord)
    → m.initialized ≡ true
    → m.last_time ≤ r.timestamp
    → let m' = (add_record m r).0 in
      (m'.initialized ≡ true)
      × (m'.last_time ≡ r.timestamp)
      × (m'.step_size ≡ m.step_size)
      × (m.next_emit_time ≤ r.timestamp → m'.next_emit_time ≡ m.next_emit_time + ms m.step_size)
      × (r.timestamp < m.next_emit_time → m'.next_emit_time ≡ m.next_emit_time)
unfolding add_record arm emit
add_record_moves m r on le = ground arith

first_moves :
    (w s : ℕ) (r : ParsedRecord)
    → let m = (add_record (new w s) r).0 in
      (m.initialized ≡ true)
      × (m.last_time ≡ r.timestamp)
      × (m.step_size ≡ s)
      × (r.timestamp ≤ m.next_emit_time)
      × (m.next_emit_time ≤ r.timestamp + ms w + ms s)
unfolding new add_record arm emit
first_moves w s r = ground arith

later_keeps_up :
    (rs : List ParsedRecord) (m : WindowManager)
    → m.initialized ≡ true
    → m.last_time ≤ m.next_emit_time
    → Close (ms m.step_size) m.last_time rs
    → (feed m rs).last_time ≤ (feed m rs).next_emit_time
unfolding feed
later_keeps_up [] m on up h = up
later_keeps_up (r ∷ rs) m on up h =
    let (on', last, step, due, early) = add_record_moves m r on h.0 in
    let m' = (add_record m r).0 in
    later_keeps_up rs m' on' (ground (arith, due, early)) (rw (last, step) h.2)

one_more : (g n a b c : ℕ) → a + g ≤ b → b + n * g ≤ c → a + suc n * g ≤ c
one_more g n a b c h k = grind arith

one_more_back : (g n a b c : ℕ) → b ≤ a + g → c ≤ b + n * g → c ≤ a + suc n * g
one_more_back g n a b c h k = grind arith

later_lags :
    (rs : List ParsedRecord) (m : WindowManager) (g : ℕ)
    → m.initialized ≡ true
    → Spaced g m.last_time rs
    → (m.last_time + length rs * g ≤ (feed m rs).last_time)
      × ((feed m rs).next_emit_time ≤ m.next_emit_time + length rs * ms m.step_size)
unfolding feed
later_lags [] m g on h = (omega arith, omega arith)
later_lags (r ∷ rs) m g on h =
    let (on', last, step, due, early) = add_record_moves m r on (omega arith) in
    let m' = (add_record m r).0 in
    let (time, emission) = later_lags rs m' g on' (rw last h.1) in
    let stepped : m'.next_emit_time ≤ m.next_emit_time + ms m.step_size =
      ground (arith, due, early) in
    let emission' : (feed m' rs).next_emit_time ≤ m'.next_emit_time + length rs * ms m.step_size =
      rw step at emission in
    (
      one_more g (length rs) _ _ _ (omega (arith, last)) time,
      one_more_back (ms m.step_size) (length rs) _ _ _ stepped emission',
    )

-- Where each record comes at most one step after the one before, a new manager keeps up: the last
-- record that it has seen is not after the end of the window that it emits next.
pub feed_keeps_up :
    (window_size step_size : ℕ) (r : ParsedRecord) (rs : List ParsedRecord)
    → Close (ms step_size) r.timestamp rs
    → let m = feed (new window_size step_size) (r ∷ rs) in m.last_time ≤ m.next_emit_time
unfolding feed
feed_keeps_up w s r rs h =
    let (on, last, step, up, bound) = first_moves w s r in
    later_keeps_up rs (add_record (new w s) r).0 on (omega (arith, last)) (rw (last, step) h)

fallen_behind :
    (S e n a w last next : ℕ)
    → a + n * (S + e) ≤ last
    → next ≤ a + w + suc n * S
    → next + n * e ≤ last + w + S
fallen_behind S e n a w last next h k = grind arith

-- Where each record comes one step and `extra` nanoseconds or more after the one before, a new manager
-- falls behind by `extra` for each record: after the first record and `n` more, the end of the window
-- that it emits next is at least `n` times `extra` before a window and a step after the last record.
pub feed_lags :
    (window_size step_size extra : ℕ) (r : ParsedRecord) (rs : List ParsedRecord)
    → Spaced (ms step_size + extra) r.timestamp rs
    → let m = feed (new window_size step_size) (r ∷ rs) in
      m.next_emit_time + length rs * extra ≤ m.last_time + ms window_size + ms step_size
unfolding feed
feed_lags w s extra r rs h =
    let (on, last, step, up, bound) = first_moves w s r in
    let (time, emission) = later_lags rs (add_record (new w s) r).0 (ms s + extra) on (rw last h) in
    let emission' = rw step at emission in
    fallen_behind (ms s) extra (length rs) r.timestamp (ms w) _ _ (rw last at time)
      (one_more_back (ms s) (length rs) _ _ _ bound emission')
