-- ===== src/Windowing/Schedule.antt =====
-- When the window manager of PRISM/src/window/window_manager.cpp emits, and what it buffers.
use prism_dev.Common.{
  ℕ, zero, suc, ◌⊎◌, ◌+◌, ◌≤◌, ◌≡◌, refl, ap, arith, true, List, [], ◌∷◌, Option, none, some, map,
  inl, inr, length,
}
use prism_dev.Packet.{ParsedRecord, Window}
use prism_dev.Windowing.{WindowManager, ms, new, arm, emit, add_record}
use prism_dev.Windowing.History.{add_record_sizes}

abbrev pub and_then : Option Window → List Window → List Window
and_then none ws = ws
and_then (some w) ws = w ∷ ws

length-and_then : (w : Option Window) (ws : List Window) → length (and_then w ws) ≤ suc (length ws)
length-and_then none ws = omega arith
length-and_then (some w) ws = omega arith

-- The windows that a sequence of records makes the manager emit.
unfoldable pub windows : WindowManager → List ParsedRecord → List Window
windows m [] = []
windows m (r ∷ rs) = let (m', w) = add_record m r in and_then w (windows m' rs)

length-windows : (rs : List ParsedRecord) (m : WindowManager) → length (windows m rs) ≤ length rs
unfolding windows
length-windows [] m = omega arith
length-windows (r ∷ rs) m = omega (
  arith,
  length-and_then (add_record m r).1 (windows (add_record m r).0 rs),
  length-windows rs (add_record m r).0,
)

-- `n` times from `t` on, `d` apart.
abbrev pub every : ℕ → ℕ → ℕ → List ℕ
every d t zero = []
every d t (suc n) = t ∷ every d (t + d) n

abbrev pub ends : List Window → List ℕ
ends = map (λ w. w.end_time)

-- A call leaves the manager started, and it emits nothing and leaves the emission time at `t`, or
-- it emits the window that ends at `t` and moves the emission time by one step.
abbrev EmitsAt : ℕ → WindowManager → ParsedRecord → Type 0
EmitsAt t m r =
    ((add_record m r).0.initialized ≡ true)
    × (((add_record m r).1 ≡ none) × ((add_record m r).0.next_emit_time ≡ t)
        ⊎ ((w : Window) × ((add_record m r).1 ≡ some w)
            × (w.end_time ≡ t)
            × ((add_record m r).0.next_emit_time ≡ t + ms m.step_size)))

later-EmitsAt :
    (m : WindowManager) (r : ParsedRecord) → m.initialized ≡ true → EmitsAt m.next_emit_time m r
unfolding add_record arm emit
later-EmitsAt m r on = ground arith

first-EmitsAt : (w s : ℕ) (r : ParsedRecord) → EmitsAt (r.timestamp + ms w) (new w s) r
unfolding new add_record arm emit
first-EmitsAt w s r = ground arith

abbrev IsEvery : ℕ → ℕ → List Window → Type 0
IsEvery d t ws = ends ws ≡ every d t (length ws)

windows_cons :
    (t : ℕ) (m : WindowManager) (r : ParsedRecord) (rs : List ParsedRecord)
    → EmitsAt t m r
    → IsEvery
        (ms (add_record m r).0.step_size)
        (add_record m r).0.next_emit_time
        (windows (add_record m r).0 rs)
    → IsEvery (ms m.step_size) t (windows m (r ∷ rs))
unfolding windows
windows_cons t m r rs (_, step) ih =
    let (_, same_step) = add_record_sizes m r in
    elim step [
      | inl (quiet, same) ↦ rw quiet (rw (same, same_step) at ih)
      | inr (w, emitted, end, next) ↦
          rw (emitted, end) (ap (λ (ts : List ℕ). t ∷ ts) (rw (next, same_step) at ih))
    ]

windows-IsEvery :
    (rs : List ParsedRecord) (m : WindowManager)
    → m.initialized ≡ true
    → IsEvery (ms m.step_size) m.next_emit_time (windows m rs)
unfolding windows
windows-IsEvery [] m on = refl
windows-IsEvery (r ∷ rs) m on =
    let e = later-EmitsAt m r on in
    windows_cons m.next_emit_time m r rs e (windows-IsEvery rs (add_record m r).0 e.0)

-- Whatever the gaps between the records are, the windows that a new manager emits end one window
-- size after the first record, and then one step after one another with none left out, and each
-- record brings at most one of them.
pub windows_schedule :
    (window_size step_size : ℕ) (r : ParsedRecord) (rs : List ParsedRecord)
    → let ws = windows (new window_size step_size) (r ∷ rs) in
      (ends ws ≡ every (ms step_size) (r.timestamp + ms window_size) (length ws))
      × (length ws ≤ length (r ∷ rs))
unfolding new
windows_schedule w s r rs =
    let e = first-EmitsAt w s r in
    (
      windows_cons (r.timestamp + ms w) (new w s) r rs e
          (windows-IsEvery rs (add_record (new w s) r).0 e.0),
      length-windows (r ∷ rs) (new w s),
    )
