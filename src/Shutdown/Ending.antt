-- ===== src/Shutdown/Ending.antt =====
-- What is left of PRISM/src/main.cpp once the watcher has cleared `running`.
use prism_dev.Common.{ℕ, ◌+◌, ◌≤◌, ◌≡◌, ◌⊎◌, refl, arith, Bool, false, inl, inr}
use prism_dev.Shutdown.{
  MainAt, outer, polling, inner, fetching, holding, handling, leaving, breaking, destroying,
  closing, ended, Threads, start, Step, Run, here, next, leave_loop, poll_idle, end_batch, refuse,
  fetched, handled, enter_loop, poll_ready, poll_failed, next_round, admit, not_fetched,
  stop_active, signalled, wait_failed, watcher_stop_idle, watcher_stop_active, watcher_broke,
  cleared, stop_idle, broke, destroy, close,
}
use prism_dev.Shutdown.Safety.{Inv, Step-Inv, Run-Inv}

-- Steps that `main` has left at most, once it will not be let into another round.
abbrev pub left_of : MainAt → ℕ
left_of handling = 9
left_of holding = 10
left_of polling = 8
left_of fetching = 7
left_of inner = 7
left_of outer = 6
left_of leaving = 5
left_of breaking = 4
left_of destroying = 3
left_of closing = 2
left_of ended = 0

Step-falls :
    {s t : Threads}
    → Step false s t
    → Inv s
    → s.running ≡ false
    → (t.running ≡ false) × (left_of t.main + 1 ≤ left_of s.main)
Step-falls (enter_loop x y z) v e = ground (arith, v.stopped)
Step-falls (leave_loop x y z) v e = ground (arith, v.stopped)
Step-falls (poll_idle x y) v e = ground (arith, v.stopped)
Step-falls (poll_ready x y) v e = ground (arith, v.stopped)
Step-falls (poll_failed x y z) v e = ground (arith, v.stopped)
Step-falls (next_round x y z) v e = ground (arith, v.stopped)
Step-falls (end_batch x y) v e = ground (arith, v.stopped)
Step-falls (refuse x y z) v e = ground (arith, v.stopped)
Step-falls (admit x y z) v e = ground (arith, v.stopped)
Step-falls (fetched x y) v e = ground (arith, v.stopped)
Step-falls (not_fetched x y) v e = ground (arith, v.stopped)
Step-falls (handled x y) v e = ground (arith, v.stopped)
Step-falls (stop_idle x y z) v e = ground (arith, v.stopped)
Step-falls (stop_active x y z) v e = ground (arith, v.stopped)
Step-falls (broke x y) v e = ground (arith, v.stopped)
Step-falls (destroy x y) v e = ground (arith, v.stopped)
Step-falls (close x y) v e = ground (arith, v.stopped)
Step-falls (signalled x y) v e = ground (arith, v.stopped)
Step-falls (wait_failed x y) v e = ground (arith, v.stopped)
Step-falls (watcher_stop_idle x y z) v e = ground (arith, v.stopped)
Step-falls (watcher_stop_active x y z) v e = ground (arith, v.stopped)
Step-falls (watcher_broke x y) v e = ground (arith, v.stopped)
Step-falls (cleared x y) v e = ground (arith, v.stopped)

Run-falls :
    {s : Threads} {n : ℕ} {t : Threads}
    → Run false s n t
    → Inv s
    → s.running ≡ false
    → (t.running ≡ false) × Inv t × (left_of t.main + n ≤ left_of s.main)
Run-falls here v e = (e, v, omega arith)
Run-falls (next r st) v e =
    let (off, w, le) = Run-falls r v e in
    let (off', fall) = Step-falls st w off in (off', Step-Inv st w, omega arith)

-- Some step is possible, or `main` is at its end.
abbrev pub CanStep : Threads → Type 0
CanStep s = (t : Threads) × Step false s t

-- With `running` cleared, each place of `main` but the end has a step.
go_on :
    (s : Threads) (m : MainAt)
    → s.main ≡ m
    → s.running ≡ false
    → s.active ≡ false
    → (m ≡ ended) ⊎ CanStep s
go_on s outer e off idle = inr (_, leave_loop e off refl)
go_on s polling e off idle = inr (_, poll_idle e refl)
go_on s inner e off idle = inr (_, end_batch e refl)
go_on s fetching e off idle = inr (_, refuse e (ground arith) refl)
go_on s holding e off idle = inr (_, fetched e refl)
go_on s handling e off idle = inr (_, handled e refl)
go_on s leaving e off idle = inr (_, stop_idle e (ground arith) refl)
go_on s breaking e off idle = inr (_, broke e refl)
go_on s destroying e off idle = inr (_, destroy e refl)
go_on s closing e off idle = inr (_, close e refl)
go_on s ended e off idle = inl refl

-- Where `poll` does not fail but for interruptions: from any state that the two threads can reach in
-- which `running` is cleared, every run has at most ten steps, and a run that cannot be continued has
-- brought `main` to its end.
pub Run-ends :
    {polls : Bool} {n : ℕ} {s : Threads} {k : ℕ} {t : Threads}
    → Run false (start polls) n s
    → s.running ≡ false
    → Run false s k t
    → (k ≤ 10) × ((t.main ≡ ended) ⊎ CanStep t)
Run-ends {s = s} {t = t} before off after =
    let (still, v, le) = Run-falls after (Run-Inv before) off in
    let bound : left_of s.main ≤ 10 = ground arith in
    (omega arith, go_on t t.main refl still (v.stopped still).1)
