-- ===== src/Shutdown/Safety.antt =====
-- What the threads of PRISM/src/main.cpp do with the handle of libpcap.
use prism_dev.Common.{ℕ, ◌≡◌, ◌⊎◌, arith, Bool, true, false, ◌||◌}
use prism_dev.Shutdown.{
  MainAt, holding, leaving, breaking, destroying, closing, ended, WatcherAt, breaking_loop,
  clearing, finished, failed, Threads, start, Step, Run, here, next, enter_loop, leave_loop,
  poll_idle, poll_ready, poll_failed, next_round, end_batch, refuse, admit, fetched, not_fetched,
  handled, stop_idle, stop_active, broke, destroy, close, signalled, wait_failed, watcher_stop_idle,
  watcher_stop_active, watcher_broke, cleared,
}

-- `main` is still in its loop.
abbrev pub in_loop : MainAt → Bool
in_loop leaving = false
in_loop breaking = false
in_loop destroying = false
in_loop closing = false
in_loop ended = false
in_loop _ = true

-- The watcher will not touch the capture object any more.
abbrev pub at_rest : WatcherAt → Bool
at_rest finished = true
at_rest failed = true
at_rest _ = false

-- The destructor of the capture has begun.
abbrev pub is_destroyed : MainAt → Bool
is_destroyed closing = true
is_destroyed ended = true
is_destroyed _ = false

pub record Inv (s : Threads) : Type 0 where
  pub stopped : s.running ≡ false → (s.watcher ≡ finished) × (s.active ≡ false)
  pub past : in_loop s.main ≡ false → s.running ≡ false
  pub gone : s.handle ≡ false → is_destroyed s.main ≡ true
  pub shut : s.closed ≡ true → s.main ≡ ended
  pub halted : (s.watcher ≡ clearing) ⊎ (s.watcher ≡ breaking_loop) → s.active ≡ false

start-Inv : (polls : Bool) → Inv (start polls)
start-Inv polls = ground arith

pub Step-Inv : {s t : Threads} → Step false s t → Inv s → Inv t
Step-Inv (enter_loop a b c) v = ground arith
Step-Inv (leave_loop a b c) v = ground arith
Step-Inv (poll_idle a b) v = ground arith
Step-Inv (poll_ready a b) v = ground arith
Step-Inv (poll_failed a b c) v = ground arith
Step-Inv (next_round a b c) v = ground arith
Step-Inv (end_batch a b) v = ground arith
Step-Inv (refuse a b c) v = ground arith
Step-Inv (admit a b c) v = ground arith
Step-Inv (fetched a b) v = ground arith
Step-Inv (not_fetched a b) v = ground arith
Step-Inv (handled a b) v = ground arith
Step-Inv (stop_idle a b c) v = ground arith
Step-Inv (stop_active a b c) v = ground arith
Step-Inv (broke a b) v = ground arith
Step-Inv (destroy a b) v = ground arith
Step-Inv (close a b) v = ground arith
Step-Inv (signalled a b) v = ground arith
Step-Inv (wait_failed a b) v = ground arith
Step-Inv (watcher_stop_idle a b c) v = ground arith
Step-Inv (watcher_stop_active a b c) v = ground arith
Step-Inv (watcher_broke a b) v = ground arith
Step-Inv (cleared a b) v = ground arith

pub Run-Inv : {polls : Bool} {n : ℕ} {s : Threads} → Run false (start polls) n s → Inv s
Run-Inv {polls} here = start-Inv polls
Run-Inv (next r st) = Step-Inv st (Run-Inv r)

-- A thread stands before a call that is given the handle.
abbrev pub uses_handle : Threads → Bool
uses_handle s = main_uses s.main || watcher_uses s.watcher
  where
    main_uses : MainAt → Bool
    main_uses holding = true
    main_uses breaking = true
    main_uses closing = true
    main_uses _ = false

    watcher_uses : WatcherAt → Bool
    watcher_uses breaking_loop = true
    watcher_uses _ = false

-- Where `poll` does not fail but for interruptions, in every state that the two threads can reach, in
-- whatever order they run: a thread that is about to hand the handle to libpcap hands it over open,
-- and the destructor of the capture begins only when the watcher will not touch the capture any more.
pub Run-safe :
    {polls : Bool} {n : ℕ} {s : Threads}
    → Run false (start polls) n s
    → (uses_handle s ≡ true → s.closed ≡ false)
      × (is_destroyed s.main ≡ true → at_rest s.watcher ≡ true)
Run-safe {s = s} r =
    let v = Run-Inv r in ground (arith, v.stopped, v.past, v.gone, v.shut, v.halted)
