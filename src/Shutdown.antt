-- ===== src/Shutdown.antt =====
-- The two threads of PRISM/src/main.cpp and the capture object that they share: `main`, which runs
-- one of the two loops, and `sig_watcher`, which stops the capture when a signal arrives. A region
-- under the lock of PRISM/src/capture/pcap.cpp is one step; what stands between two regions is a step
-- of its own, so that the other thread may come in between.
use prism_dev.Common.{ℕ, suc, ◌≡◌, Bool, true, false, ◌&&◌, if◌then◌else◌}
pub mod Safety
pub mod Ending
pub mod Races
pub mod Object

-- Where `main` is: at the head of a loop, in `poll`, at the head of the inner loop, about to take the
-- lock in `nextPacket`, about to call `pcap_next_ex`, with a packet, and then, past the loop, about to
-- call `stop`, about to call `pcap_breakloop`, about to destroy the capture, about to call
-- `pcap_close`, and at its end.
pub data MainAt : Type 0 where
  outer polling inner fetching holding handling : MainAt
  leaving breaking destroying closing ended : MainAt

-- Where the watcher is: in `sigwait`, about to take the lock in `stop`, about to call
-- `pcap_breakloop`, about to clear `running`, at its end, and at its end after a failed `sigwait`.
pub data WatcherAt : Type 0 where
  waiting stopping breaking_loop clearing finished failed : WatcherAt

pub record Threads : Type 0 where
  pub main : MainAt
  pub watcher : WatcherAt
  pub handle : Bool
  pub active : Bool
  pub running : Bool
  pub closed : Bool
  pub polls : Bool

-- Both threads at their starts, with the capture open; `polls` says which loop is run.
abbrev pub start : Bool → Threads
start polls = record {
  main = outer;
  watcher = waiting;
  handle = true;
  active = true;
  running = true;
  closed = false;
  polls = polls;
}

-- One step of either thread. The count of the inner loop is left out: the loop may end a batch in any
-- round. `fails` says whether `poll` may fail with another error than an interruption.
pub data Step (fails : Bool) (s t : Threads) : Type 0 where
  enter_loop :
      s.main ≡ outer
      → s.running ≡ true
      → t ≡ record s { main = if s.polls then polling else fetching }
      → Step fails s t
  leave_loop : s.main ≡ outer → s.running ≡ false → t ≡ record s { main = leaving } → Step fails s t
  poll_idle : s.main ≡ polling → t ≡ record s { main = outer } → Step fails s t
  poll_ready : s.main ≡ polling → t ≡ record s { main = inner } → Step fails s t
  poll_failed : fails ≡ true → s.main ≡ polling → t ≡ record s { main = leaving } → Step fails s t
  next_round : s.main ≡ inner → s.running ≡ true → t ≡ record s { main = fetching } → Step fails s t
  end_batch : s.main ≡ inner → t ≡ record s { main = outer } → Step fails s t
  refuse :
      s.main ≡ fetching
      → (s.handle && s.active) ≡ false
      → t ≡ record s { main = outer }
      → Step fails s t
  admit :
      s.main ≡ fetching
      → (s.handle && s.active) ≡ true
      → t ≡ record s { main = holding }
      → Step fails s t
  fetched : s.main ≡ holding → t ≡ record s { main = handling } → Step fails s t
  not_fetched : s.main ≡ holding → t ≡ record s { main = outer } → Step fails s t
  handled :
      s.main ≡ handling → t ≡ record s { main = if s.polls then inner else outer } → Step fails s t
  stop_idle :
      s.main ≡ leaving
      → (s.handle && s.active) ≡ false
      → t ≡ record s { main = destroying }
      → Step fails s t
  stop_active :
      s.main ≡ leaving
      → (s.handle && s.active) ≡ true
      → t ≡ record s { main = breaking; active = false }
      → Step fails s t
  broke : s.main ≡ breaking → t ≡ record s { main = destroying } → Step fails s t
  destroy :
      s.main ≡ destroying
      → t ≡ record s { main = if s.handle then closing else ended; handle = false; active = false }
      → Step fails s t
  close : s.main ≡ closing → t ≡ record s { main = ended; closed = true } → Step fails s t
  signalled : s.watcher ≡ waiting → t ≡ record s { watcher = stopping } → Step fails s t
  wait_failed : s.watcher ≡ waiting → t ≡ record s { watcher = failed } → Step fails s t
  watcher_stop_idle :
      s.watcher ≡ stopping
      → (s.handle && s.active) ≡ false
      → t ≡ record s { watcher = clearing }
      → Step fails s t
  watcher_stop_active :
      s.watcher ≡ stopping
      → (s.handle && s.active) ≡ true
      → t ≡ record s { watcher = breaking_loop; active = false }
      → Step fails s t
  watcher_broke : s.watcher ≡ breaking_loop → t ≡ record s { watcher = clearing } → Step fails s t
  cleared :
      s.watcher ≡ clearing → t ≡ record s { watcher = finished; running = false } → Step fails s t

-- Runs of a given number of steps.
pub data Run (fails : Bool) (s : Threads) : ℕ → Threads → Type 0 where
  here : Run fails s 0 s
  next : {n : ℕ} {t u : Threads} → Run fails s n t → Step fails t u → Run fails s (suc n) u
