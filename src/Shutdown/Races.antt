-- ===== src/Shutdown/Races.antt =====
-- What a failure of `poll` lets happen in PRISM/src/main.cpp.
use prism_dev.Common.{◌≡◌, refl, arith, true, false, if◌then◌else◌}
use prism_dev.Shutdown.{
  closing, destroying, leaving, polling, ended, breaking_loop, stopping, Threads, Run, here, next,
  poll_failed, stop_idle, destroy, close, watcher_stop_active,
}

-- From any state in which `main` waits in `poll` and the watcher has been woken by a signal, with the
-- capture open, if `poll` may fail then a run leads to a state in which the watcher is about to hand
-- libpcap the handle that was closed.
pub poll_failed_races :
    (s : Threads)
    → s.main ≡ polling
    → s.watcher ≡ stopping
    → s.handle ≡ true
    → s.active ≡ true
    → (t : Threads) × Run true s 5 t × (t.watcher ≡ breaking_loop) × (t.closed ≡ true)
poll_failed_races s at_poll woken open_handle on = (
  s5,
  next
      (next
        (next
          (next (next {t = s} {u = s1} here (poll_failed refl at_poll refl))
            (watcher_stop_active woken (ground arith) refl))
          (stop_idle refl (ground arith) refl))
        (destroy refl refl))
      (close (ground arith) refl),
  refl,
  refl,
)
  where
    s1 : Threads
    s1 = record s { main = leaving }

    s2 : Threads
    s2 = record s1 { watcher = breaking_loop; active = false }

    s3 : Threads
    s3 = record s2 { main = destroying }

    s4 : Threads
    s4 = record s3 { main = if s.handle then closing else ended; handle = false; active = false }

    s5 : Threads
    s5 = record s4 { main = ended; closed = true }
