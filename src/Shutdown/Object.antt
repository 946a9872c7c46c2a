-- ===== src/Shutdown/Object.antt =====
-- The steps of the threads on the object of PRISM/src/capture/pcap.cpp.
use prism_dev.Common.{ℕ, ◌≡◌, ◌⊎◌, arith, Bool, ◌&&◌}
use prism_dev.Packet.{RawPacket}
use prism_dev.Capture.{LinkType, Ntop, Fetch, PcapCapture, stop, close_capture, next_packet}
use prism_dev.Shutdown.{
  Threads, Step, enter_loop, leave_loop, poll_idle, poll_ready, poll_failed, next_round, end_batch,
  refuse, admit, fetched, not_fetched, handled, stop_idle, stop_active, broke, destroy, close,
  signalled, wait_failed, watcher_stop_idle, watcher_stop_active, watcher_broke, cleared,
}

module _ (link : LinkType) where
  abbrev pub object_of : Threads → PcapCapture
  object_of s = record { handle = s.handle; active = s.active; linktype = link }

  -- What a step may do to the object.
  abbrev Moves : PcapCapture → PcapCapture → Type 0
  Moves c c' = (c' ≡ c) ⊎ ((c' ≡ (stop c).0) ⊎ (c' ≡ (close_capture c).0))

  -- Each step leaves the object as it is, or as `stop` leaves it, or as the destructor does.
  pub Step-object_of :
      {fails : Bool} {s t : Threads} → Step fails s t → Moves (object_of s) (object_of t)
  unfolding stop close_capture
  Step-object_of (enter_loop a b c) = ground arith
  Step-object_of (leave_loop a b c) = ground arith
  Step-object_of (poll_idle a b) = ground arith
  Step-object_of (poll_ready a b) = ground arith
  Step-object_of (poll_failed a b c) = ground arith
  Step-object_of (next_round a b c) = ground arith
  Step-object_of (end_batch a b) = ground arith
  Step-object_of (refuse a b c) = ground arith
  Step-object_of (admit a b c) = ground arith
  Step-object_of (fetched a b) = ground arith
  Step-object_of (not_fetched a b) = ground arith
  Step-object_of (handled a b) = ground arith
  Step-object_of (stop_idle a b c) = ground arith
  Step-object_of (stop_active a b c) = ground arith
  Step-object_of (broke a b) = ground arith
  Step-object_of (destroy a b) = ground arith
  Step-object_of (close a b) = ground arith
  Step-object_of (signalled a b) = ground arith
  Step-object_of (wait_failed a b) = ground arith
  Step-object_of (watcher_stop_idle a b c) = ground arith
  Step-object_of (watcher_stop_active a b c) = ground arith
  Step-object_of (watcher_broke a b) = ground arith
  Step-object_of (cleared a b) = ground arith

  -- The round that is refused is the one in which `nextPacket` does not call libpcap, and `stop` calls
  -- libpcap in the same states in which `nextPacket` does.
  calls-object_of :
      (s : Threads) (ntop : Ntop) (now : ℕ) (f : Fetch) (packet : RawPacket)
      → ((next_packet ntop now f (object_of s) packet).0 ≡ (s.handle && s.active))
        × ((stop (object_of s)).1 ≡ (s.handle && s.active))
  unfolding next_packet stop
  calls-object_of s ntop now f packet = ground arith
