-- ===== src/Capture/Handle.antt =====
-- The life of the capture object of PRISM/src/capture/pcap.cpp, whose `stop` is called by the thread
-- that waits for signals while the main thread fetches packets.
use prism_dev.Common.{
  ℕ, ◌+◌, ◌≤◌, ◌≡◌, refl, arith, false, ◌&&◌, List, [], ◌∷◌, some, if◌then◌else◌,
}
use prism_dev.Packet.{RawPacket}
use prism_dev.Capture.{PcapCapture, Ntop, Fetch, stop, next_packet}

-- The calls of the two threads, in the order in which they take the lock. The destructor runs last.
pub data Call : Type 0 where
  stops : Call
  fetches : ℕ → Fetch → RawPacket → Call

abbrev IsIdle : PcapCapture → Type 0
IsIdle c = (c.handle && c.active) ≡ false

stop-IsIdle : (c : PcapCapture) → IsIdle (stop c).0
unfolding stop
stop-IsIdle c = ground arith

idle_stop : (c : PcapCapture) → IsIdle c → stop c ≡ (c, false)
unfolding stop
idle_stop c h = ground arith

module _ (ntop : Ntop) where
  -- How often `pcap_breakloop` is called over a sequence of calls.
  unfoldable pub breaks : PcapCapture → List Call → ℕ
  breaks c [] = 0
  breaks c (stops ∷ calls) =
      let (c', called) = stop c in (if called then 1 else 0) + breaks c' calls
  breaks c (fetches now f p ∷ calls) = breaks c calls

  -- Every fetch among the calls returns false without a call of `pcap_next_ex`, and leaves its packet.
  abbrev pub AllIdle : PcapCapture → List Call → Type 0
  AllIdle c [] = Unit {0}
  AllIdle c (stops ∷ calls) = AllIdle (stop c).0 calls
  AllIdle c (fetches now f p ∷ calls) =
      (next_packet ntop now f c p ≡ (false, some (false, p))) × AllIdle c calls

  idle_breaks : (c : PcapCapture) (calls : List Call) → IsIdle c → breaks c calls ≡ 0
  unfolding breaks
  idle_breaks c [] off = refl
  idle_breaks c (stops ∷ calls) off = rw (idle_stop c off) (omega (arith, idle_breaks c calls off))
  idle_breaks c (fetches now f p ∷ calls) off = idle_breaks c calls off

  idle_idle : (c : PcapCapture) (calls : List Call) → IsIdle c → AllIdle c calls
  unfolding next_packet
  idle_idle c [] off = tt
  idle_idle c (stops ∷ calls) off = rw (idle_stop c off) (idle_idle c calls off)
  idle_idle c (fetches now f p ∷ calls) off = (ground arith, idle_idle c calls off)

  breaks_once : (c : PcapCapture) (calls : List Call) → breaks c calls ≤ 1
  unfolding breaks
  breaks_once c [] = omega arith
  breaks_once c (stops ∷ calls) = ground (arith, idle_breaks (stop c).0 calls (stop-IsIdle c))
  breaks_once c (fetches now f p ∷ calls) = breaks_once c calls

  -- In whatever order the calls of the two threads take the lock, the loop of libpcap is broken at
  -- most once; and after a `stop` no call reaches `pcap_next_ex`: each returns false and leaves its
  -- packet as it was.
  pub stop_lem :
      (c : PcapCapture) (calls : List Call) → (breaks c calls ≤ 1) × AllIdle (stop c).0 calls
  stop_lem c calls = (breaks_once c calls, idle_idle (stop c).0 calls (stop-IsIdle c))
