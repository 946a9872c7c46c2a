-- ===== src/Pipeline/Source/Typed.antt =====
-- The ranges of the records that PRISM/src/main.cpp keeps and shows, from the captured bytes on.
use prism_dev.Windowing.{new}
use prism_dev.Windowing.Members.{All-add_record}
use prism_dev.Common.{
  ◌==◌, not, ◌||◌, not, ℕ, ◌≤◌, ◌≡◌, refl, arith, Bool, true, false, List, [], ◌∷◌, Option, none,
  some, All, length, Bool-cases, inl, inr, if◌then◌else◌,
}
use prism_dev.Common.Bits.{IsByte}
use prism_dev.Packet.{
  RawPacket, ParsedRecord, IsPacket, Window, Proto, unknown, modbus, dnp3, iec104,
}
use prism_dev.Double.{Double}
use prism_dev.Features.{Iteration}
use prism_dev.Enforcement.{Net}
use prism_dev.Capture.{
  Ntop, Fetch, timeout, refused, fetched, PcapCapture, next_packet, decode_frame,
}
use prism_dev.Capture.Reads.{Returns, decode_frame_safe}
use prism_dev.Pipeline
use prism_dev.Pipeline.{
  dropped, add_record, assess, observe, after_record, handle_as, is_dropped, classify_protocol,
  Monitor, Poll, stopped, no_packet, arrived, Step, alerted, parse_as, process, fallback,
}
use prism_dev.Pipeline.Ranges.{IsRecord, parse_as-IsRecord}
use prism_dev.Pipeline.Source.{◌>>=◌, Round, met_in}

-- All bytes of a packet were captured.
abbrev pub IsWhole : Fetch → Type 0
IsWhole (fetched len bytes) = All IsByte bytes × (len ≤ length bytes)
IsWhole _ = Unit

abbrev pub IsTyped : Poll → Type 0
IsTyped (arrived p net) = IsPacket p
IsTyped _ = Unit

-- A packet that is filled is in the ranges of its types.
abbrev Filled : Bool × RawPacket → Type 0
Filled (done, p) = done ≡ true → IsPacket p

Returns-weaken {ℓ} :
    {A : Type ℓ} (P Q : A → Type 0) (o : Option A)
    → Returns P o
    → ((a : A) → P a → Q a)
    → Returns Q o
Returns-weaken P Q none h k = h
Returns-weaken P Q (some a) h k = k a h

module _ {ℓ κ} {A : Type ℓ} {B : Type κ} where
  Returns-bind :
      (P : A → Type 0) (Q : B → Type 0) (o : Option A) (f : A → Option B)
      → Returns P o
      → ((a : A) → P a → Returns Q (f a))
      → Returns Q (o >>= f)
  Returns-bind P Q none f h k = absurd h
  Returns-bind P Q (some a) f h k = k a h

next_packet-Filled :
    (ntop : Ntop) (now : ℕ) (f : Fetch) (c : PcapCapture) (packet : RawPacket)
    → IsWhole f
    → Returns Filled (next_packet ntop now f c packet).1
unfolding next_packet
next_packet-Filled ntop now timeout c packet h = ground arith
next_packet-Filled ntop now refused c packet h = ground arith
next_packet-Filled ntop now (fetched len bytes) c packet h =
    elim (Bool-cases (not c.handle || not c.active)) [
      | inl idle ↦ rw idle (λ e. cc)
      | inr live ↦ rw live (
          Returns-weaken _ Filled (decode_frame ntop c.linktype now len bytes packet)
            (decode_frame_safe bytes h.0 len h.1 ntop c.linktype now packet)
            (λ got outcome e. (outcome.0 e).0))
    ]

next_round-IsTyped :
    (got : Bool × RawPacket) (net : Net) (rest : List Poll)
    → Filled got
    → All IsTyped rest
    → All IsTyped ((if got.0 then arrived got.1 net else no_packet) ∷ rest)
next_round-IsTyped (true, p) net rest h k = (h refl, k)
next_round-IsTyped (false, p) net rest h k = (tt, k)

met_in-IsTyped :
    (ntop : Ntop) (c : PcapCapture) (packet : RawPacket) (rs : List Round)
    → All (λ r. IsWhole r.fetch) rs
    → Returns (All IsTyped) (met_in ntop c packet rs)
unfolding met_in
met_in-IsTyped ntop c packet [] h = tt
met_in-IsTyped ntop c packet (r ∷ rs) h =
    Returns-bind Filled (All IsTyped) (next_packet ntop r.now r.fetch c packet).1 _
      (next_packet-Filled ntop r.now r.fetch c packet h.0)
      (λ got filled.
        Returns-bind (All IsTyped) (All IsTyped) (met_in ntop c got.1 rs) _
          (met_in-IsTyped ntop c got.1 rs h.1)
          (λ rest typed. next_round-IsTyped got r.net rest filled typed))

-- What is buffered is in the ranges of its types.
abbrev pub Keeps : Monitor → Type 0
Keeps m = All IsRecord m.manager.buffer

-- What an alert shows is in the ranges of its types.
abbrev pub Shows {ℓ} : {W : Type ℓ} → Step W → Type 0
Shows (alerted a) = IsRecord a.shown
Shows _ = Unit

module _ {ℓ} (W : Type ℓ) ⦃d : Double W⦄ (it : Iteration) where
  after_record-Keeps :
      (m : Monitor) (r : ParsedRecord) (w : Option Window) (net : Net)
      → Keeps m
      → IsRecord r
      → let (m', step) = after_record {W = W} it m r w net in Keeps m' × Shows step
  unfolding after_record assess
  after_record-Keeps m r none net h p = (h, tt)
  after_record-Keeps m r (some w) net h p = elim (Bool-cases (length w.records == 0)) [
    | inl none_left ↦ rw none_left (h, tt)
    | inr filled ↦ rw filled (h, p)
  ]

  observe-Keeps :
      (m : Monitor) (r : ParsedRecord) (net : Net)
      → Keeps m
      → IsRecord r
      → let (m', step) = observe {W = W} it m r net in Keeps m' × Shows step
  unfolding observe
  observe-Keeps m r net h p =
      let (manager, window) = add_record m.manager r in
      after_record-Keeps (record m { manager = manager }) r window net
        (All-add_record IsRecord m.manager r h p) p

  parsed-Keeps :
      (m : Monitor) (r : ParsedRecord) (net : Net)
      → Keeps m
      → IsRecord r
      → let (m', step) = if is_dropped r then (m, dropped) else observe {W = W} it m r net in
        Keeps m' × Shows step
  parsed-Keeps m r net h p = elim (Bool-cases (is_dropped r)) [
    | inl bad ↦ rw bad (h, tt)
    | inr good ↦ rw good (observe-Keeps m r net h p)
  ]

  handle_as-Keeps :
      (proto : Proto) (m : Monitor) (packet : RawPacket) (net : Net)
      → Keeps m
      → IsPacket packet
      → let (m', step) = handle_as {W = W} it proto m packet net in Keeps m' × Shows step
  unfolding handle_as
  handle_as-Keeps unknown m packet net h p = (h, tt)
  handle_as-Keeps modbus m packet net h p =
      parsed-Keeps m (parse_as modbus packet) net h (parse_as-IsRecord modbus packet p).0
  handle_as-Keeps dnp3 m packet net h p =
      parsed-Keeps m (parse_as dnp3 packet) net h (parse_as-IsRecord dnp3 packet p).0
  handle_as-Keeps iec104 m packet net h p =
      parsed-Keeps m (parse_as iec104 packet) net h (parse_as-IsRecord iec104 packet p).0

  fallback-Keeps :
      (m : Monitor) (es : List Poll)
      → Keeps m
      → All IsTyped es
      → let (last, steps) = fallback {W = W} it m es in Keeps last × All Shows steps
  unfolding fallback process
  fallback-Keeps m [] h k = (h, tt)
  fallback-Keeps m (stopped ∷ es) h k = (h, tt)
  fallback-Keeps m (no_packet ∷ es) h k = fallback-Keeps m es h k.1
  fallback-Keeps m (arrived packet net ∷ es) h k =
      let (kept, shown) = handle_as-Keeps (classify_protocol packet) m packet net h k.0 in
      let (last, steps) = fallback-Keeps (process {W = W} it m packet net).0 es kept k.1 in
      (last, (shown, steps))

  -- From a new monitor on, whatever the bytes of the packets are, as long as all of them were
  -- captured: no read of the capture leaves the captured bytes, and after the loop without a
  -- descriptor has handled all of the packets up to a stop, the function code of every buffered record
  -- and of every record that an alert has shown fits a byte, and its address a 16-bit word.
  pub met_in-Keeps :
      (ntop : Ntop) (c : PcapCapture) (packet : RawPacket) (rs : List Round)
      → All (λ r. IsWhole r.fetch) rs
      → Returns
          (λ es.
            let (last, steps) = fallback {W = W} it Pipeline.start es in
            Keeps last × All Shows steps)
          (met_in ntop c packet rs)
  unfolding Pipeline.start new
  met_in-Keeps ntop c packet rs h =
      Returns-weaken (All IsTyped) _ (met_in ntop c packet rs) (met_in-IsTyped ntop c packet rs h)
        (λ es typed. fallback-Keeps Pipeline.start es tt typed)
