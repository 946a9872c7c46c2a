-- ===== src/Capture/Reads.antt =====
-- Where the reads of PRISM/src/capture/pcap.cpp fall, inside or outside the captured bytes.
use prism_dev.Common.{
  ◌≢◌, ℕ, ◌+◌, ◌-◌, ◌*◌, ◌≤◌, ◌<◌, ◌≡◌, refl, arith, Bool, true, false, not, ◌&&◌, ◌||◌, List, [],
  ◌∷◌, Option, none, some, get_or, get_or-get_elem?, length, take, drop, All, bit_and, bit_or, ltb,
  leb, ◌==◌, Bool-cases, inl, inr, zero, suc,
}
use prism_dev.Common.Bits.{IsByte, u8, u16, shl, shr}
use prism_dev.Common.Partial.{slice}
use prism_dev.Packet.{RawPacket, IsPacket}
use prism_dev.Capture.{
  LinkType, l2_size, Ntop, address_at, port_at, fill_tcp, fill_other, fill_ip, decode_frame,
}

-- A step that does not fault, and whose result meets `P`.
abbrev pub Returns {ℓ} : {A : Type ℓ} → (A → Type 0) → Option A → Type 0
Returns P none = ⊥
Returns P (some a) = P a

All-take : (P : ℕ → Type 0) (n : ℕ) (xs : List ℕ) → All P xs → All P (take n xs)
All-take P zero xs h = tt
All-take P (suc n) [] h = tt
All-take P (suc n) (x ∷ xs) h = (h.0, All-take P n xs h.1)

All-drop : (P : ℕ → Type 0) (n : ℕ) (xs : List ℕ) → All P xs → All P (drop n xs)
All-drop P zero xs h = h
All-drop P (suc n) [] h = tt
All-drop P (suc n) (x ∷ xs) h = All-drop P n xs h.1

module _ (bytes : List ℕ) where
  port_at_lem :
      (i : ℕ)
      → i + 1 < length bytes
      → port_at bytes i ≡ some (u16 (bit_or (shl (get_or bytes i 0) 8) (get_or bytes (i + 1) 0)))
  unfolding port_at
  port_at_lem i h =
      rw (get_or-get_elem? bytes i 0 (omega arith), get_or-get_elem? bytes (i + 1) 0 h)

  address_at_lem :
      (ntop : Ntop) (i : ℕ)
      → i + 3 < length bytes
      → address_at ntop bytes i
        ≡ some (
            ntop
              (get_or bytes i 0)
              (get_or bytes (i + 1) 0)
              (get_or bytes (i + 2) 0)
              (get_or bytes (i + 3) 0))
  unfolding address_at
  address_at_lem ntop i h = rw (
    get_or-get_elem? bytes i 0 (omega arith),
    get_or-get_elem? bytes (i + 1) 0 (omega arith),
    get_or-get_elem? bytes (i + 2) 0 (omega arith),
    get_or-get_elem? bytes (i + 3) 0 h,
  )

  slice_lem :
      (a b : ℕ) → a ≤ b → b ≤ length bytes → slice bytes a b ≡ some (take (b - a) (drop a bytes))
  slice_lem a b h k = ground arith

  module _ (whole : All IsByte bytes) (len : ℕ) (fits : len ≤ length bytes) where
    -- A filled packet has fields within their types, the time of the call, and for its payload the
    -- bytes of the packet from an offset not below `from` up to the packet's end; a refused one
    -- keeps the payload that was there.
    abbrev pub Outcome : ℕ → ℕ → RawPacket → Bool × RawPacket → Type 0
    Outcome now from packet (done, p) =
        (done ≡ true
          → IsPacket p
            × (p.timestamp ≡ now)
            × ((a : ℕ) × (from ≤ a) × (a ≤ len) × (p.payload ≡ take (len - a) (drop a bytes))))
        × (done ≡ false → p.payload ≡ packet.payload)

    fill_tcp_safe :
        (from l4 : ℕ) (packet : RawPacket)
        → from ≤ l4
        → l4 + 20 ≤ len
        → Returns (Outcome packet.timestamp from packet) (fill_tcp len bytes l4 packet)
    unfolding fill_tcp
    fill_tcp_safe from l4 packet behind room =
        rw (get_or-get_elem? bytes (l4 + 12) 0 (omega arith))
          (elim (Bool-cases (ltb hl 20 || ltb len (l4 + hl))) [
            | inl bad ↦ rw bad ((λ e. cc), λ e. refl)
            | inr good ↦
                let first : 20 ≤ hl = ground arith in
                let last : l4 + hl ≤ len = ground arith in
                rw
                  (
                    good,
                    port_at_lem l4 (omega arith),
                    port_at_lem (l4 + 2) (omega arith),
                    slice_lem (l4 + hl) len last fits,
                  )
                  (
                    (λ e. (
                      record {
                        bytes =
                            All-take IsByte (len - (l4 + hl)) (drop (l4 + hl) bytes)
                              (All-drop IsByte (l4 + hl) bytes whole);
                        src_word = omega arith;
                        dst_word = omega arith;
                      },
                      refl,
                      (l4 + hl, omega arith, last, refl),
                    )),
                    λ e. cc,
                  )
          ])
      where
        hl : ℕ
        hl = u8 (shr (bit_and (get_or bytes (l4 + 12) 0) 0xf0) 4 * 4)

    fill_other_safe :
        (from l4 : ℕ) (packet : RawPacket)
        → from ≤ l4
        → l4 ≤ len
        → packet.src_port ≡ 0
        → packet.dst_port ≡ 0
        → Returns (Outcome packet.timestamp from packet) (fill_other len bytes l4 packet)
    unfolding fill_other
    fill_other_safe from l4 packet behind room s t = rw (slice_lem l4 len room fits) (
      (λ e. (
        record {
          bytes = All-take IsByte (len - l4) (drop l4 bytes) (All-drop IsByte l4 bytes whole);
          src_word = omega arith;
          dst_word = omega arith;
        },
        refl,
        (l4, behind, room, refl),
      )),
      λ e. cc,
    )

    fill_ip_safe :
        (ntop : Ntop) (now l2 ihl : ℕ) (packet : RawPacket)
        → 20 ≤ ihl
        → l2 + ihl ≤ len
        → Returns (Outcome now (l2 + 20) packet) (fill_ip ntop now len bytes l2 ihl packet)
    unfolding fill_ip
    fill_ip_safe ntop now l2 ihl packet long room =
        rw
          (
            address_at_lem ntop (l2 + 12) (omega arith),
            address_at_lem ntop (l2 + 16) (omega arith),
            get_or-get_elem? bytes (l2 + 9) 0 (omega arith),
          )
          (elim (Bool-cases (get_or bytes (l2 + 9) 0 == 6 && leb (l2 + ihl + 20) len)) [
            | inl tcp ↦
                rw tcp (fill_tcp_safe (l2 + 20) (l2 + ihl) filled (omega arith) (ground arith))
            | inr other ↦
                rw other (fill_other_safe (l2 + 20) (l2 + ihl) filled (omega arith) room refl refl)
          ])
      where
        at : ℕ → ℕ
        at i = get_or bytes i 0

        filled : RawPacket
        filled = record {
          timestamp = now;
          payload = packet.payload;
          src_ip = ntop (at (l2 + 12)) (at (l2 + 12 + 1)) (at (l2 + 12 + 2)) (at (l2 + 12 + 3));
          dst_ip = ntop (at (l2 + 16)) (at (l2 + 16 + 1)) (at (l2 + 16 + 2)) (at (l2 + 16 + 3));
          src_port = 0;
          dst_port = 0;
        }

    -- Where all bytes of the packet were captured, the decoder never reads outside them, whatever
    -- the link type and the bytes are. What it fills has ports and payload bytes within their types,
    -- the time of the call, and for its payload the packet's bytes from behind the IP header's first
    -- twenty bytes or later up to its end; a refused packet keeps the payload that was there.
    pub decode_frame_safe :
        (ntop : Ntop) (link : LinkType) (now : ℕ) (packet : RawPacket)
        → Returns
            (Outcome now (l2_size link + 20) packet)
            (decode_frame ntop link now len bytes packet)
    unfolding decode_frame
    decode_frame_safe ntop link now packet = elim (Bool-cases (ltb len (l2_size link + 20))) [
      | inl short ↦ rw short ((λ e. cc), λ e. refl)
      | inr room ↦
          let l2 = l2_size link in
          let long : l2 + 20 ≤ len = ground arith in
          rw (room, get_or-get_elem? bytes l2 0 (omega arith))
            (elim (Bool-cases (not (shr (get_or bytes l2 0) 4 == 4))) [
              | inl version ↦ rw version ((λ e. cc), λ e. refl)
              | inr four ↦
                  rw four (elim (Bool-cases (ltb (ihl link) 20 || ltb len (l2 + ihl link))) [
                    | inl bad ↦ rw bad ((λ e. cc), λ e. refl)
                    | inr good ↦
                        rw good
                          (fill_ip_safe ntop now l2 (ihl link) packet (ground arith) (ground arith))
                  ])
            ])
    ]
      where
        ihl : LinkType → ℕ
        ihl k = u8 (bit_and (get_or bytes (l2_size k) 0) 0x0f * 4)

-- Where fewer bytes were captured than the packet has, but the twenty bytes of its IP header were,
-- and the header's own length is at least twenty and less than what the packet has behind the link
-- header, an IPv4 packet of another protocol than TCP makes the code read beyond the captured bytes.
pub decode_frame_overreads :
    (bytes : List ℕ) (len : ℕ) (ntop : Ntop) (link : LinkType) (now : ℕ) (packet : RawPacket)
    → let l2 = l2_size link in
      let first = get_or bytes l2 0 in
      let ihl = u8 (bit_and first 0x0f * 4) in
      length bytes < len
      → l2 + 20 ≤ length bytes
      → shr first 4 ≡ 4
      → 20 ≤ ihl
      → l2 + ihl < len
      → get_or bytes (l2 + 9) 0 ≢ 6
      → decode_frame ntop link now len bytes packet ≡ none
unfolding decode_frame fill_ip fill_other
decode_frame_overreads bytes len ntop link now packet cut header four long room other = ground (
  arith,
  get_or-get_elem? bytes (l2_size link) 0,
  get_or-get_elem? bytes (l2_size link + 9) 0,
  address_at_lem bytes ntop (l2_size link + 12),
  address_at_lem bytes ntop (l2_size link + 16),
)
