-- ===== src/Capture.antt =====
-- PRISM/src/capture/pcap.cpp. What libpcap returns is an input; a read outside the bytes that were
-- captured is the fault `none`.
use prism_dev.Common.{
  ℕ, ◌+◌, ◌*◌, String, Bool, true, false, not, ◌&&◌, ◌||◌, List, Option, none, some, get_elem?,
  bit_and, bit_or, ltb, leb, ◌==◌, if◌then◌else◌,
}
use prism_dev.Common.Bits.{u8, u16, shl, shr}
use prism_dev.Common.Partial.{◌>>=◌, slice}
use prism_dev.Packet.{RawPacket}
pub mod Reads
pub mod Handle

-- The values of `pcap_datalink` that the code tells apart.
pub data LinkType : Type 0 where
  dlt_null dlt_en10mb other_link : LinkType

unfoldable pub l2_size : LinkType → ℕ
l2_size dlt_null = 4
l2_size dlt_en10mb = 14
l2_size other_link = 0

-- `inet_ntop` on the four bytes of an address.
abbrev pub Ntop : Type 0
Ntop = ℕ → ℕ → ℕ → ℕ → String

-- The address of four bytes from `i` on.
unfoldable pub address_at : Ntop → List ℕ → ℕ → Option String
address_at ntop bytes i = do
  a ← get_elem? bytes i
  b ← get_elem? bytes (i + 1)
  c ← get_elem? bytes (i + 2)
  e ← get_elem? bytes (i + 3)
  some (ntop a b c e)

-- Two bytes, high first.
unfoldable pub port_at : List ℕ → ℕ → Option ℕ
port_at bytes i = do
  hi ← get_elem? bytes i
  lo ← get_elem? bytes (i + 1)
  some (u16 (bit_or (shl hi 8) lo))

-- The branch for TCP, with the layer 4 header at `l4`. The result says whether a packet was filled.
unfoldable pub fill_tcp : ℕ → List ℕ → ℕ → RawPacket → Option (Bool × RawPacket)
fill_tcp len bytes l4 packet = do
  offset ← get_elem? bytes (l4 + 12)
  let tcp_hl = u8 (shr (bit_and offset 0xf0) 4 * 4)
  if ltb tcp_hl 20 || ltb len (l4 + tcp_hl) then some (false, packet) else (do
    src ← port_at bytes l4
    dst ← port_at bytes (l4 + 2)
    body ← slice bytes (l4 + tcp_hl) len
    some (true, record packet { src_port = src; dst_port = dst; payload = body }))

-- The branch for all else.
unfoldable pub fill_other : ℕ → List ℕ → ℕ → RawPacket → Option (Bool × RawPacket)
fill_other len bytes l4 packet = do
  body ← slice bytes l4 len
  some (true, record packet { payload = body })

-- From the tests of the IP header length on; the IP header is at `l2` and `ihl` bytes long.
unfoldable pub fill_ip : Ntop → ℕ → ℕ → List ℕ → ℕ → ℕ → RawPacket → Option (Bool × RawPacket)
fill_ip ntop now len bytes l2 ihl packet = do
  src ← address_at ntop bytes (l2 + 12)
  dst ← address_at ntop bytes (l2 + 16)
  proto ← get_elem? bytes (l2 + 9)
  let filled = record packet {
    timestamp = now;
    src_ip = src;
    dst_ip = dst;
    src_port = 0;
    dst_port = 0;
  }
  if proto == 6 && leb (l2 + ihl + 20) len
      then fill_tcp len bytes (l2 + ihl) filled
      else fill_other len bytes (l2 + ihl) filled

-- The part of `nextPacket` behind a successful `pcap_next_ex`: `len` is the header's field of that
-- name, the length on the wire, and `bytes` are the bytes captured.
unfoldable pub decode_frame :
    Ntop → LinkType → ℕ → ℕ → List ℕ → RawPacket → Option (Bool × RawPacket)
decode_frame ntop link now len bytes packet =
    if ltb len (l2 + 20) then some (false, packet) else (do
      first ← get_elem? bytes l2
      let ihl = u8 (bit_and first 0x0f * 4)
      if not (shr first 4 == 4)
          then some (false, packet)
          else if ltb ihl 20 || ltb len (l2 + ihl)
          then some (false, packet)
          else fill_ip ntop now len bytes l2 ihl packet)
  where
    l2 : ℕ
    l2 = l2_size link

-- The object: whether it holds an open handle, the flag `active_`, and the link type.
pub record PcapCapture : Type 0 where
  pub handle : Bool
  pub active : Bool
  pub linktype : LinkType

-- The constructor throws, `none`, where `pcap_open_live` fails.
unfoldable pub open_capture : Option LinkType → Option PcapCapture
open_capture none = none
open_capture (some link) = some (record { handle = true; active = true; linktype = link })

-- The destructor, with whether `pcap_close` is called.
unfoldable pub close_capture : PcapCapture → PcapCapture × Bool
close_capture c = (record c { handle = false; active = false }, c.handle)

-- `stop`, with whether `pcap_breakloop` is called.
unfoldable pub stop : PcapCapture → PcapCapture × Bool
stop c =
    if not c.handle || not c.active then (c, false) else (record c { active = false }, c.handle)

-- What `pcap_next_ex` gives: a timeout, any other result that is refused, or a packet.
pub data Fetch : Type 0 where
  timeout refused : Fetch
  fetched : ℕ → List ℕ → Fetch

-- `nextPacket`: whether `pcap_next_ex` is called, and the outcome, where `none` is a fault.
unfoldable pub next_packet :
    Ntop → ℕ → Fetch → PcapCapture → RawPacket → Bool × Option (Bool × RawPacket)
next_packet ntop now fetch c packet =
    if not c.handle || not c.active then (false, some (false, packet)) else (
      true,
      elim fetch [
        | timeout ↦ some (false, packet)
        | refused ↦ some (false, packet)
        | fetched len bytes ↦ decode_frame ntop c.linktype now len bytes packet
      ],
    )

-- `getSelectableFd`, where `fd` is what `pcap_get_selectable_fd` returns; `none` is -1.
unfoldable pub get_selectable_fd : Option ℕ → PcapCapture → Option ℕ
get_selectable_fd fd c = if c.handle then fd else none
