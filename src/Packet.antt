-- ===== src/Packet.antt =====
-- network/net_packet.c: packets of 2048 bytes whose payload moves within them, and the pool of free
-- packets, a list of lib/list.c. A packet starts with its list node, so both have one address.
-- An `int32_t` argument is its bit pattern, and the arithmetic is that of `uint32_t`.
pub mod Room
pub mod Pool
pub mod Fill
mod Tests
use zelda_os.Prelude.{
  ℕ, zero, suc, ◌+◌, ◌-◌, ◌*◌, ◌%◌, ◌^◌, not, Option, none, some, ltb, ◌==◌, if◌then◌else◌, Outcome,
  done, ◌>>=◌, ◌>>◌, ensure,
}
use zelda_os.Status.{Status, ok, err_invalid_arg}
use zelda_os.Links.{
  Ptr, null, Memory, list_init, list_empty, list_append, list_fetch, element_in_list,
}
use mathlib.Core.Option

-- The fields that the operations touch; the node of the list is in the memory of Links.
pub record Packet : Type 0 where
  pub packet_paddr : ℕ
  pub payload_offset : ℕ
  pub payload_length : ℕ

abbrev pub net_packet_total_size : ℕ
net_packet_total_size = 2048

-- sizeof(struct packet)
abbrev pub packet_header_size : ℕ
packet_header_size = 28

abbrev pub initial_header_room_size : ℕ
initial_header_room_size = packet_header_size + 0x80

abbrev pub minimal_header_room_size : ℕ
minimal_header_room_size = packet_header_size

-- The address is what `virt2phy` reads from the page tables.
unfoldable pub packet_reset : ℕ → Packet → Packet
packet_reset paddr pkt = record {
  packet_paddr = paddr;
  payload_offset = initial_header_room_size;
  payload_length = 0;
}

unfoldable pub packet_extend_left : Packet → ℕ → Status × Packet
packet_extend_left pkt nr_room =
    let target = (pkt.payload_offset + 2 ^ 32 - nr_room) % 2 ^ 32 in
    if ltb target minimal_header_room_size then (err_invalid_arg, pkt) else (
      ok,
      record pkt {
        payload_offset = target;
        payload_length = (pkt.payload_length + nr_room) % 2 ^ 32;
      },
    )

unfoldable pub packet_extend_right : Packet → ℕ → Status × Packet
packet_extend_right pkt nr_room =
    let target_length = (pkt.payload_length + nr_room) % 2 ^ 32 in
    let boundary = (pkt.payload_offset + target_length) % 2 ^ 32 in
    if ltb net_packet_total_size boundary
    then (err_invalid_arg, pkt)
    else (ok, record pkt { payload_length = target_length })

unfoldable pub packet_shrink_left : Packet → ℕ → Status × Packet
packet_shrink_left pkt nr_room =
    if ltb pkt.payload_length nr_room then (err_invalid_arg, pkt) else (
      ok,
      record pkt {
        payload_offset = (pkt.payload_offset + nr_room) % 2 ^ 32;
        payload_length = (pkt.payload_length + 2 ^ 32 - nr_room) % 2 ^ 32;
      },
    )

unfoldable pub packet_shrink_right : Packet → ℕ → Status × Packet
packet_shrink_right pkt nr_room =
    if ltb pkt.payload_length nr_room
    then (err_invalid_arg, pkt)
    else (ok, record pkt { payload_length = (pkt.payload_length + 2 ^ 32 - nr_room) % 2 ^ 32 })

abbrev pub Packets : Type 0
Packets = Ptr → Packet

-- the packet at `p` after `packet_reset`
abbrev pub reset_at : (Ptr → ℕ) → Packets → Ptr → Packets
unfolding packet_reset
reset_at virt2phy pkts p a = if a == p then packet_reset (virt2phy p) (pkts p) else pkts a

-- `virt2phy` translates an address by the page tables; null is returned if the pool is empty.
pub get_packet : (Ptr → ℕ) → Memory → Ptr → Packets → Outcome (Ptr × Memory × Packets)
unfolding list_empty
get_packet virt2phy m head pkts = if list_empty m head then done (null, m, pkts) else (do
  (p, n) ← list_fetch m head
  ensure (not (p == null))
  done (p, n, reset_at virt2phy pkts p))

pub put_packet : ℕ → Memory → Ptr → Ptr → Option (Outcome Memory)
put_packet fuel m head pkt = elim (element_in_list fuel m head pkt) [
  | none ↦ none
  | some found ↦ some (if found then done m else list_append m head pkt)
]

-- `left` rounds of the loop of `packet_pool_init`, from the packet at `p` on
pub fill_pool : (Ptr → ℕ) → (left : ℕ) → Ptr → Ptr → Memory → Packets → Outcome (Memory × Packets)
unfolding list_init
fill_pool virt2phy zero p head m pkts = done (m, pkts)
fill_pool virt2phy (suc left) p head m pkts = do
  n ← list_append (list_init m p) head p
  fill_pool virt2phy left ((p + net_packet_total_size) % 2 ^ 32) head n (reset_at virt2phy pkts p)

-- `base` is what `malloc_align_mapped` returns.
pub packet_pool_init : (Ptr → ℕ) → (base : ℕ) → Ptr → Memory → Packets → Outcome (Memory × Packets)
unfolding fill_pool list_init
packet_pool_init virt2phy base head m pkts = do
  ensure (not (base == 0))
  fill_pool virt2phy (1024 * 8) base head (list_init m head) pkts
