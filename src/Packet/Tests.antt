-- ===== src/Packet/Tests.antt =====
-- The packet theorems at concrete packets and a small pool.
use zelda_os.Prelude.{◌≡◌, refl, inl, [], ◌∷◌, arith, leb, ◌==◌, if◌then◌else◌, Ends}
use zelda_os.Status.{ok}
use zelda_os.Packet.{Packet, packet_extend_left, packet_pool_init}
use zelda_os.Packet.Room.{HasRoom, Extended, packet_extend_left-Spans, packet_extend_left-wrap}
use zelda_os.Packet.Fill.{pool_from, Filled, packet_pool_init-Filled}
use zelda_os.Links.{Memory}
use zelda_os.Links.Shape.{IsList}

-- 100 bytes of payload behind a full headroom
abbrev frame : Packet
frame = record { packet_paddr = 0x5000; payload_offset = 156; payload_length = 100 }

frame-HasRoom : HasRoom frame
frame-HasRoom = omega arith

packet_extend_left-Spans_example : Extended frame (packet_extend_left frame 14) (leb 42 156) 142 256
packet_extend_left-Spans_example = packet_extend_left-Spans frame 14 frame-HasRoom (omega arith)

packet_extend_left-wrap_example :
    ((packet_extend_left frame 157).0 ≡ ok) × (HasRoom (packet_extend_left frame 157).1 → ⊥)
packet_extend_left-wrap_example =
    packet_extend_left-wrap frame 157 frame-HasRoom (omega arith) (omega arith)

-- a pool at 8 that holds the packets at 4096 and 6144
abbrev memory : Memory
memory a =
    if a == 8
    then record { prev = 6144; next = 4096 }
    else if a == 4096
    then record { prev = 0; next = 6144 }
    else if a == 6144
    then record { prev = 4096; next = 0 }
    else record { prev = 0; next = 0 }

two : IsList memory 8 (4096 ∷ 6144 ∷ [])
two = record {
  apart = (refl, (refl, (refl, tt)));
  nonnull = refl;
  first = refl;
  last = refl;
  links = (refl, refl, (refl, refl, tt));
}

packet_pool_init-Filled_example :
    Ends
      (packet_pool_init (λ p. p) 0x400000 8 memory (λ _. frame))
      (Filled 8 (pool_from 8192 0x400000))
packet_pool_init-Filled_example =
    packet_pool_init-Filled (λ p. p) 0x400000 8 memory (λ _. frame) (omega arith) (omega arith)
      (omega arith) (inl (omega arith))
