-- ===== src/Packet/Room.antt =====
-- Where the payload of a packet lies, and how the operations move its two ends.
use zelda_os.Prelude.{
  ℕ, ◌+◌, ◌-◌, ◌%◌, ◌^◌, ◌≤◌, ◌<◌, ◌≡◌, refl, inl, inr, Bool, true, false, arith, ltb, leb,
  Bool-cases,
}
use zelda_os.Status.{Status, ok, err_invalid_arg}
use zelda_os.Packet.{
  Packet, net_packet_total_size, minimal_header_room_size, packet_reset, packet_extend_left,
  packet_extend_right, packet_shrink_left, packet_shrink_right,
}

-- behind the header and inside the packet
abbrev pub HasRoom : Packet → Type 0
HasRoom pkt =
    (minimal_header_room_size ≤ pkt.payload_offset)
    × (pkt.payload_offset + pkt.payload_length ≤ net_packet_total_size)

abbrev pub boundary : Packet → ℕ
boundary pkt = pkt.payload_offset + pkt.payload_length

-- the payload lies in `start` .. `stop` of the packet, where it may lie
abbrev pub Spans : Packet → (start stop : ℕ) → Type 0
Spans pkt start stop = (pkt.payload_offset ≡ start) × (boundary pkt ≡ stop) × HasRoom pkt

abbrev pub Extended : Packet → Status × Packet → Bool → (start stop : ℕ) → Type 0
Extended pkt (r, pkt') true start stop = (r ≡ ok) × Spans pkt' start stop
Extended pkt (r, pkt') false start stop = (r ≡ err_invalid_arg) × (pkt' ≡ pkt)

-- A reset packet has room.
pub packet_reset-HasRoom : (paddr : ℕ) (pkt : Packet) → HasRoom (packet_reset paddr pkt)
unfolding packet_reset
packet_reset-HasRoom paddr pkt = omega arith

-- `packet_extend_right` moves the end of the payload of a packet that has room by a number of bytes
-- that is not negative, exactly if it stays in the packet, and else refuses and changes nothing.
pub packet_extend_right-Spans :
    (pkt : Packet) (n : ℕ)
    → HasRoom pkt
    → n < 2 ^ 31
    → Extended pkt
        (packet_extend_right pkt n)
        (leb (boundary pkt + n) net_packet_total_size)
        pkt.payload_offset
        (boundary pkt + n)
unfolding packet_extend_right
packet_extend_right-Spans pkt n room small =
    let length_fits : (pkt.payload_length + n) % 2 ^ 32 ≡ pkt.payload_length + n = ground arith in
    let end_fits : (pkt.payload_offset + (pkt.payload_length + n)) % 2 ^ 32 ≡ boundary pkt + n =
      ground arith in
    elim (Bool-cases (leb (boundary pkt + n) 2048)) [
      | inl fits ↦
          let within : ltb 2048 (boundary pkt + n) ≡ false = ground arith in
          simp (fits, length_fits, end_fits, within)
            (refl, (refl, omega arith, (omega arith, ground arith)))
      | inr over ↦
          let beyond : ltb 2048 (boundary pkt + n) ≡ true = ground arith in
          simp (over, length_fits, end_fits, beyond) (refl, refl)
    ]

-- `packet_extend_left` moves the start of the payload of a packet that has room to the left, by no
-- more than the offset of the payload, exactly if it stays behind the header, and else refuses and
-- changes nothing.
pub packet_extend_left-Spans :
    (pkt : Packet) (n : ℕ)
    → HasRoom pkt
    → n ≤ pkt.payload_offset
    → Extended pkt
        (packet_extend_left pkt n)
        (leb (minimal_header_room_size + n) pkt.payload_offset)
        (pkt.payload_offset - n)
        (boundary pkt)
unfolding packet_extend_left
packet_extend_left-Spans pkt n room inside =
    let start : (pkt.payload_offset + 2 ^ 32 - n) % 2 ^ 32 ≡ pkt.payload_offset - n =
      ground arith in
    let length_fits : (pkt.payload_length + n) % 2 ^ 32 ≡ pkt.payload_length + n = ground arith in
    elim (Bool-cases (leb (28 + n) pkt.payload_offset)) [
      | inl fits ↦
          let within : ltb (pkt.payload_offset - n) 28 ≡ false = ground arith in
          simp (fits, start, length_fits, within)
            (refl, (refl, ground arith, (ground arith, ground arith)))
      | inr over ↦
          let beyond : ltb (pkt.payload_offset - n) 28 ≡ true = ground arith in
          simp (over, start, length_fits, beyond) (refl, refl)
    ]

-- `packet_extend_left` by more than the offset of the payload passes its guard, because the
-- difference wraps, and leaves a packet whose payload is not in the packet.
pub packet_extend_left-wrap :
    (pkt : Packet) (n : ℕ)
    → HasRoom pkt
    → pkt.payload_offset < n
    → n < 2 ^ 31
    → ((packet_extend_left pkt n).0 ≡ ok) × (HasRoom (packet_extend_left pkt n).1 → ⊥)
unfolding packet_extend_left
packet_extend_left-wrap pkt n room outside small =
    let start : (pkt.payload_offset + 2 ^ 32 - n) % 2 ^ 32 ≡ pkt.payload_offset + 2 ^ 32 - n =
      ground arith in
    let passes : ltb (pkt.payload_offset + 2 ^ 32 - n) 28 ≡ false = ground arith in
    simp (start, passes) (refl, λ after. omega (arith, after.1))

-- `packet_shrink_left` moves the start of the payload of a packet that has room to the right,
-- exactly if the payload has that many bytes, and else refuses and changes nothing.
pub packet_shrink_left-Spans :
    (pkt : Packet) (n : ℕ)
    → HasRoom pkt
    → Extended pkt
        (packet_shrink_left pkt n)
        (leb n pkt.payload_length)
        (pkt.payload_offset + n)
        (boundary pkt)
unfolding packet_shrink_left
packet_shrink_left-Spans pkt n room = elim (Bool-cases (leb n pkt.payload_length)) [
  | inl fits ↦
      let start : (pkt.payload_offset + n) % 2 ^ 32 ≡ pkt.payload_offset + n = ground arith in
      let left : (pkt.payload_length + 2 ^ 32 - n) % 2 ^ 32 ≡ pkt.payload_length - n =
        ground arith in
      let within : ltb pkt.payload_length n ≡ false = ground arith in
      simp (fits, start, left, within) (refl, (refl, ground arith, (ground arith, ground arith)))
  | inr over ↦
      let beyond : ltb pkt.payload_length n ≡ true = ground arith in
      simp (over, beyond) (refl, refl)
]

-- `packet_shrink_right` moves the end of the payload of a packet that has room to the left, exactly
-- if the payload has that many bytes, and else refuses and changes nothing.
pub packet_shrink_right-Spans :
    (pkt : Packet) (n : ℕ)
    → HasRoom pkt
    → Extended pkt
        (packet_shrink_right pkt n)
        (leb n pkt.payload_length)
        pkt.payload_offset
        (boundary pkt - n)
unfolding packet_shrink_right
packet_shrink_right-Spans pkt n room = elim (Bool-cases (leb n pkt.payload_length)) [
  | inl fits ↦
      let left : (pkt.payload_length + 2 ^ 32 - n) % 2 ^ 32 ≡ pkt.payload_length - n =
        ground arith in
      let within : ltb pkt.payload_length n ≡ false = ground arith in
      simp (fits, left, within) (refl, (refl, ground arith, (ground arith, ground arith)))
  | inr over ↦
      let beyond : ltb pkt.payload_length n ≡ true = ground arith in
      simp (over, beyond) (refl, refl)
]
