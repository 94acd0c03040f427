-- ===== src/ByteRing/Tests.antt =====
-- The ring theorems at concrete rings, and short runs.
use zelda_os.Prelude.{◌≡◌, refl, [], ◌∷◌, arith}
use zelda_os.ByteRing.{Ring, ring_empty, write_ring, read_ring}
use zelda_os.ByteRing.Valid.{IsValid}
use zelda_os.ByteRing.Stream.{Wrote, Read, write_ring-Wrote, read_ring-Read, read_ring-write_ring}

-- four slots, three bytes at most; 8 then 9 round the end of the buffer
abbrev wrapped : Ring
wrapped = record { ring_size = 4; front = 3; rear = 1; buffer = 9 ∷ 6 ∷ 7 ∷ 8 ∷ [] }

abbrev idle : Ring
idle = record wrapped { front = 2; rear = 2 }

wrapped-IsValid : IsValid wrapped
wrapped-IsValid = omega arith

idle-IsValid : IsValid idle
idle-IsValid = omega arith

write_stops : (write_ring wrapped (1 ∷ 2 ∷ [])).0 ≡ 1
unfolding write_ring
write_stops = refl

read_wraps : (read_ring wrapped 5).0 ≡ 8 ∷ 9 ∷ []
unfolding read_ring
read_wraps = refl

write_ring-Wrote_example :
    Wrote wrapped
      (1 ∷ 2 ∷ [])
      (write_ring wrapped (1 ∷ 2 ∷ [])).0
      (write_ring wrapped (1 ∷ 2 ∷ [])).1
write_ring-Wrote_example = write_ring-Wrote wrapped (1 ∷ 2 ∷ []) wrapped-IsValid

read_ring-Read_example : Read wrapped 5 (read_ring wrapped 5).0 (read_ring wrapped 5).1
read_ring-Read_example = read_ring-Read wrapped 5 wrapped-IsValid

read_ring-write_ring_example :
    ((write_ring idle (1 ∷ 2 ∷ [])).0 ≡ 2)
    × ((read_ring (write_ring idle (1 ∷ 2 ∷ [])).1 2).0 ≡ 1 ∷ 2 ∷ [])
unfolding ring_empty
read_ring-write_ring_example =
    read_ring-write_ring idle (1 ∷ 2 ∷ []) idle-IsValid refl (omega arith)
