-- ===== src/Packet/Fill.antt =====
-- `packet_pool_init`: the pool holds all packets of the memory that it is given, in order.
use zelda_os.Prelude.{
  ℕ, zero, suc, ◌+◌, ◌*◌, ◌%◌, ◌^◌, ◌≤◌, ◌<◌, ◌≡◌, sym, ◌≢◌, ◌⊎◌, inl, inr, true, false, not, List,
  [], ◌∷◌, ◌++◌, append-nil, append_assoc, arith, ◌==◌, Bool-cases, ◌>>◌, ensure, Ends, Ends-bind,
}
use zelda_os.Packet.{
  net_packet_total_size, packet_reset, Packets, reset_at, fill_pool, packet_pool_init,
}
use zelda_os.Packet.Room.{HasRoom}
use zelda_os.Links.{Ptr, null, Memory, set_prev, set_next, list_init, list_append}
use zelda_os.Links.Chain.{has, has-append}
use zelda_os.Links.Shape.{IsList, IsNew, SameOff, list_init-IsList, IsList-frame, Inserted}
use zelda_os.Links.Append.{list_append-IsList}

-- the addresses of `left` packets from `p` on
abbrev pub pool_from : ℕ → Ptr → List Ptr
pool_from zero p = []
pool_from (suc left) p = p ∷ pool_from left (p + net_packet_total_size)

abbrev pub Filled : Ptr → List Ptr → Memory × Packets → Type 0
Filled head xs (n, pkts) = IsList n head xs × ((a : Ptr) → has a xs ≡ true → HasRoom (pkts a))

-- `list_init` writes to its node only.
init_frame : (m : Memory) (p : Ptr) → SameOff (p ∷ []) m (list_init m p)
unfolding list_init set_prev set_next
init_frame m p a o = let ne : (a == p) ≡ false = ground arith in rw ne

fresh-IsNew :
    (m : Memory) (head p : Ptr) (xs : List Ptr)
    → p ≢ null
    → has p (head ∷ xs) ≡ false
    → IsNew (list_init m p) head p xs
fresh-IsNew m head p xs some_p out =
    let alone = list_init-IsList m p some_p in
    record {
      detached = record { no_prev = alone.last; no_next = alone.first };
      outside = out;
      nonnull = some_p;
    }

below_out : (p : Ptr) (xs : List Ptr) → ((a : Ptr) → has a xs ≡ true → a < p) → has p xs ≡ false
below_out p xs below = elim (Bool-cases (has p xs)) [
  | inr o ↦ o
  | inl i ↦ absurd (omega (arith, below p i))
]

reset_room :
    (virt2phy : Ptr → ℕ) (pkts : Packets) (p : Ptr) (xs : List Ptr)
    → ((a : Ptr) → has a xs ≡ true → HasRoom (pkts a))
    → (a : Ptr) → has a (xs ++ p ∷ []) ≡ true
    → HasRoom (reset_at virt2phy pkts p a)
unfolding packet_reset
reset_room virt2phy pkts p xs room a i = elim (Bool-cases (a == p)) [
  | inl e ↦ rw e (omega arith)
  | inr ne ↦ let at = has-append a xs (p ∷ []) in rw ne (room a (ground arith))
]

-- What one round of the loop needs of the packets that are left.
abbrev Fits : (left : ℕ) → Ptr → Ptr → List Ptr → Type 0
Fits left p head xs =
    (0 < p)
    × (p + left * net_packet_total_size < 2 ^ 32)
    × ((a : Ptr) → has a xs ≡ true → a < p)
    × ((head < p) ⊎ (p + left * net_packet_total_size ≤ head))

Fits-next :
    (left : ℕ) (p head : Ptr) (xs : List Ptr)
    → Fits (suc left) p head xs
    → Fits left (p + net_packet_total_size) head (xs ++ p ∷ [])
Fits-next left p head xs (pos, bound, below, apart) =
    (omega arith, omega arith, lower, ground arith)
  where
    lower : (a : Ptr) → has a (xs ++ p ∷ []) ≡ true → a < p + net_packet_total_size
    lower a i = elim (Bool-cases (has a xs)) [
      | inl old ↦ omega (arith, below a old)
      | inr new ↦ let at = has-append a xs (p ∷ []) in ground arith
    ]

fill_pool-Filled :
    (virt2phy : Ptr → ℕ) (left : ℕ) (p head : Ptr) (m : Memory) (pkts : Packets) (xs : List Ptr)
    → Filled head xs (m, pkts)
    → Fits left p head xs
    → Ends (fill_pool virt2phy left p head m pkts) (Filled head (xs ++ pool_from left p))
unfolding fill_pool
fill_pool-Filled virt2phy zero p head m pkts xs filled fits = rw (append-nil xs) filled
fill_pool-Filled virt2phy (suc left) p head m pkts xs (l, room) (pos, bound, below, apart) =
    Ends-bind (list_append (list_init m p) head p) _
      (Inserted (list_init m p) head p xs (xs ++ p ∷ [])) _
      (list_append-IsList (list_init m p) head p xs
        (IsList-frame m (list_init m p) head xs (p ∷ []) (init_frame m p)
          (λ a i. let out = out in ground arith) l)
        (fresh-IsNew m head p xs (omega arith) out))
      (λ n inserted.
        let stay : (p + net_packet_total_size) % 2 ^ 32 ≡ p + net_packet_total_size = omega arith in
        rw (stay, sym (append_assoc xs (p ∷ []) (pool_from left (p + net_packet_total_size))))
          (fill_pool-Filled virt2phy left (p + net_packet_total_size) head n
            (reset_at virt2phy pkts p) (xs ++ p ∷ [])
            (inserted.0, reset_room virt2phy pkts p xs room)
            (Fits-next left p head xs (pos, bound, below, apart))))
  where
    out : has p (head ∷ xs) ≡ false
    out = let o = below_out p xs below in ground arith

-- From memory for 8192 packets that does not overlap the head and does not reach the end of the
-- address space, `packet_pool_init` makes a pool of all of them, in order, each with room.
pub packet_pool_init-Filled :
    (virt2phy : Ptr → ℕ) (base : ℕ) (head : Ptr) (m : Memory) (pkts : Packets)
    → 0 < base
    → base + 8192 * net_packet_total_size < 2 ^ 32
    → head ≢ null
    → (head < base) ⊎ (base + 8192 * net_packet_total_size ≤ head)
    → Ends (packet_pool_init virt2phy base head m pkts) (Filled head (pool_from 8192 base))
unfolding packet_pool_init
packet_pool_init-Filled virt2phy base head m pkts pos bound some_head apart = init 8192 (
    fill_pool-Filled virt2phy 8192 base head (list_init m head) pkts []
      (list_init-IsList m head some_head, λ a i. absurd (ground arith))
      (pos, bound, (λ a i. absurd (ground arith)), apart))
  where
    init :
        (left : ℕ)
        → Ends
            (fill_pool virt2phy left base head (list_init m head) pkts)
            (Filled head (pool_from left base))
        → Ends
            (do ensure (not (base == 0)); fill_pool virt2phy left base head (list_init m head) pkts)
            (Filled head (pool_from left base))
    init left filled = let given : (base == 0) ≡ false = ground arith in rw given filled
