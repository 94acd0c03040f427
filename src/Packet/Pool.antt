-- ===== src/Packet/Pool.antt =====
-- The pool of free packets as a list.
use zelda_os.Prelude.{
  ℕ, ◌<◌, ◌≡◌, refl, ◌≢◌, inl, inr, true, false, not, Option, none, some, List, [], ◌∷◌, ◌++◌,
  arith, ◌==◌, if◌then◌else◌, ==_iff, Bool-cases, length, Outcome, done, ◌>>◌, ensure, Ends,
  Ends-bind,
}
use zelda_os.Packet.{packet_reset, Packets, reset_at, get_packet, put_packet}
use zelda_os.Packet.Room.{HasRoom}
use zelda_os.Links.{Ptr, null, Memory, list_empty, list_fetch}
use zelda_os.Links.Chain.{has}
use zelda_os.Links.Shape.{IsList, IsNew, SameOff, Removed}
use zelda_os.Links.Append.{list_append-IsList}
use zelda_os.Links.Fetch.{Fetched, list_fetch-cons}
use zelda_os.Links.Walk.{element_in_list-has}

abbrev pub Got :
    (Ptr → ℕ) → Memory → Ptr → Packets → Ptr → List Ptr → Ptr × Memory × Packets → Type 0
Got virt2phy m head pkts x xs (p, n, after) =
    (p ≡ x)
    × Removed m head x (x ∷ xs) xs n
    × HasRoom (after x)
    × ((after x).payload_length ≡ 0)
    × ((a : Ptr) → a ≢ x → after a ≡ pkts a)

-- `get_packet` takes the first packet off a pool that is not empty, and returns it reset: its
-- payload is empty and in the packet. No other packet changes, and no memory but that of the pool.
pub get_packet-cons :
    (virt2phy : Ptr → ℕ) (m : Memory) (head x : Ptr) (xs : List Ptr) (pkts : Packets)
    → IsList m head (x ∷ xs)
    → Ends (get_packet virt2phy m head pkts) (Got virt2phy m head pkts x xs)
unfolding get_packet list_empty packet_reset
get_packet-cons virt2phy m head x xs pkts l =
    let some_x : (x == null) ≡ false = let n = l.nonnull in ground arith in
    rw (l.first, some_x)
      (Ends-bind (list_fetch m head) _ (Fetched m head x xs) (Got virt2phy m head pkts x xs)
        (list_fetch-cons m head x xs l) after)
  where
    after :
        (r : Ptr × Memory)
        → Fetched m head x xs r
        → Ends
            (do ensure (not (r.0 == null)); done (r.0, r.1, reset_at virt2phy pkts r.0))
            (Got virt2phy m head pkts x xs)
    after (p, n) (same, removed) =
        let some_x : (x == null) ≡ false = let out = l.nonnull in ground arith in
        let self : (x == x) ≡ true = (==_iff x x).1 refl in
        rw (same, some_x)
          (
            refl,
            removed,
            rw self (omega arith),
            rw self refl,
            λ a other. let ne : (a == x) ≡ false = ground arith in rw ne,
          )

-- `get_packet` returns NULL if the pool is empty, and changes nothing.
pub get_packet-nil :
    (virt2phy : Ptr → ℕ) (m : Memory) (head : Ptr) (pkts : Packets)
    → IsList m head []
    → get_packet virt2phy m head pkts ≡ done (null, m, pkts)
unfolding get_packet list_empty
get_packet-nil virt2phy m head pkts l = let f = l.first in ground arith

abbrev pub Returned : Option (Outcome Memory) → (Memory → Type 0) → Type 0
Returned none P = ⊥
Returned (some r) P = Ends r P

-- `put_packet` puts a detached packet at the end of the pool; a packet that is already in the pool is
-- left where it is, so that putting it twice does no harm.
pub put_packet-IsList :
    (fuel : ℕ) (m : Memory) (head p : Ptr) (xs : List Ptr)
    → IsList m head xs
    → length xs < fuel
    → (has p xs ≡ false → IsNew m head p xs)
    → Returned
        (put_packet fuel m head p)
        (λ n. IsList n head (if has p xs then xs else xs ++ p ∷ []) × SameOff (head ∷ p ∷ xs) m n)
unfolding put_packet
put_packet-IsList fuel m head p xs l f new = elim (Bool-cases (has p xs)) [
  | inl i ↦ rw (element_in_list-has fuel m head p xs l f, put_packet, i) (l, λ a o. refl)
  | inr o ↦
      rw (element_in_list-has fuel m head p xs l f, put_packet, o)
        (list_append-IsList m head p xs l (new o))
]
