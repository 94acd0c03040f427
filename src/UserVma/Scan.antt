-- ===== src/UserVma/Scan.antt =====
-- The areas of a task, and what the scan of `extend_vm_area` has checked when it ends.
use zelda_os.Prelude.{
  ℕ, ◌+◌, ◌^◌, ◌≤◌, ◌<◌, ◌≡◌, ◌≢◌, ◌⊎◌, inl, inr, Bool, true, false, ◌&&◌, none, some, List, [],
  ◌∷◌, arith, leb, ◌==◌, ==_iff, Bool-cases,
}
use zelda_os.UserVma.{VmArea, Direction, upward, downward, Areas, area_end, straddles, scan_areas}
use zelda_os.Links.{Ptr}
use zelda_os.Links.Chain.{has}

-- the areas of a list are not empty, end below 2 ^ 64 and do not overlap
pub record AreApart (areas : Areas) (xs : List Ptr) : Type 0 where
  pub bounds :
      (x : Ptr)
      → has x xs ≡ true
      → (0 < (areas x).length) × ((areas x).virt_addr + (areas x).length < 2 ^ 64)
  pub apart :
      (x y : Ptr)
      → x ≢ y
      → has x xs ≡ true
      → has y xs ≡ true
      → ((areas x).virt_addr + (areas x).length ≤ (areas y).virt_addr)
        ⊎ ((areas y).virt_addr + (areas y).length ≤ (areas x).virt_addr)

-- the extension does not wrap
abbrev pub HasRoom : VmArea → Direction → ℕ → Type 0
HasRoom v upward len = v.virt_addr + v.length + len < 2 ^ 64
HasRoom v downward len = len ≤ v.virt_addr

-- the area lies inside of `start` .. `stop`
abbrev pub IsInside : VmArea → (start stop : ℕ) → Type 0
IsInside v start stop = (start ≤ v.virt_addr) × (v.virt_addr + v.length ≤ stop)

pub scan-clear :
    (areas : Areas) (target start stop : ℕ) (found : Bool) (xs : List Ptr) (f : Bool)
    → scan_areas areas target start stop found xs ≡ some f
    → (x : Ptr) → has x xs ≡ true
    → x ≢ target
    → (straddles (areas x) start ≡ false) × (straddles (areas x) stop ≡ false)
unfolding scan_areas
scan-clear areas target start stop found [] f e x i other = absurd (ground arith)
scan-clear areas target start stop found (y ∷ ys) f e x i other = elim (Bool-cases (y == target)) [
  | inl met ↦
      scan-clear areas target start stop true ys f (rw met at e) x
        (let y_is : y ≡ target = (==_iff y target).0 met in ground arith) other
  | inr passed ↦ elim (Bool-cases (straddles (areas y) start)) [
    | inl bad ↦ absurd (let n : none ≡ some f = rw (passed, bad) at e in ground arith)
    | inr low ↦ elim (Bool-cases (straddles (areas y) stop)) [
      | inl bad ↦ absurd (let n : none ≡ some f = rw (passed, low, bad) at e in ground arith)
      | inr high ↦ elim (Bool-cases (x == y)) [
        | inl same ↦ let p : x ≡ y = (==_iff x y).0 same in rw p (low, high)
        | inr differs ↦
            scan-clear areas target start stop found ys f (rw (passed, low, high) at e) x
              (ground arith) other
      ]
    ]
  ]
]

-- a neighbour that neither straddles an end of the extended area nor lies in it is beside it
pub beside :
    (v : VmArea) (old_start old_stop start stop : ℕ)
    → (0 < v.length) × (v.virt_addr + v.length < 2 ^ 64)
    → (v.virt_addr + v.length ≤ old_start) ⊎ (old_stop ≤ v.virt_addr)
    → start ≤ old_start
    → old_stop ≤ stop
    → straddles v start ≡ false
    → straddles v stop ≡ false
    → (IsInside v start stop → ⊥)
    → (v.virt_addr + v.length ≤ start) ⊎ (stop ≤ v.virt_addr)
beside v old_start old_stop start stop (some_length, small) sides low high a b outside =
    let real : area_end v ≡ v.virt_addr + v.length = omega arith in
    elim (Bool-cases (leb start v.virt_addr && leb (v.virt_addr + v.length) stop)) [
      | inl within ↦ absurd (outside (ground arith, ground arith))
      | inr partly ↦ ground arith
    ]
