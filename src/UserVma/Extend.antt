-- ===== src/UserVma/Extend.antt =====
-- `extend_vm_area` keeps the areas apart.
use zelda_os.Prelude.{
  ℕ, ◌+◌, ◌^◌, ◌≤◌, ◌<◌, ◌≡◌, refl, ap, subst, ◌≢◌, ◌⊎◌, inl, inr, Bool, true, false, Option, none,
  some, List, arith, ◌==◌, Bool-cases,
}
use zelda_os.Status.{Status, ok, err_invalid_arg}
use zelda_os.UserVma.{
  VmArea, Direction, upward, downward, Areas, put_area, grow_vm_area, extended_start, extended_end,
  straddles, scan_areas, extend_vm_area,
}
use zelda_os.Links.{Ptr}
use zelda_os.Links.Chain.{has}
use zelda_os.UserVma.Scan.{AreApart, HasRoom, IsInside, scan-clear, beside}

-- the extended area reaches from the one bound of the extension to the other, over the old area
record Grown (v : VmArea) (direction : Direction) (len : ℕ) : Type 0 where
  start : (grow_vm_area v direction len).virt_addr ≡ extended_start v direction len
  stop :
      (grow_vm_area v direction len).virt_addr + (grow_vm_area v direction len).length
      ≡ extended_end v direction len
  low : extended_start v direction len ≤ v.virt_addr
  high : v.virt_addr + v.length ≤ extended_end v direction len
  some_length : 0 < (grow_vm_area v direction len).length
  small : extended_end v direction len < 2 ^ 64

grow_vm_area-Grown :
    (v : VmArea) (direction : Direction) (len : ℕ)
    → (0 < v.length) × (v.virt_addr + v.length < 2 ^ 64)
    → HasRoom v direction len
    → Grown v direction len
unfolding grow_vm_area extended_start extended_end
grow_vm_area-Grown v upward len (some_length, small) room = record {
  start = refl;
  stop = omega arith;
  low = omega arith;
  high = omega arith;
  some_length = omega arith;
  small = omega arith;
}
grow_vm_area-Grown v downward len (some_length, small) room = record {
  start = refl;
  stop = omega arith;
  low = omega arith;
  high = omega arith;
  some_length = omega arith;
  small = omega arith;
}

module _ (areas : Areas) (xs : List Ptr) (target : Ptr) (direction : Direction) (len : ℕ)
    (whole : AreApart areas xs) (listed : has target xs ≡ true)
    (room : HasRoom (areas target) direction len)
    (no_inside : (x : Ptr)
      → has x xs ≡ true
      → x ≢ target
      → IsInside
          (areas x)
          (extended_start (areas target) direction len)
          (extended_end (areas target) direction len)
      → ⊥) where
  grown : Grown (areas target) direction len
  grown = grow_vm_area-Grown (areas target) direction len (whole.bounds target listed) room

  after : Areas
  after = put_area areas target (grow_vm_area (areas target) direction len)

  target_apart :
      (x : Ptr)
      → has x xs ≡ true
      → x ≢ target
      → (straddles (areas x) (extended_start (areas target) direction len) ≡ false)
        × (straddles (areas x) (extended_end (areas target) direction len) ≡ false)
      → ((areas x).virt_addr + (areas x).length ≤ extended_start (areas target) direction len)
        ⊎ (extended_end (areas target) direction len ≤ (areas x).virt_addr)
  target_apart x i other (a, b) =
      beside (areas x) (areas target).virt_addr ((areas target).virt_addr + (areas target).length)
        (extended_start (areas target) direction len) (extended_end (areas target) direction len)
        (whole.bounds x i) (whole.apart x target other i listed) grown.low grown.high a b
        (no_inside x i other)

  after-AreApart :
      ((x : Ptr)
        → has x xs ≡ true
        → x ≢ target
        → (straddles (areas x) (extended_start (areas target) direction len) ≡ false)
          × (straddles (areas x) (extended_end (areas target) direction len) ≡ false))
      → AreApart after xs
  unfolding after
  after-AreApart clear = record { bounds = bounds; apart = apart }
    where
      bounds :
          (x : Ptr)
          → has x xs ≡ true
          → (0 < (after x).length) × ((after x).virt_addr + (after x).length < 2 ^ 64)
      bounds x i = elim (Bool-cases (x == target)) [
        | inl same ↦
            rw same (
              grown.some_length,
              (let s = grown.stop in let l = grown.small in omega (arith, s, l)),
            )
        | inr other ↦ rw other (whole.bounds x i)
      ]

      with_target :
          (x : Ptr)
          → has x xs ≡ true
          → (x == target) ≡ false
          → ((areas x).virt_addr + (areas x).length
              ≤ (grow_vm_area (areas target) direction len).virt_addr)
            ⊎ ((grow_vm_area (areas target) direction len).virt_addr
                  + (grow_vm_area (areas target) direction len).length
                ≤ (areas x).virt_addr)
      with_target x i other =
          rw (grown.stop, grown.start) (target_apart x i (ground arith) (clear x i (ground arith)))

      apart :
          (x y : Ptr)
          → x ≢ y
          → has x xs ≡ true
          → has y xs ≡ true
          → ((after x).virt_addr + (after x).length ≤ (after y).virt_addr)
            ⊎ ((after y).virt_addr + (after y).length ≤ (after x).virt_addr)
      apart x y ne i j = elim (Bool-cases (x == target)) [
        | inl same ↦
            let other : (y == target) ≡ false = ground arith in
            rw (same, other) (swap (with_target y j other))
        | inr other ↦ elim (Bool-cases (y == target)) [
          | inl same ↦ rw (other, same) (with_target x i other)
          | inr also ↦ rw (other, also) (whole.apart x y ne i j)
        ]
      ]
        where
          swap : {A B : Type 0} → A ⊎ B → B ⊎ A
          swap (inl a) = inr a
          swap (inr b) = inl b

-- If the areas of a list are not empty, do not wrap and do not overlap, an extension of one of them
-- that does not wrap and that `extend_vm_area` grants leaves them so, provided that no other area
-- lies wholly inside of the extended area, which the code does not check.
pub extend_vm_area-AreApart :
    (areas areas' : Areas) (xs : List Ptr) (target : Ptr) (direction : Direction) (len : ℕ)
    → AreApart areas xs
    → has target xs ≡ true
    → HasRoom (areas target) direction len
    → ((x : Ptr)
        → has x xs ≡ true
        → x ≢ target
        → IsInside
            (areas x)
            (extended_start (areas target) direction len)
            (extended_end (areas target) direction len)
        → ⊥)
    → extend_vm_area areas xs target direction len ≡ (ok, areas')
    → AreApart areas' xs
unfolding extend_vm_area after
extend_vm_area-AreApart areas areas' xs target direction len whole listed room no_inside run =
    by_scan
      (scan_areas areas target (extended_start (areas target) direction len)
        (extended_end (areas target) direction len) false xs)
      refl
  where
    by_scan :
        (o : Option Bool)
        → scan_areas areas target
            (extended_start (areas target) direction len)
            (extended_end (areas target) direction len)
            false
            xs
          ≡ o
        → AreApart areas' xs
    by_scan none e =
        absurd
          (let bad : err_invalid_arg ≡ ok = ap (λ r. r.0) (rw (e, extend_vm_area) at run) in cc)
    by_scan (some false) e =
        absurd
          (let bad : err_invalid_arg ≡ ok = ap (λ r. r.0) (rw (e, extend_vm_area) at run) in cc)
    by_scan (some true) e =
        subst (λ (k : Areas). AreApart k xs)
          (ap (λ (r : Status × Areas). r.1) (rw (e, extend_vm_area) at run))
          (after-AreApart areas xs target direction len whole listed room no_inside (
            scan-clear areas target (extended_start (areas target) direction len)
              (extended_end (areas target) direction len) false xs true e))
