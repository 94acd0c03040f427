-- ===== src/UserVma/Tests.antt =====
-- The theorems at a task with a heap and a stack.
use zelda_os.Prelude.{
  ◌+◌, ◌^◌, ◌≤◌, ◌<◌, ◌≡◌, refl, sym, ◌∙◌, ◌≢◌, ◌⊎◌, inl, inr, true, false, List, [], ◌∷◌, arith,
  ◌==◌, if◌then◌else◌,
}
use zelda_os.Status.{ok}
use zelda_os.UserVma.{
  VmArea, upward, Areas, search_userspace_vma, put_area, extended_start, extended_end,
  extend_vm_area,
}
use zelda_os.UserVma.Search.{search_userspace_vma-cases}
use zelda_os.UserVma.Extend.{extend_vm_area-AreApart}
use zelda_os.Links.{Ptr}
use zelda_os.Links.Chain.{has}
use zelda_os.CStr.{strcmp}
use zelda_os.UserVma.Scan.{AreApart, IsInside}

abbrev heap : VmArea
heap = record {
  name = 104 ∷ [];
  kernel_vma = false;
  exact = false;
  write_permission = 1;
  page_writethrough = 0;
  page_cachedisable = 0;
  virt_addr = 0x50000000;
  phy_addr = 0;
  length = 0x1000;
}

abbrev stack : VmArea
stack = record {
  name = 115 ∷ [];
  kernel_vma = false;
  exact = false;
  write_permission = 1;
  page_writethrough = 0;
  page_cachedisable = 0;
  virt_addr = 0x90000000;
  phy_addr = 0;
  length = 0x2000;
}

abbrev areas : Areas
areas p = if p == 8 then heap else stack

abbrev both : List Ptr
both = 8 ∷ 16 ∷ []

member : (x : Ptr) → has x both ≡ true → (x ≡ 8) ⊎ (x ≡ 16)
member x i = ground arith

areas-AreApart : AreApart areas both
areas-AreApart = record { bounds = bounds; apart = apart }
  where
    bounds :
        (x : Ptr)
        → has x both ≡ true
        → (0 < (areas x).length) × ((areas x).virt_addr + (areas x).length < 2 ^ 64)
    bounds x i = elim (member x i) [
      | inl e ↦ rw e (omega arith, omega arith)
      | inr e ↦ rw e (omega arith, omega arith)
    ]

    apart :
        (x y : Ptr)
        → x ≢ y
        → has x both ≡ true
        → has y both ≡ true
        → ((areas x).virt_addr + (areas x).length ≤ (areas y).virt_addr)
          ⊎ ((areas y).virt_addr + (areas y).length ≤ (areas x).virt_addr)
    apart x y ne i j = elim (member x i) [
      | inl e ↦ elim (member y j) [
        | inl f ↦ absurd (ne (e ∙ sym f))
        | inr f ↦ rw (e, f) (inl (omega arith))
      ]
      | inr e ↦ elim (member y j) [
        | inl f ↦ rw (e, f) (inr (omega arith))
        | inr f ↦ absurd (ne (e ∙ sym f))
      ]
    ]

search_userspace_vma-cases_example : search_userspace_vma areas both (120 ∷ []) ≡ 16
unfolding strcmp
search_userspace_vma-cases_example = search_userspace_vma-cases areas both (120 ∷ [])

abbrev grown_heap : Areas
grown_heap = put_area areas 8 (record heap { length = 0x3000 })

grow_run : extend_vm_area areas both 8 upward 0x2000 ≡ (ok, grown_heap)
unfolding extend_vm_area
grow_run = refl

extend_vm_area-AreApart_example : AreApart grown_heap both
unfolding extended_start extended_end
extend_vm_area-AreApart_example =
    extend_vm_area-AreApart areas grown_heap both 8 upward 0x2000 areas-AreApart refl (omega arith)
      away grow_run
  where
    away :
        (x : Ptr)
        → has x both ≡ true
        → x ≢ 8
        → IsInside (areas x) (extended_start heap upward 0x2000) (extended_end heap upward 0x2000)
        → ⊥
    away x i other inside = elim (member x i) [
      | inl e ↦ absurd (other e)
      | inr e ↦
          let p : IsInside stack (extended_start heap upward 0x2000)
              (extended_end heap upward 0x2000) =
            rw e at inside in
          omega (arith, p)
    ]
