-- ===== src/KernelVma/Tests.antt =====
-- The theorems at a registry of two slots, one of which holds the first megabyte.
use zelda_os.Prelude.{
  ℕ, zero, suc, ◌+◌, ◌≤◌, ◌<◌, ◌≡◌, refl, sym, ◌∙◌, ◌≢◌, ◌⊎◌, true, false, some, [], ◌∷◌, arith,
  get_or, done, Ends,
}
use zelda_os.KernelVma.{
  KernelVma, Table, no_vma, page_round, userspace_bottom, search_free_kernel_virtual_address,
  register_kernel_vma, kernel_map_vma,
}
use zelda_os.KernelVma.Register.{NonePremap, entered, registered, register_kernel_vma-registered}
use zelda_os.KernelVma.Free.{
  AreSeparate, IsGap, IsGapOrNull, search_free_kernel_virtual_address-IsGap,
}
use zelda_os.KernelVma.Map.{mapped_at, Maps, kernel_map_vma-IsGap}

abbrev low_megabyte : KernelVma
low_megabyte = record no_vma {
  name = 76 ∷ [];
  present = true;
  exact = true;
  write_permission = true;
  length = 0x100000;
}

abbrev slots : Table
slots = low_megabyte ∷ no_vma ∷ []

abbrev device : KernelVma
device = record no_vma { exact = true; premap = true; virt_addr = 0x200000; length = 0x3000 }

slots-AreSeparate : AreSeparate slots
slots-AreSeparate = record { bounds = bounds; apart = apart }
  where
    bounds :
        (j : ℕ)
        → (get_or slots j no_vma).present ≡ true
        → (0 < (get_or slots j no_vma).length)
          × ((get_or slots j no_vma).virt_addr + (get_or slots j no_vma).length ≤ userspace_bottom)
    bounds zero u = (omega arith, omega arith)
    bounds (suc zero) u = absurd (ground arith)
    bounds (suc (suc j)) u = absurd (ground arith)

    only : (j : ℕ) → (get_or slots j no_vma).present ≡ true → j ≡ 0
    only zero u = refl
    only (suc zero) u = absurd (ground arith)
    only (suc (suc j)) u = absurd (ground arith)

    apart :
        (i j : ℕ)
        → i ≢ j
        → (get_or slots i no_vma).present ≡ true
        → (get_or slots j no_vma).present ≡ true
        → ((get_or slots i no_vma).virt_addr + (get_or slots i no_vma).length
            ≤ (get_or slots j no_vma).virt_addr)
          ⊎ ((get_or slots j no_vma).virt_addr + (get_or slots j no_vma).length
              ≤ (get_or slots i no_vma).virt_addr)
    apart i j other u w = absurd (other (only i u ∙ sym (only j w)))

register_kernel_vma-registered_example :
    (register_kernel_vma (λ (s : ℕ). (s, s + 1)) (λ s linear phy w t d. s) 9 slots 0x5000 device
      ≡ some (done ((registered slots device).0, (registered slots device).1, 0x5000)))
    × NonePremap (registered slots device).1
register_kernel_vma-registered_example =
    register_kernel_vma-registered (λ (s : ℕ). (s, s + 1)) (λ s linear phy w t d. s) 9 slots 0x5000
      device (refl, (refl, tt))

search_free_kernel_virtual_address-IsGap_example :
    Ends (search_free_kernel_virtual_address slots 0x3000) (IsGapOrNull slots (page_round 0x3000))
search_free_kernel_virtual_address-IsGap_example =
    search_free_kernel_virtual_address-IsGap slots 0x3000 slots-AreSeparate

kernel_map_vma-IsGap_example :
    Maps
      (kernel_map_vma
        (λ (s : ℕ). (s, s + 1))
        (λ s linear phy w t d. s)
        9
        slots
        0x5000
        (66 ∷ [])
        false
        true
        0x7000
        0x3000
        true
        false
        false)
      (λ r.
        ((r.0 ≡ 0) × (r.1 ≡ slots) × (r.2 ≡ 0x5000))
        ⊎ (IsGap slots (page_round 0x3000) r.0
            × (r.1
                ≡ (entered slots
                    (mapped_at (66 ∷ []) true 0x7000 0x3000 true false false r.0)
                    (some 1)).1)
            × (r.2 ≡ 0x5000)))
kernel_map_vma-IsGap_example =
    kernel_map_vma-IsGap (λ (s : ℕ). (s, s + 1)) (λ s linear phy w t d. s) 9 slots 0x5000 (66 ∷ [])
      false true 0x7000 0x3000 true false false 1 slots-AreSeparate (refl, (refl, tt)) refl
