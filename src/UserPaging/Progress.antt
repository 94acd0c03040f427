-- ===== src/UserPaging/Progress.antt =====
-- What is left while an area is unmapped page by page.
use zelda_os.Prelude.{
  ℕ, ◌+◌, ◌*◌, ◌/◌, ◌%◌, ◌^◌, ◌≤◌, ◌<◌, ◌≡◌, refl, sym, ap, subst, ◌∙◌, ◌≢◌, ◌⊎◌, inl, inr, Bool,
  true, false, List, [], ◌∷◌, arith, ◌==◌, ==_iff, ==_false, Bool-cases,
}
use zelda_os.Links.{Ptr, null}
use zelda_os.UserVma.{VmArea, Areas, area_end, search_userspace_vma_by_addr}
use zelda_os.Paging.{is_page_free}
use zelda_os.Paging.Tables.{virt2phy}
use zelda_os.Paging.Tables.Sound.{IsSound}
use zelda_os.UserPaging.{Store, vma_in_task}
use zelda_os.UserPaging.Tidy.{IsTidy}
use zelda_os.UserPaging.Gone.{IsGone}

-- An area is found for every address of an area of the list.
pub search-found :
    (areas : Areas) (xs : List Ptr) (vma : Ptr) (a : ℕ)
    → vma_in_task xs vma ≡ true
    → vma_in_task xs null ≡ false
    → (areas vma).virt_addr ≤ a
    → a < area_end (areas vma)
    → (search_userspace_vma_by_addr areas xs a == null) ≡ false
unfolding vma_in_task search_userspace_vma_by_addr
search-found areas [] vma a i n low high = absurd (ground arith)
search-found areas (x ∷ xs) vma a i n low high = ground (arith, search-found areas xs vma a)

-- the end of the last page of an area
abbrev pub page_end : VmArea → ℕ
page_end v = (area_end v + 4095) / 4096 * 4096

-- The pages from the start of an area to an address are evicted: they are unmapped, and the pages
-- of memory that they had are free unless their area is mapped exactly; the other addresses are
-- mapped as before, no page of memory is taken, and if the last page of the area was mapped then
-- its table is given back or has another page.
pub record IsEvictedTo (dir : ℕ) (areas : Areas) (vma_list : List Ptr) (v : VmArea) (s t : Store)
    (addr : ℕ) : Type 0 where
  pub sound : IsSound dir t.machine
  pub unmapped :
      (a : ℕ) → a % 4096 ≡ 0 → v.virt_addr ≤ a → a < addr → virt2phy t.machine.memory dir a ≡ 0
  pub others :
      (a : ℕ)
      → a < 2 ^ 32
      → (a < v.virt_addr) ⊎ (addr ≤ a)
      → virt2phy t.machine.memory dir a ≡ virt2phy s.machine.memory dir a
  pub freed :
      (a : ℕ)
      → a % 4096 ≡ 0
      → v.virt_addr ≤ a
      → a < addr
      → (areas (search_userspace_vma_by_addr areas vma_list a)).exact ≡ false
      → virt2phy s.machine.memory dir a ≢ 0
      → is_page_free t.pages.free_page_bitmap (virt2phy s.machine.memory dir a) ≡ true
  pub still_free :
      (b : ℕ)
      → is_page_free s.pages.free_page_bitmap b ≡ true
      → is_page_free t.pages.free_page_bitmap b ≡ true
  pub tidy :
      (a : ℕ)
      → a % 4096 ≡ 0
      → v.virt_addr ≤ a
      → a < addr
      → area_end v ≤ a + 4096
      → virt2phy s.machine.memory dir a ≢ 0
      → IsTidy dir a t.machine

module _ (dir : ℕ) (areas : Areas) (vma_list : List Ptr) (v : VmArea) (s : Store)
    (aligned : v.virt_addr % 4096 ≡ 0) (room : area_end v ≤ 2 ^ 32) where
  pub nothing_yet : IsSound dir s.machine → IsEvictedTo dir areas vma_list v s s v.virt_addr
  nothing_yet sound = record {
    sound = sound;
    unmapped = λ a page low high. absurd (omega (arith, low, high));
    others = λ a small out. refl;
    freed = λ a page low high e n. absurd (omega (arith, low, high));
    still_free = λ b free. free;
    tidy = λ a page low high last n. absurd (omega (arith, low, high));
  }

  pub one_more :
      (addr : ℕ) (reclaim : Bool) (t u : Store)
      → addr % 4096 ≡ 0
      → v.virt_addr ≤ addr
      → addr < area_end v
      → (area_end v ≤ addr + 4096 → reclaim ≡ true)
      → IsEvictedTo dir areas vma_list v s t addr
      → IsGone dir addr (areas (search_userspace_vma_by_addr areas vma_list addr)).exact reclaim t u
      → IsEvictedTo dir areas vma_list v s u (addr + 4096)
  one_more addr reclaim t u page from low last so_far gone =
      let same : virt2phy t.machine.memory dir addr ≡ virt2phy s.machine.memory dir addr =
        so_far.others addr (omega arith) (inr (omega arith)) in
      let apart : (a : ℕ) → a % 4096 ≡ 0 → (a == addr) ≡ false → a / 4096 ≢ addr / 4096 =
        λ a page_a n. let k : a ≢ addr = ==_false a addr n in omega arith in
      record {
        sound = gone.sound;
        unmapped = λ a page_a low_a high_a. elim (Bool-cases (a == addr)) [
          | inl e ↦
              subst (λ (x : ℕ). virt2phy u.machine.memory dir x ≡ 0) (sym ((==_iff a addr).0 e))
                gone.unmapped
          | inr n ↦
              let k : a ≢ addr = ==_false a addr n in
              gone.others a (omega arith) (apart a page_a n)
              ∙ so_far.unmapped a page_a low_a (omega arith)
        ];
        others = λ a small out. elim out [
          | inl under ↦ gone.others a small (omega arith) ∙ so_far.others a small (inl under)
          | inr over ↦ gone.others a small (omega arith) ∙ so_far.others a small (inr (omega arith))
        ];
        freed = λ a page_a low_a high_a e n. elim (Bool-cases (a == addr)) [
          | inl at ↦ here u a e n ((==_iff a addr).0 at) same gone.freed
          | inr other ↦
              let k : a ≢ addr = ==_false a addr other in
              gone.still_free (virt2phy s.machine.memory dir a)
                (so_far.freed a page_a low_a (omega arith) e n)
        ];
        still_free = λ b free. gone.still_free b (so_far.still_free b free);
        tidy = λ a page_a low_a high_a last_a n.
            let at : a ≡ addr = omega arith in
            subst (λ (x : ℕ). IsTidy dir x u.machine) (sym at)
              (gone.tidy (last (omega arith))
                (λ z. n (ap (virt2phy s.machine.memory dir) at ∙ sym same ∙ z)));
      }
    where
      here :
          (u : Store) (a : ℕ)
          → (areas (search_userspace_vma_by_addr areas vma_list a)).exact ≡ false
          → virt2phy s.machine.memory dir a ≢ 0
          → a ≡ addr
          → virt2phy t.machine.memory dir addr ≡ virt2phy s.machine.memory dir addr
          → ((areas (search_userspace_vma_by_addr areas vma_list addr)).exact ≡ false
              → virt2phy t.machine.memory dir addr ≢ 0
              → is_page_free u.pages.free_page_bitmap (virt2phy t.machine.memory dir addr) ≡ true)
          → is_page_free u.pages.free_page_bitmap (virt2phy s.machine.memory dir a) ≡ true
      here u a e n at same freed =
          let phy : virt2phy t.machine.memory dir addr ≡ virt2phy s.machine.memory dir a =
            same ∙ ap (virt2phy s.machine.memory dir) (sym at) in
          subst (λ (x : ℕ). is_page_free u.pages.free_page_bitmap x ≡ true) phy
            (freed
              (subst
                (λ (x : ℕ). (areas (search_userspace_vma_by_addr areas vma_list x)).exact ≡ false)
                at e)
              (λ z. n (sym phy ∙ z)))
