-- ===== src/Paging/Tables/Map.antt =====
-- `kernel_map_page` maps one page and keeps the rest of the address space.
use zelda_os.Prelude.{
  ℕ, ◌^◌, ◌<◌, ◌≡◌, refl, ap, ◌∙◌, inl, inr, true, false, some, arith, ◌==◌, Outcome, done, panic,
}
use zelda_os.Paging.Base.{BasePages, page_space_bottom, page_space_top, get_base_page}
use zelda_os.Paging.Base.Stop.{AreTaken}
use zelda_os.Paging.Base.Give.{GotBasePage, nonzero, get_base_page-GotBasePage}
use zelda_os.Paging.Tables.{
  Machine, present, create_pte32, pde_at, with_table, kernel_map_page, virt2phy,
}
use zelda_os.Paging.Tables.Words.{present-create_pte32, present-cases}
use zelda_os.Paging.Tables.Sound.{IsSound}
use zelda_os.Paging.Tables.Enter.{Mapped, enter-written, enter-Mapped}
use zelda_os.Paging.Tables.Extend.{extended, new_pde, extended-IsSound, extended-virt2phy}
use zelda_os.Paging.Tables.Write.{written}

-- A step fails only if no page of the inventory is free.
abbrev pub OrFull : Machine → (Machine → Type 0) → Outcome Machine → Type 0
OrFull m P panic = AreTaken m.base.free_base_page_bitmap page_space_bottom page_space_top
OrFull m P (done m') = P m'

-- the directory has a table for the address, and maps what it has mapped
abbrev pub HasTable : (dir virt : ℕ) → Machine → Machine → Type 0
HasTable dir virt m m' =
    IsSound dir m'
    × (present (m'.memory (pde_at dir virt)) ≡ 1)
    × ((v : ℕ) → virt2phy m'.memory dir v ≡ virt2phy m.memory dir v)

with_table-HasTable :
    (dir virt : ℕ) (m : Machine)
    → IsSound dir m
    → (r : Outcome Machine) × (with_table dir virt m ≡ some r) × OrFull m (HasTable dir virt m) r
unfolding with_table
with_table-HasTable dir virt m sound = elim (present-cases (m.memory (pde_at dir virt))) [
  | inr there ↦
      let t : (present (m.memory (pde_at dir virt)) == 0) ≡ false = ground (arith, there) in
      (done m, rw t refl, (sound, there, λ v. refl))
  | inl absent ↦
      let t : (present (m.memory (pde_at dir virt)) == 0) ≡ true = ground (arith, absent) in
      let (r, e, given) = get_base_page-GotBasePage m.base sound.rounds in by r absent t e given
]
  where
    by :
        (r : ℕ × BasePages)
        → present (m.memory (pde_at dir virt)) ≡ 0
        → (present (m.memory (pde_at dir virt)) == 0) ≡ true
        → get_base_page m.base ≡ some r
        → GotBasePage m.base r
        → (r : Outcome Machine) × (with_table dir virt m ≡ some r)
          × OrFull m (HasTable dir virt m) r
    by (page, base) absent t e (inl (z, same, taken), rounds) =
        let u : (page == 0) ≡ true = ground (arith, z) in
        (panic, rw (t, with_table, e, u) refl, taken)
    by (page, base) absent t e (inr (is_page, marked), rounds) =
        let u : (page == 0) ≡ false = nonzero page is_page.0 in
        let m' = extended dir m sound 0 virt absent page base is_page marked rounds in
        (
          done m',
          rw (t, with_table, e, u) refl,
          (
            extended-IsSound dir m sound 0 virt absent page base is_page marked rounds,
            ap present (new_pde dir m sound 0 virt absent page base is_page marked rounds)
                ∙ present-create_pte32 1 0 0 0 page,
            extended-virt2phy dir m sound 0 virt absent page base is_page marked rounds,
          ),
        )

-- For a directory whose tables are different pages in use, and addresses below 2 ^ 32,
-- `kernel_map_page` ends and fails an ASSERT only if no page of the inventory is free. Else
-- `virt2phy` finds the frame of the physical address for the address, `page_present` returns OK
-- for it, `virt2phy` finds for every other page what it found before, and the tables are
-- different pages in use again.
pub kernel_map_page-Mapped :
    (dir : ℕ) (m : Machine) (virt phy w wt cd : ℕ)
    → IsSound dir m
    → virt < 2 ^ 32
    → phy < 2 ^ 32
    → (r : Outcome Machine) × (kernel_map_page dir virt phy w wt cd m ≡ some r)
      × OrFull m (Mapped dir virt phy m) r
unfolding kernel_map_page
kernel_map_page-Mapped dir m virt phy w wt cd sound small_virt small_phy =
    let (r, e, prepared) = with_table-HasTable dir virt m sound in by r e prepared
  where
    by :
        (r : Outcome Machine)
        → with_table dir virt m ≡ some r
        → OrFull m (HasTable dir virt m) r
        → (r : Outcome Machine) × (kernel_map_page dir virt phy w wt cd m ≡ some r)
          × OrFull m (Mapped dir virt phy m) r
    by panic e full = (panic, rw (e, kernel_map_page) refl, full)
    by (done m1) e (sound1, there, same) =
        let pte = create_pte32 w 0 wt cd phy in
        let (put, page, found, others) =
          enter-Mapped dir m1 sound1 virt there 0 phy w wt cd small_virt small_phy in
        (
          done (written dir m1 sound1 virt pte there),
          rw (e, kernel_map_page, enter-written dir m1 sound1 virt there 0 phy w wt cd small_phy)
              refl,
          (put, page, found, λ v small other. others v small other ∙ same v),
        )
