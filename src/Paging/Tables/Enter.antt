-- ===== src/Paging/Tables/Enter.antt =====
-- Putting the entry for a page into its table.
use zelda_os.Prelude.{
  ℕ, ◌+◌, ◌-◌, ◌*◌, ◌/◌, ◌%◌, ◌^◌, ◌<◌, ◌≡◌, refl, ap, ◌∙◌, ◌≢◌, true, false, arith, ◌==◌, done,
}
use zelda_os.Status.{ok}
use zelda_os.Paging.Tables.{
  Machine, present, pg_frame, create_pte32, pde_at, enter, virt2phy, page_present,
}
use zelda_os.Paging.Tables.Words.{present-create_pte32, pg_frame-create_pte32}
use zelda_os.Paging.Tables.Walk.{virt2phy-entry, page_present-entry}
use zelda_os.Paging.Tables.Sound.{IsSound}
use zelda_os.Paging.Tables.Write.{
  written, written-IsSound, written_at, written_there, written-others,
}

-- the page is mapped, and the other pages are as before
abbrev pub Mapped : (dir virt phy : ℕ) → Machine → Machine → Type 0
Mapped dir virt phy m m' =
    IsSound dir m'
    × (virt2phy m'.memory dir virt ≡ phy / 4096 * 4096 + virt % 4096)
    × (page_present m'.memory dir virt ≡ ok)
    × ((v : ℕ)
        → v < 2 ^ 32
        → v / 4096 ≢ virt / 4096
        → virt2phy m'.memory dir v ≡ virt2phy m.memory dir v)

-- the last ASSERT of `kernel_map_page`
entry_test :
    {phy frame : ℕ}
    → frame ≡ phy / 4096 % 2 ^ 20
    → phy < 2 ^ 32
    → (frame * 4096 == phy - phy % 4096) ≡ true
entry_test {phy = phy} {frame = frame} f small =
    let e : frame * 4096 ≡ phy - phy % 4096 = omega (arith, f, small) in ground (arith, e)

module _ (dir : ℕ) (m : Machine) (sound : IsSound dir m) (virt : ℕ)
    (has_table : present (m.memory (pde_at dir virt)) ≡ 1) (sup phy w wt cd : ℕ) where
  abbrev entry : ℕ
  entry = create_pte32 w sup wt cd phy

  abbrev entered : Machine
  entered = written dir m sound virt entry has_table

  pub enter-written : phy < 2 ^ 32 → enter dir sup virt phy w wt cd m ≡ done entered
  unfolding enter
  enter-written small =
      let a : (present (m.memory (pde_at dir virt)) == 0) ≡ false = ground (arith, has_table) in
      let p = present-create_pte32 w sup wt cd phy in
      let b : (present entry == 0) ≡ false = ground (arith, p) in
      let f = pg_frame-create_pte32 w sup wt cd phy in
      let c : (pg_frame entry * 4096 == phy - phy % 4096) ≡ true = entry_test f small in
      rw (a, b, c) refl

  pub enter-Mapped : virt < 2 ^ 32 → phy < 2 ^ 32 → Mapped dir virt phy m entered
  enter-Mapped small_virt small_phy =
      let p = present-create_pte32 w sup wt cd phy in
      let there = written_there dir m sound virt entry has_table in
      let at = written_at dir m sound virt entry has_table in
      let frame : pg_frame entry ≡ phy / 4096 =
        pg_frame-create_pte32 w sup wt cd phy ∙ omega (arith, small_phy) in
      (
        written-IsSound dir m sound virt entry has_table,
        virt2phy-entry entered.memory dir virt entry there at p
            ∙ ap (λ (k : ℕ). k * 4096 + virt % 4096) frame,
        page_present-entry entered.memory dir virt entry there at p,
        written-others dir m sound virt entry has_table small_virt,
      )
