-- ===== src/UserPaging/Enter.antt =====
-- `userspace_map_page` maps one page of a task.
use zelda_os.Prelude.{
  ℕ, ◌^◌, ◌<◌, ◌≡◌, refl, ap, ◌∙◌, ◌⊎◌, inl, inr, true, false, some, arith, ltb, ◌==◌, ltb→lt,
  Bool-cases, Ends, Yields,
}
use zelda_os.Status.{Status, ok, err_out_of_memory, err_invalid_arg}
use zelda_os.KernelVma.{userspace_bottom}
use zelda_os.Paging.Base.{
  BasePages, page_space_bottom, page_space_top, is_base_page_free, get_base_page,
}
use zelda_os.Paging.Base.Stop.{AreTaken}
use zelda_os.Paging.Base.Give.{IsBasePage, GotBasePage, nonzero, get_base_page-GotBasePage}
use zelda_os.Paging.Tables.{Machine, present, pde_at, add_table, virt2phy}
use zelda_os.Paging.Tables.Words.{present-create_pte32, present-cases}
use zelda_os.Paging.Tables.Sound.{IsSound, IsTaken, IsSound-base}
use zelda_os.Paging.Tables.Enter.{Mapped, enter-written, enter-Mapped}
use zelda_os.Paging.Tables.Extend.{new_pde, extended-IsSound, extended-virt2phy}
use zelda_os.Paging.Tables.Map.{HasTable}
use zelda_os.UserPaging.{enter_ok, userspace_map_page}

-- no page is mapped differently
abbrev pub Unchanged : (dir : ℕ) → Machine → Machine → Type 0
Unchanged dir m m' = IsSound dir m' × ((v : ℕ) → virt2phy m'.memory dir v ≡ virt2phy m.memory dir v)

-- what `userspace_map_page` comes to
abbrev pub MapResult : (dir virt phy : ℕ) → Machine → Status × Machine → Type 0
MapResult dir virt phy m (rc, m') =
    ((rc ≡ ok) × Mapped dir virt phy m m')
    ⊎ (((rc ≡ err_invalid_arg) × (virt < userspace_bottom) × Unchanged dir m m')
        ⊎ ((rc ≡ err_out_of_memory)
            × AreTaken m.base.free_base_page_bitmap page_space_bottom page_space_top
            × Unchanged dir m m'))

-- a directory is not at address 0
pub directory_test : (dir : ℕ) → IsBasePage dir → (dir == 0) ≡ false
directory_test dir page = nonzero dir page.0

enter_ok-MapResult :
    (dir virt phy w wt cd : ℕ) (m m1 : Machine)
    → HasTable dir virt m m1
    → virt < 2 ^ 32
    → phy < 2 ^ 32
    → Ends (enter_ok dir virt phy w wt cd m1) (MapResult dir virt phy m)
enter_ok-MapResult dir virt phy w wt cd m m1 (sound1, there, same) small_virt small_phy =
    let (put, page, found, others) =
      enter-Mapped dir m1 sound1 virt there 1 phy w wt cd small_virt small_phy in
    rw (enter-written dir m1 sound1 virt there 1 phy w wt cd small_phy)
      (inl (refl, (put, page, found, λ v small other. others v small other ∙ same v)))

-- For a directory whose tables are different pages in use, and addresses below 2 ^ 32,
-- `userspace_map_page` ends and fails no ASSERT. If it returns OK then `virt2phy` finds the frame
-- for the address, `page_present` returns OK for it, `virt2phy` finds for every other page what
-- it found before, and the tables are different pages in use again. Else the address is below the
-- user's space, or no page of the inventory is free, and `virt2phy` finds for every address what
-- it found before.
pub userspace_map_page-MapResult :
    (dir : ℕ) (m : Machine) (virt phy w wt cd : ℕ)
    → IsSound dir m
    → virt < 2 ^ 32
    → phy < 2 ^ 32
    → Yields (userspace_map_page dir virt phy w wt cd m) (MapResult dir virt phy m)
unfolding userspace_map_page
userspace_map_page-MapResult dir m virt phy w wt cd sound small_virt small_phy =
    let z = directory_test dir sound.directory.0 in
    elim (Bool-cases (ltb virt userspace_bottom)) [
      | inl low ↦
          rw (low, userspace_map_page, z)
            (inr (inl (refl, ltb→lt virt userspace_bottom low, (sound, λ v. refl))))
      | inr high ↦ elim (present-cases (m.memory (pde_at dir virt))) [
        | inr there ↦
            let t : (present (m.memory (pde_at dir virt)) == 0) ≡ false = ground (arith, there) in
            rw (high, userspace_map_page, t, z)
              (enter_ok-MapResult dir virt phy w wt cd m m (sound, there, λ v. refl) small_virt
                small_phy)
        | inl absent ↦
            let t : (present (m.memory (pde_at dir virt)) == 0) ≡ true = ground (arith, absent) in
            let (r, e, got) = get_base_page-GotBasePage m.base sound.rounds in
            by high t z absent r e got
      ]
    ]
  where
    by :
        ltb virt userspace_bottom ≡ false
        → (present (m.memory (pde_at dir virt)) == 0) ≡ true
        → (dir == 0) ≡ false
        → present (m.memory (pde_at dir virt)) ≡ 0
        → (r : ℕ × BasePages) → get_base_page m.base ≡ some r
        → GotBasePage m.base r
        → Yields (userspace_map_page dir virt phy w wt cd m) (MapResult dir virt phy m)
    by high t z absent (page, base) e (inl (none_left, same, taken), rounds) =
        let u : (page == 0) ≡ true = ground (arith, none_left) in
        let kept : (q : ℕ) → IsTaken m q → IsTaken (record m { base = base }) q = λ q taken_q.
          (taken_q.0, ap (λ (bits : ℕ → ℕ). is_base_page_free bits q) same ∙ taken_q.1) in
        rw (high, userspace_map_page, t, e, userspace_map_page, z, u)
          (inr (inr (refl, taken, (IsSound-base dir m base sound rounds kept, λ v. refl))))
    by high t z absent (page, base) e (inr (is_page, marked), rounds) =
        let u : (page == 0) ≡ false = nonzero page is_page.0 in
        let sound1 = extended-IsSound dir m sound 1 virt absent page base is_page marked rounds in
        let same = extended-virt2phy dir m sound 1 virt absent page base is_page marked rounds in
        let there : present ((add_table dir 1 virt page base m).memory (pde_at dir virt)) ≡ 1 =
          ap present (new_pde dir m sound 1 virt absent page base is_page marked rounds)
          ∙ present-create_pte32 1 1 0 0 page in
        rw (high, userspace_map_page, t, e, userspace_map_page, z, u)
          (enter_ok-MapResult dir virt phy w wt cd m (add_table dir 1 virt page base m)
            (sound1, there, same) small_virt small_phy)
