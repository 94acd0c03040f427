-- ===== src/KernelVma/Map.antt =====
-- `kernel_map_vma`: a gap is found and registered.
use zelda_os.Prelude.{
  ℕ, suc, ◌+◌, ◌≤◌, ◌<◌, ◌≡◌, refl, ◌⊎◌, inl, inr, Bool, true, false, Option, none, some, List, [],
  ◌∷◌, arith, ◌==◌, Bool-cases, length, get_or, take, Outcome, done, panic, Ends,
}
use zelda_os.KernelVma.{
  KernelVma, Table, end_of, covers, no_vma, page_round, search_free_kernel_virtual_address,
  kernel_map_vma,
}
use zelda_os.KernelVma.Search.{is_taken}
use zelda_os.KernelVma.Register.{first_free, NonePremap, entered, register_kernel_vma-registered}
use zelda_os.KernelVma.Free.{
  AreSeparate, IsGap, IsGapOrNull, search_free_kernel_virtual_address-IsGap,
}

-- An address of a gap is in no area in use.
outside_areas :
    (vs : Table) (a : ℕ)
    → ((j : ℕ)
        → j < length vs
        → (get_or vs j no_vma).present ≡ true
        → ((get_or vs j no_vma).virt_addr + (get_or vs j no_vma).length ≤ a)
          ⊎ (a < (get_or vs j no_vma).virt_addr))
    → is_taken vs a ≡ false
outside_areas [] a clear = refl
outside_areas (v ∷ vs) a clear =
    let rest = outside_areas vs a (λ j l u. clear (suc j) (omega arith) u) in
    elim (Bool-cases v.present) [
      | inr absent ↦ simp (absent, rest)
      | inl used ↦
          let side = clear 0 (omega arith) used in
          let miss : covers v a ≡ false = uncovered v a side in simp (used, miss, rest)
    ]
  where
    uncovered :
        (v : KernelVma) (a : ℕ)
        → (v.virt_addr + v.length ≤ a) ⊎ (a < v.virt_addr)
        → covers v a ≡ false
    uncovered v a (inl below) =
        let small : end_of v ≤ v.virt_addr + v.length = omega arith in ground arith
    uncovered v a (inr above) = ground arith

-- the area that `kernel_map_vma` registers at `a`
abbrev pub mapped_at :
    (name : List ℕ) → (premap : Bool) → (phy_addr len : ℕ) → (w t d : Bool) → ℕ → KernelVma
mapped_at name premap phy len w t d a = record no_vma {
  name = take 64 name;
  exact = true;
  write_permission = w;
  page_writethrough = t;
  page_cachedisable = d;
  premap = premap;
  virt_addr = a;
  phy_addr = phy;
  length = len;
}

abbrev pub Maps {ℓ} : {A : Type ℓ} → Option (Outcome A) → (A → Type 0) → Type 0
Maps none P = ⊥
Maps (some r) P = Ends r P

module _ {Paging : Type 0} (get_page : Paging → ℕ × Paging)
    (kernel_map_page : Paging
      → (linear phy : ℕ) → (writable writethrough cachedisable : Bool) → Paging) where
  -- If the areas in use are separate, no slot has its `premap` bit set and a slot is free,
  -- `kernel_map_vma` fails no ASSERT. It returns null and changes nothing, or returns the start of a
  -- gap of more than the rounded length and enters the area there into the first free slot. It maps
  -- no page, whatever `premap` is.
  pub kernel_map_vma-IsGap :
      (fuel : ℕ) (vs : Table) (s : Paging) (name : List ℕ) (exact premap : Bool) (phy len : ℕ)
      (w t d : Bool) (i : ℕ)
      → AreSeparate vs
      → NonePremap vs
      → first_free vs 0 ≡ some i
      → Maps
          (kernel_map_vma get_page kernel_map_page fuel vs s name exact premap phy len w t d)
          (λ r.
            ((r.0 ≡ 0) × (r.1 ≡ vs) × (r.2 ≡ s))
            ⊎ (IsGap vs (page_round len) r.0
                × (r.1 ≡ (entered vs (mapped_at name premap phy len w t d r.0) (some i)).1)
                × (r.2 ≡ s)))
  unfolding kernel_map_vma
  kernel_map_vma-IsGap fuel vs s name exact premap phy len w t d i separate off free =
      by_gap (search_free_kernel_virtual_address vs len) refl
        (search_free_kernel_virtual_address-IsGap vs len separate)
    where
      by_gap :
          (o : Outcome ℕ)
          → search_free_kernel_virtual_address vs len ≡ o
          → Ends o (IsGapOrNull vs (page_round len))
          → Maps
              (kernel_map_vma get_page kernel_map_page fuel vs s name exact premap phy len w t d)
              (λ r.
                ((r.0 ≡ 0) × (r.1 ≡ vs) × (r.2 ≡ s))
                ⊎ (IsGap vs (page_round len) r.0
                    × (r.1 ≡ (entered vs (mapped_at name premap phy len w t d r.0) (some i)).1)
                    × (r.2 ≡ s)))
      by_gap panic e h = absurd h
      by_gap (done a) e h = elim (Bool-cases (a == 0)) [
        | inl null_found ↦ rw (e, kernel_map_vma, null_found) (inl (refl, refl, refl))
        | inr some_found ↦
            let gap = h (ground arith) in
            let clear : is_taken vs a ≡ false =
              outside_areas vs a (λ j l u. let side = gap.1 j l u in ground arith) in
            let run =
              register_kernel_vma-registered get_page kernel_map_page fuel vs s
                (mapped_at name premap phy len w t d a) off in
            rw (e, kernel_map_vma, some_found, run.0, clear, free) (inr (gap, refl, refl))
      ]
