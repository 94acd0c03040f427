-- ===== src/Paging/Tables/Extend.antt =====
-- A new page table in the directory.
use zelda_os.Prelude.{
  ℕ, ◌+◌, ◌*◌, ◌%◌, ◌≤◌, ◌<◌, ◌≡◌, sym, ap, ◌∙◌, ◌≢◌, ◌⊎◌, inl, inr, arith, ltb, ◌==◌, ltb→lt,
  ==_iff, ==_false, Bool-cases,
}
use zelda_os.KernelVma.{page_size}
use zelda_os.Paging.Base.{BasePages}
use zelda_os.Paging.Base.Give.{IsBasePage, BaseMarked}
use zelda_os.Paging.Tables.{
  Machine, present, pg_frame, create_pde32, pd_index, pt_index, clear_page, pde_at, pte_at,
  add_table, virt2phy,
}
use zelda_os.Paging.Tables.Words.{
  store-same, store-other, clear_page-inside, clear_page-outside, pg_frame-create_pte32,
}
use zelda_os.Paging.Tables.Walk.{virt2phy-no_table, virt2phy-no_page, virt2phy-kept}
use zelda_os.Paging.Tables.Sound.{IsSound, IsTaken, pde, table_of, words_apart, free_is_new}
use zelda_os.Paging.Tables.Write.{pd_small, pt_small}

module _ (dir : ℕ) (m : Machine) (sound : IsSound dir m) (sup virt : ℕ)
    (absent : present (m.memory (pde_at dir virt)) ≡ 0) (t : ℕ) (base' : BasePages)
    (page : IsBasePage t)
    (marked : BaseMarked m.base.free_base_page_bitmap base'.free_base_page_bitmap t)
    (rounds' : base'.fast_base_page_addr % page_size ≡ 0) where
  abbrev pub extended : Machine
  extended = add_table dir sup virt t base' m

  new_page : (q : ℕ) → IsTaken m q → q ≢ t
  new_page q taken = free_is_new m t q marked.0 taken

  kept_word :
      (p k : ℕ)
      → p % page_size ≡ 0
      → p ≢ t
      → k < 1024
      → clear_page m.memory t (p + 4 * k) ≡ m.memory (p + 4 * k)
  kept_word p k whole other h =
      clear_page-outside m.memory t (p + 4 * k) (elim (Bool-cases (ltb p t)) [
        | inl below ↦ inl (let l : p < t = ltb→lt p t below in omega (arith, l, whole, page.2, h))
        | inr above ↦ inr (let l : t ≤ p = ground arith in omega (arith, l, other, whole, page.2))
      ])

  pub new_pde : pde extended dir (pd_index virt) ≡ create_pde32 1 sup 0 0 t
  new_pde = store-same (clear_page m.memory t) (pde_at dir virt) (create_pde32 1 sup 0 0 t)

  new_table : table_of extended dir (pd_index virt) ≡ t
  new_table =
      let f = pg_frame-create_pte32 1 sup 0 0 t in
      ap (λ (e : ℕ). pg_frame e * 4096) new_pde
      ∙ ap (λ (k : ℕ). k * 4096) f
      ∙ omega (arith, page.1, page.2)

  old_pde : (j : ℕ) → j < 1024 → j ≢ pd_index virt → pde extended dir j ≡ pde m dir j
  old_pde j h other =
      store-other (clear_page m.memory t) (pde_at dir virt) (create_pde32 1 sup 0 0 t) (dir + 4 * j)
        (λ e. other (omega (arith, e)))
      ∙ kept_word dir j sound.directory.0.2 (new_page dir sound.directory) h

  -- an entry is the new one or an old one
  Entry : ℕ → Type 0
  Entry j =
      (table_of extended dir j ≡ t × (j ≡ pd_index virt))
      ⊎ ((pde extended dir j ≡ pde m dir j) × (j ≢ pd_index virt))

  entries : (j : ℕ) → j < 1024 → Entry j
  unfolding Entry
  entries j h = elim (Bool-cases (j == pd_index virt)) [
    | inl same ↦
        let e : j ≡ pd_index virt = (==_iff j (pd_index virt)).0 same in
        inl (ap (λ (k : ℕ). table_of extended dir k) e ∙ new_table, e)
    | inr differ ↦
        let ne : j ≢ pd_index virt = ==_false j (pd_index virt) differ in inr (old_pde j h ne, ne)
  ]

  kept-IsTaken : (q : ℕ) → IsTaken m q → IsTaken extended q
  kept-IsTaken q taken = (
    taken.0,
    marked.2 q taken.0.0 (λ e. new_page q taken (omega (arith, e, taken.0.2, page.2))) ∙ taken.1,
  )

  pub extended-IsSound : IsSound dir extended
  unfolding Entry
  extended-IsSound = record {
    rounds = rounds';
    directory = kept-IsTaken dir sound.directory;
    tables = λ j h p. table_taken j h p (entries j h);
    apart = λ j h p. table_apart j h p (entries j h);
    distinct = λ j k hj hk ne pj pk. two j k hj hk ne pj pk (entries j hj) (entries k hk);
  }
    where
      table_taken :
          (j : ℕ)
          → j < 1024
          → present (pde extended dir j) ≡ 1
          → Entry j
          → IsTaken extended (table_of extended dir j)
      table_taken j h p (inl (e, at)) = rw e (page, marked.1)
      table_taken j h p (inr (e, other)) =
          rw e (kept-IsTaken (table_of m dir j) (sound.tables j h (sym (ap present e) ∙ p)))

      table_apart :
          (j : ℕ)
          → j < 1024
          → present (pde extended dir j) ≡ 1
          → Entry j
          → table_of extended dir j ≢ dir
      table_apart j h p (inl (e, at)) = λ x. new_page dir sound.directory (sym x ∙ e)
      table_apart j h p (inr (e, other)) = rw e (sound.apart j h (sym (ap present e) ∙ p))

      two :
          (j k : ℕ)
          → j < 1024
          → k < 1024
          → j ≢ k
          → present (pde extended dir j) ≡ 1
          → present (pde extended dir k) ≡ 1
          → Entry j
          → Entry k
          → table_of extended dir j ≢ table_of extended dir k
      two j k hj hk ne pj pk (inl (e, at)) (inl (f, at')) = absurd (ne (at ∙ sym at'))
      two j k hj hk ne pj pk (inl (e, at)) (inr (f, other)) = λ x.
          new_page (table_of m dir k) (sound.tables k hk (sym (ap present f) ∙ pk))
            (ap (λ (w : ℕ). pg_frame w * 4096) (sym f) ∙ sym x ∙ e)
      two j k hj hk ne pj pk (inr (e, other)) (inl (f, at)) = λ x.
          new_page (table_of m dir j) (sound.tables j hj (sym (ap present e) ∙ pj))
            (ap (λ (w : ℕ). pg_frame w * 4096) (sym e) ∙ x ∙ f)
      two j k hj hk ne pj pk (inr (e, other)) (inr (f, other')) =
          rw (e, f)
            (sound.distinct j k hj hk ne (sym (ap present e) ∙ pj) (sym (ap present f) ∙ pk))

  pub extended-virt2phy : (v : ℕ) → virt2phy extended.memory dir v ≡ virt2phy m.memory dir v
  unfolding Entry
  extended-virt2phy v = by (entries (pd_index v) (pd_small v))
    where
      by : Entry (pd_index v) → virt2phy extended.memory dir v ≡ virt2phy m.memory dir v
      by (inl (e, at)) =
          let was : present (m.memory (pde_at dir v)) ≡ 0 =
            ap (λ (k : ℕ). present (m.memory (dir + 4 * k))) at ∙ absent in
          let far : t + 4 * pt_index v ≢ pde_at dir virt =
            words_apart t dir (pt_index v) (pd_index virt) page.2 sound.directory.0.2
              (λ x. new_page dir sound.directory (sym x)) (pt_small v) (pd_small virt) in
          let empty : extended.memory (t + 4 * pt_index v) ≡ 0 =
            store-other (clear_page m.memory t) (pde_at dir virt) (create_pde32 1 sup 0 0 t)
              (t + 4 * pt_index v) far
            ∙ clear_page-inside m.memory t (t + 4 * pt_index v) (omega arith)
                (omega (arith, pt_small v)) in
          let entry : extended.memory (pte_at extended.memory dir v) ≡ 0 =
            ap (λ (p : ℕ). extended.memory (p + 4 * pt_index v)) e ∙ empty in
          virt2phy-no_page extended.memory dir v (ap present entry)
          ∙ sym (virt2phy-no_table m.memory dir v was)
      by (inr (e, other)) = virt2phy-kept m.memory extended.memory dir v e (λ there.
          let p : ℕ = table_of m dir (pd_index v) in
          let taken = sound.tables (pd_index v) (pd_small v) there in
          store-other (clear_page m.memory t) (pde_at dir virt) (create_pde32 1 sup 0 0 t)
            (p + 4 * pt_index v)
            (words_apart p dir (pt_index v) (pd_index virt) taken.0.2 sound.directory.0.2
              (sound.apart (pd_index v) (pd_small v) there) (pt_small v) (pd_small virt))
          ∙ kept_word p (pt_index v) taken.0.2 (new_page p taken) (pt_small v))
