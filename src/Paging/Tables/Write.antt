-- ===== src/Paging/Tables/Write.antt =====
-- Writing one entry of a page table.
use zelda_os.Prelude.{
  ℕ, ◌+◌, ◌*◌, ◌/◌, ◌%◌, ◌^◌, ◌<◌, ◌≡◌, sym, ap, ◌∙◌, ◌≢◌, inl, inr, arith, ◌==◌, ==_iff, ==_false,
  Bool-cases,
}
use zelda_os.KernelVma.{page_size}
use zelda_os.Paging.Tables.{
  Machine, present, pg_frame, pd_index, pt_index, store, pde_at, pte_at, virt2phy,
}
use zelda_os.Paging.Tables.Words.{store-same, store-other}
use zelda_os.Paging.Tables.Walk.{virt2phy-kept}
use zelda_os.Paging.Tables.Sound.{IsSound, pde, table_of, words_apart}

pub pd_small : (v : ℕ) → pd_index v < 1024
pd_small v = omega arith

pub pt_small : (v : ℕ) → pt_index v < 1024
pt_small v = omega arith

module _ (dir : ℕ) (m : Machine) (sound : IsSound dir m) (virt entry : ℕ)
    (has_table : present (m.memory (pde_at dir virt)) ≡ 1) where
  abbrev pub written : Machine
  written = record m { memory = store m.memory (pte_at m.memory dir virt) entry }

  whole_dir : dir % page_size ≡ 0
  whole_dir = sound.directory.0.2

  -- the directory is not written to
  pub kept_pde : (i : ℕ) → i < 1024 → pde written dir i ≡ pde m dir i
  kept_pde i h =
      let t : ℕ = table_of m dir (pd_index virt) in
      let whole_t : t % page_size ≡ 0 =
        (sound.tables (pd_index virt) (pd_small virt) has_table).0.2 in
      let other : dir ≢ t = λ e. sound.apart (pd_index virt) (pd_small virt) has_table (sym e) in
      store-other m.memory (pte_at m.memory dir virt) entry (dir + 4 * i)
        (words_apart dir t i (pt_index virt) whole_dir whole_t other h (pt_small virt))

  pub written-IsSound : IsSound dir written
  written-IsSound = record {
    rounds = sound.rounds;
    directory = sound.directory;
    tables = λ i h p. rw (kept_pde i h) (sound.tables i h (was i h p));
    apart = λ i h p. rw (kept_pde i h) (sound.apart i h (was i h p));
    distinct = λ i j hi hj ne pi pj.
        rw (kept_pde i hi, kept_pde j hj) (sound.distinct i j hi hj ne (was i hi pi) (was j hj pj));
  }
    where
      was : (i : ℕ) → i < 1024 → present (pde written dir i) ≡ 1 → present (pde m dir i) ≡ 1
      was i h p = sym (ap present (kept_pde i h)) ∙ p

  pub written_at : written.memory (pte_at written.memory dir virt) ≡ entry
  written_at =
      ap (λ (e : ℕ). written.memory (pg_frame e * 4096 + 4 * pt_index virt))
        (kept_pde (pd_index virt) (pd_small virt))
      ∙ store-same m.memory (pte_at m.memory dir virt) entry

  pub written_there : present (written.memory (pde_at dir virt)) ≡ 1
  written_there = ap present (kept_pde (pd_index virt) (pd_small virt)) ∙ has_table

  pub written-others :
      virt < 2 ^ 32
      → (v : ℕ) → v < 2 ^ 32
      → v / 4096 ≢ virt / 4096
      → virt2phy written.memory dir v ≡ virt2phy m.memory dir v
  written-others small v small_v other =
      virt2phy-kept m.memory written.memory dir v (kept_pde (pd_index v) (pd_small v)) (λ there.
        store-other m.memory (pte_at m.memory dir virt) entry (pte_at m.memory dir v) (apart there))
    where
      apart :
          present (m.memory (pde_at dir v)) ≡ 1 → pte_at m.memory dir v ≢ pte_at m.memory dir virt
      apart there e = elim (Bool-cases (pd_index v == pd_index virt)) [
        | inl same ↦
            let p : pd_index v ≡ pd_index virt = (==_iff (pd_index v) (pd_index virt)).0 same in
            let q : pg_frame (m.memory (pde_at dir v)) ≡ pg_frame (m.memory (pde_at dir virt)) =
              ap (λ (k : ℕ). pg_frame (m.memory (dir + 4 * k))) p in
            other (omega (arith, e, q, p, small, small_v))
        | inr differ ↦
            let p : pd_index v ≢ pd_index virt = ==_false (pd_index v) (pd_index virt) differ in
            words_apart (table_of m dir (pd_index v)) (table_of m dir (pd_index virt)) (pt_index v)
              (pt_index virt) (omega arith) (omega arith)
              (sound.distinct (pd_index v) (pd_index virt) (pd_small v) (pd_small virt) p there
                has_table)
              (pt_small v) (pt_small virt) e
      ]
