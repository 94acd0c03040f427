-- ===== src/UserPaging/Leave.antt =====
-- `reclaim_page_table` gives back a table whose entries are all absent.
use zelda_os.Prelude.{
  ℕ, zero, suc, ◌+◌, ◌*◌, ◌%◌, ◌≤◌, ◌<◌, ◌≡◌, refl, sym, ap, subst, ◌∙◌, ◌≢◌, inl, inr, Bool, true,
  false, arith, ◌==◌, if◌then◌else◌, ==_iff, ==_false, Bool-cases, Ends,
}
use zelda_os.KernelVma.{page_size}
use zelda_os.Paging.Base.{free_base_page}
use zelda_os.Paging.Base.Back.{free_base_page-freed, free_base_page-fast}
use zelda_os.Paging.Tables.{Machine, present, pd_index, pt_index, store, pde_at, pte_at, virt2phy}
use zelda_os.Paging.Tables.Words.{store-same, store-other, present-cases}
use zelda_os.Paging.Tables.Walk.{virt2phy-no_table, virt2phy-no_page, virt2phy-kept}
use zelda_os.Paging.Tables.Sound.{IsSound, IsTaken, pde, table_of, words_apart}
use zelda_os.Paging.Tables.Write.{pd_small, pt_small}
use zelda_os.UserPaging.{any_present, table_entries, reclaim_page_table}
use zelda_os.UserPaging.Enter.{Unchanged, directory_test}

any_present-none :
    (memory : ℕ → ℕ) (t idx left : ℕ)
    → any_present memory t idx left ≡ false
    → (k : ℕ) → idx ≤ k
    → k < idx + left
    → present (memory (t + 4 * k)) ≡ 0
unfolding any_present
any_present-none memory t idx zero h k low high = absurd (omega (arith, low, high))
any_present-none memory t idx (suc left) h k low high =
    let rest : Bool = any_present memory t (idx + 1) left in
    elim (present-cases (memory (t + 4 * idx))) [
      | inr there ↦
          let y : (present (memory (t + 4 * idx)) == 0) ≡ false = ground (arith, there) in
          absurd (true_false (subst (λ (b : Bool). (if b then rest else true) ≡ false) y h))
      | inl absent ↦
          let y : (present (memory (t + 4 * idx)) == 0) ≡ true = ground (arith, absent) in
          let x : rest ≡ false = subst (λ (b : Bool). (if b then rest else true) ≡ false) y h in
          elim (Bool-cases (idx == k)) [
            | inl same ↦
                let p : idx ≡ k = (==_iff idx k).0 same in
                subst (λ (i : ℕ). present (memory (t + 4 * i)) ≡ 0) p absent
            | inr more ↦
                let far : idx ≢ k = ==_false idx k more in
                any_present-none memory t (idx + 1) left x k (omega (arith, low, far))
                  (omega (arith, high))
          ]
    ]
  where
    true_false : true ≡ false → ⊥
    true_false p = ground arith

module _ (dir : ℕ) (m : Machine) (sound : IsSound dir m) (virt : ℕ)
    (there : present (m.memory (pde_at dir virt)) ≡ 1)
    (empty : (k : ℕ)
      → k < 1024
      → present (m.memory (table_of m dir (pd_index virt) + 4 * k)) ≡ 0) where
  abbrev removed : Machine
  removed = record {
    memory = store m.memory (pde_at dir virt) 0;
    base = free_base_page (table_of m dir (pd_index virt)) m.base;
  }

  gone : pde removed dir (pd_index virt) ≡ 0
  gone = store-same m.memory (pde_at dir virt) 0

  kept_pde : (j : ℕ) → j ≢ pd_index virt → pde removed dir j ≡ pde m dir j
  kept_pde j other =
      store-other m.memory (pde_at dir virt) 0 (dir + 4 * j) (λ e. other (omega (arith, e)))

  -- an entry that is present is another one
  is_other : (j : ℕ) → present (pde removed dir j) ≡ 1 → j ≢ pd_index virt
  is_other j p e =
      let z : 0 ≡ 1 =
        sym (ap present gone) ∙ ap (λ (k : ℕ). present (pde removed dir k)) (sym e) ∙ p in
      omega (arith, z)

  kept-IsTaken : (q : ℕ) → IsTaken m q → q ≢ table_of m dir (pd_index virt) → IsTaken removed q
  kept-IsTaken q taken other =
      let page = (sound.tables (pd_index virt) (pd_small virt) there).0 in
      (
        taken.0,
        (free_base_page-freed (table_of m dir (pd_index virt)) m.base page).1 q taken.0.0
              (λ e. other (omega (arith, e, taken.0.2, page.2)))
            ∙ taken.1,
      )

  removed-IsSound : IsSound dir removed
  removed-IsSound = record {
    rounds =
        ap (λ (a : ℕ). a % page_size) (free_base_page-fast (table_of m dir (pd_index virt)) m.base)
        ∙ sound.rounds;
    directory =
        kept-IsTaken dir sound.directory
          (λ e. sound.apart (pd_index virt) (pd_small virt) there (sym e));
    tables = λ j h p.
        let other = is_other j p in
        let was = sym (ap present (kept_pde j other)) ∙ p in
        rw (kept_pde j other) (
          kept-IsTaken (table_of m dir j) (sound.tables j h was)
            (sound.distinct j (pd_index virt) h (pd_small virt) other was there));
    apart = λ j h p.
        let other = is_other j p in
        rw (kept_pde j other) (sound.apart j h (sym (ap present (kept_pde j other)) ∙ p));
    distinct = λ i j hi hj ne pi pj.
        let oi = is_other i pi in
        let oj = is_other j pj in
        rw (kept_pde i oi, kept_pde j oj)
          (sound.distinct i j hi hj ne (sym (ap present (kept_pde i oi)) ∙ pi)
            (sym (ap present (kept_pde j oj)) ∙ pj));
  }

  removed-virt2phy : (v : ℕ) → virt2phy removed.memory dir v ≡ virt2phy m.memory dir v
  removed-virt2phy v = elim (Bool-cases (pd_index v == pd_index virt)) [
    | inl same ↦
        let e : pd_index v ≡ pd_index virt = (==_iff (pd_index v) (pd_index virt)).0 same in
        let now : present (removed.memory (pde_at dir v)) ≡ 0 =
          ap (λ (k : ℕ). present (pde removed dir k)) e ∙ ap present gone in
        let was : present (m.memory (pte_at m.memory dir v)) ≡ 0 =
          ap (λ (k : ℕ). present (m.memory (table_of m dir k + 4 * pt_index v))) e
          ∙ empty (pt_index v) (pt_small v) in
        virt2phy-no_table removed.memory dir v now ∙ sym (virt2phy-no_page m.memory dir v was)
    | inr differ ↦
        let other : pd_index v ≢ pd_index virt = ==_false (pd_index v) (pd_index virt) differ in
        virt2phy-kept m.memory removed.memory dir v (kept_pde (pd_index v) other) (λ present_v.
          let taken = sound.tables (pd_index v) (pd_small v) present_v in
          store-other m.memory (pde_at dir virt) 0 (pte_at m.memory dir v) (
            words_apart (table_of m dir (pd_index v)) dir (pt_index v) (pd_index virt) taken.0.2
              sound.directory.0.2 (sound.apart (pd_index v) (pd_small v) present_v) (pt_small v)
              (pd_small virt)))
  ]

-- For a directory whose tables are different pages in use, `reclaim_page_table` fails no ASSERT; no
-- page is mapped differently, and the tables are different pages in use again.
pub reclaim_page_table-Unchanged :
    (dir virt : ℕ) (m : Machine)
    → IsSound dir m
    → Ends (reclaim_page_table dir virt m) (λ r. Unchanged dir m r.1)
unfolding reclaim_page_table table_entries
reclaim_page_table-Unchanged dir virt m sound =
    let z = directory_test dir sound.directory.0 in
    elim (present-cases (m.memory (pde_at dir virt))) [
      | inl absent ↦
          let y : (present (m.memory (pde_at dir virt)) == 0) ≡ true = ground (arith, absent) in
          rw (z, y) (sound, λ v. refl)
      | inr there ↦
          let y : (present (m.memory (pde_at dir virt)) == 0) ≡ false = ground (arith, there) in
          elim (Bool-cases
            (any_present m.memory (table_of m dir (pd_index virt)) 0 table_entries)) [
              | inl busy ↦ rw (z, y, busy) (sound, λ v. refl)
              | inr idle ↦
                  let empty : (k : ℕ)
                      → k < 1024
                      → present (m.memory (table_of m dir (pd_index virt) + 4 * k)) ≡ 0 =
                    λ k h.
                      any_present-none m.memory (table_of m dir (pd_index virt)) 0 1024 idle k
                        (omega arith) (omega (arith, h)) in
                  rw (z, y, idle)
                    (
                      removed-IsSound dir m sound virt there empty,
                      removed-virt2phy dir m sound virt there empty,
                    )
            ]
    ]
