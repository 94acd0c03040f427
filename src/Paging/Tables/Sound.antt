-- ===== src/Paging/Tables/Sound.antt =====
-- When a page directory is in order.
use zelda_os.Prelude.{ℕ, ◌+◌, ◌*◌, ◌%◌, ◌<◌, ◌≡◌, subst, ◌≢◌, true, false, arith}
use zelda_os.KernelVma.{page_size}
use zelda_os.Paging.Base.{BasePages, is_base_page_free}
use zelda_os.Paging.Base.Give.{IsBasePage}
use zelda_os.Paging.Tables.{Machine, present, pg_frame}

-- a page of the inventory that is in use
abbrev pub IsTaken : Machine → ℕ → Type 0
IsTaken m p = IsBasePage p × (is_base_page_free m.base.free_base_page_bitmap p ≡ false)

-- the entry `i` of the directory
abbrev pub pde : Machine → (dir i : ℕ) → ℕ
pde m dir i = m.memory (dir + 4 * i)

-- the page table that an entry leads to
abbrev pub table_of : Machine → (dir i : ℕ) → ℕ
table_of m dir i = pg_frame (pde m dir i) * 4096

-- The directory and its page tables are pages of the inventory that are in use, and all different.
pub record IsSound (dir : ℕ) (m : Machine) : Type 0 where
  pub rounds : m.base.fast_base_page_addr % page_size ≡ 0
  pub directory : IsTaken m dir
  pub tables : (i : ℕ) → i < 1024 → present (pde m dir i) ≡ 1 → IsTaken m (table_of m dir i)
  pub apart : (i : ℕ) → i < 1024 → present (pde m dir i) ≡ 1 → table_of m dir i ≢ dir
  pub distinct :
      (i j : ℕ)
      → i < 1024
      → j < 1024
      → i ≢ j
      → present (pde m dir i) ≡ 1
      → present (pde m dir j) ≡ 1
      → table_of m dir i ≢ table_of m dir j

-- words of different pages
pub words_apart :
    (p q i j : ℕ)
    → p % page_size ≡ 0
    → q % page_size ≡ 0
    → p ≢ q
    → i < 1024
    → j < 1024
    → p + 4 * i ≢ q + 4 * j
words_apart p q i j wp wq h li lj e = h (omega (arith, wp, wq, li, lj, e))

-- a page that was free is none of those in use
pub free_is_new :
    (m : Machine) (p q : ℕ)
    → is_base_page_free m.base.free_base_page_bitmap p ≡ true
    → IsTaken m q
    → q ≢ p
free_is_new m p q free taken e =
    let same : is_base_page_free m.base.free_base_page_bitmap p ≡ false =
      subst (λ (x : ℕ). is_base_page_free m.base.free_base_page_bitmap x ≡ false) e taken.1 in
    absurd (ground (arith, free, same))

-- The pages of the inventory may change as long as those in use stay so.
pub IsSound-base :
    (dir : ℕ) (m : Machine) (base : BasePages)
    → IsSound dir m
    → base.fast_base_page_addr % page_size ≡ 0
    → ((q : ℕ) → IsTaken m q → IsTaken (record m { base = base }) q)
    → IsSound dir (record m { base = base })
IsSound-base dir m base sound rounds kept = record {
  rounds = rounds;
  directory = kept dir sound.directory;
  tables = λ i h p. kept (table_of m dir i) (sound.tables i h p);
  apart = sound.apart;
  distinct = sound.distinct;
}
