-- ===== src/Paging/Tables/Tests.antt =====
-- The theorems on the first pages of the inventory, and an empty directory.
use zelda_os.Prelude.{ℕ, ◌≡◌, refl, Option, some, arith, ◌==◌, if◌then◌else◌, Outcome, done}
use zelda_os.Paging.{bit, set_bit, is_page_free, mark_page_as_occupied}
use zelda_os.Paging.Base.{
  BasePages, base_stop, base_rounds, base_search_start, get_base_page_fast, get_base_page,
}
use zelda_os.Paging.Tables.{
  Machine, store, clear_page, enter, with_table, kernel_map_page, virt2phy,
}
use zelda_os.Paging.Tables.Sound.{IsSound}
use zelda_os.Paging.Tables.Map.{OrFull, kernel_map_page-Mapped}
use zelda_os.Paging.Tables.Enter.{Mapped}

-- the first page of the inventory is in use
abbrev one_taken : BasePages
one_taken = record {
  free_base_page_bitmap = λ i. if i == 0 then 1 else 0;
  fast_base_page_addr = 67108864;
}

-- it is a directory without tables
abbrev empty_directory : Machine
empty_directory = record { memory = λ a. 0; base = one_taken }

empty_directory-IsSound : IsSound 67108864 empty_directory
unfolding is_page_free bit
empty_directory-IsSound = record {
  rounds = refl;
  directory = ((omega arith, omega arith, refl), refl);
  tables = λ i h p. absurd (omega (arith, p));
  apart = λ i h p. absurd (omega (arith, p));
  distinct = λ i j hi hj ne p q. absurd (omega (arith, p));
}

kernel_map_page-Mapped_example :
    (r : Outcome Machine) × (kernel_map_page 67108864 1048580 2097152 1 0 0 empty_directory
      ≡ some r)
    × OrFull empty_directory (Mapped 67108864 1048580 2097152 empty_directory) r
kernel_map_page-Mapped_example =
    kernel_map_page-Mapped 67108864 empty_directory 1048580 2097152 1 0 0 empty_directory-IsSound
      (omega arith) (omega arith)

found : Option (Outcome Machine) → ℕ
found (some (done m)) = virt2phy m.memory 67108864 1048580
found r = 1

mapped_lem : found (kernel_map_page 67108864 1048580 2097152 1 0 0 empty_directory) ≡ 2097156
unfolding found kernel_map_page with_table enter virt2phy get_base_page get_base_page_fast
    base_search_start base_rounds base_stop store clear_page is_page_free mark_page_as_occupied bit
    set_bit
mapped_lem = refl
