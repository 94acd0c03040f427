-- ===== src/Paging/Base.antt =====
-- memory/paging.c: the pages of the page inventory, of which page directories and tables are made.
-- Their bitmap is laid out as that of the other pages, from the bottom of the inventory on.
pub mod Stop
pub mod Give
pub mod Back
use zelda_os.Prelude.{
  ℕ, zero, suc, ◌+◌, ◌-◌, Bool, true, false, ◌||◌, Option, none, some, ltb, leb, ◌==◌,
  if◌then◌else◌,
}
use zelda_os.KernelVma.{page_size}
use zelda_os.Paging.{is_page_free, mark_page_as_occupied, mark_page_as_free}

-- PAGE_SPACE_BOTTOM and PAGE_SPACE_TOP
abbrev pub page_space_bottom : ℕ
page_space_bottom = 67108864

abbrev pub page_space_top : ℕ
page_space_top = 134217728

-- free_base_page_bitmap and fast_base_page_addr
pub record BasePages : Type 0 where
  pub free_base_page_bitmap : ℕ → ℕ
  pub fast_base_page_addr : ℕ

-- !(free_base_page_bitmap[byte_idx] & bit_set_mask)
abbrev pub is_base_page_free : (ℕ → ℕ) → (addr : ℕ) → Bool
is_base_page_free bitmap addr = is_page_free bitmap (addr - page_space_bottom)

-- the loop that both searches are: the address at which it ends, that of a free page or the top
unfoldable pub base_stop : ℕ → (bitmap : ℕ → ℕ) → (addr : ℕ) → Option ℕ
base_stop zero bitmap addr = none
base_stop (suc fuel) bitmap addr = elim (ltb addr page_space_top) [
  | false ↦ some addr
  | true ↦ elim (is_base_page_free bitmap addr) [
    | true ↦ some addr
    | false ↦ base_stop fuel bitmap (addr + page_size)
  ]
]

-- more rounds than there are pages
unfoldable pub base_rounds : ℕ
base_rounds = suc 16384

unfoldable pub base_search_start : BasePages → ℕ
base_search_start s =
    let addr = s.fast_base_page_addr in
    if ltb addr page_space_bottom || leb page_space_top addr then page_space_bottom else addr

unfoldable pub get_base_page_fast : BasePages → Option (ℕ × BasePages)
unfolding base_rounds base_stop mark_page_as_occupied
get_base_page_fast s = elim (base_stop base_rounds s.free_base_page_bitmap (base_search_start s)) [
  | none ↦ none
  | some stop ↦
      if ltb stop page_space_top
      then some (
        stop,
        record {
          free_base_page_bitmap =
              mark_page_as_occupied s.free_base_page_bitmap (stop - page_space_bottom);
          fast_base_page_addr = stop;
        },
      )
      else some (0, record s { fast_base_page_addr = stop })
]

unfoldable pub get_base_page_slow : BasePages → Option (ℕ × BasePages)
unfolding base_rounds base_stop mark_page_as_occupied
get_base_page_slow s = elim (base_stop base_rounds s.free_base_page_bitmap page_space_bottom) [
  | none ↦ none
  | some stop ↦
      if ltb stop page_space_top
      then some (
        stop,
        record s {
          free_base_page_bitmap =
              mark_page_as_occupied s.free_base_page_bitmap (stop - page_space_bottom);
        },
      )
      else some (0, s)
]

unfoldable pub get_base_page : BasePages → Option (ℕ × BasePages)
unfolding get_base_page_fast get_base_page_slow
get_base_page s = elim (get_base_page_fast s) [
  | none ↦ none
  | some (page, t) ↦ if page == 0 then get_base_page_slow t else some (page, t)
]

unfoldable pub free_base_page : (page : ℕ) → BasePages → BasePages
unfolding mark_page_as_free
free_base_page page s =
    if ltb page page_space_bottom || leb page_space_top page then s else record s {
      free_base_page_bitmap = mark_page_as_free s.free_base_page_bitmap (page - page_space_bottom);
    }
