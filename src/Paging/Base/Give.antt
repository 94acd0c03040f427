-- ===== src/Paging/Base/Give.antt =====
-- Giving out a page of the inventory.
use zelda_os.Prelude.{
  ℕ, ◌-◌, ◌/◌, ◌%◌, ◌≤◌, ◌<◌, ◌≡◌, refl, ◌≢◌, ◌⊎◌, inl, inr, true, false, ◌||◌, some, arith, ltb,
  leb, ◌==◌, ltb→lt, Bool-cases,
}
use zelda_os.KernelVma.{page_size}
use zelda_os.Paging.{mark_page_as_occupied}
use zelda_os.Paging.Bitmap.{mark_page_as_occupied-same, mark_page_as_occupied-other}
use zelda_os.Paging.Base.{
  BasePages, page_space_bottom, page_space_top, is_base_page_free, base_stop, base_rounds,
  base_search_start, get_base_page_fast, get_base_page_slow, get_base_page,
}
use zelda_os.Paging.Base.Stop.{AreTaken, IsStop, base_rounds-IsStop}

-- the address of a page of the inventory
abbrev pub IsBasePage : ℕ → Type 0
IsBasePage a = (page_space_bottom ≤ a) × (a < page_space_top) × (a % page_size ≡ 0)

-- The page was free and is now occupied, and no other page is changed.
abbrev pub BaseMarked : (old new : ℕ → ℕ) → ℕ → Type 0
BaseMarked old new a =
    (is_base_page_free old a ≡ true)
    × (is_base_page_free new a ≡ false)
    × ((b : ℕ)
        → page_space_bottom ≤ b
        → a / 4096 ≢ b / 4096
        → is_base_page_free new b ≡ is_base_page_free old b)

-- what `get_base_page` comes to: a free page, or that there is none
abbrev pub BaseGiven : BasePages → ℕ × BasePages → Type 0
BaseGiven s (a, t) =
    ((a ≡ 0)
      × (t.free_base_page_bitmap ≡ s.free_base_page_bitmap)
      × AreTaken s.free_base_page_bitmap page_space_bottom page_space_top)
    ⊎ (IsBasePage a × BaseMarked s.free_base_page_bitmap t.free_base_page_bitmap a)

abbrev pub GotBasePage : BasePages → ℕ × BasePages → Type 0
GotBasePage s r = BaseGiven s r × (r.1.fast_base_page_addr % page_size ≡ 0)

base_mark :
    (bitmap : ℕ → ℕ) (a : ℕ)
    → page_space_bottom ≤ a
    → is_base_page_free bitmap a ≡ true
    → BaseMarked bitmap (mark_page_as_occupied bitmap (a - page_space_bottom)) a
base_mark bitmap a low free = (
  free,
  mark_page_as_occupied-same bitmap (a - page_space_bottom) (a - page_space_bottom) refl,
  λ b from other.
      mark_page_as_occupied-other bitmap (a - page_space_bottom) (b - page_space_bottom)
        (λ e. other (omega (arith, e, low, from))),
)

pub nonzero : (p : ℕ) → page_space_bottom ≤ p → (p == 0) ≡ false
nonzero p low = ground arith

past_top : (p : ℕ) → ltb p page_space_top ≡ false → page_space_top ≤ p
past_top p h = ground arith

slow_GotBasePage :
    (s : BasePages)
    → s.fast_base_page_addr % page_size ≡ 0
    → (r : ℕ × BasePages) × (get_base_page_slow s ≡ some r) × GotBasePage s r
unfolding get_base_page_slow
slow_GotBasePage s whole =
    let (p, e, stop) =
      base_rounds-IsStop s.free_base_page_bitmap page_space_bottom refl (omega arith) in
    let (low, whole_p, free, taken) = stop in
    elim (Bool-cases (ltb p page_space_top)) [
      | inl within ↦
          let high : p < page_space_top = ltb→lt p page_space_top within in
          let marked = mark_page_as_occupied s.free_base_page_bitmap (p - page_space_bottom) in
          (
            (p, record s { free_base_page_bitmap = marked }),
            rw (e, get_base_page_slow, within) refl,
            (
              inr ((low, high, whole_p), base_mark s.free_base_page_bitmap p low (free high)),
              whole,
            ),
          )
      | inr out ↦ (
        (0, s),
        rw (e, get_base_page_slow, out) refl,
        (
          inl (
            refl,
            refl,
            λ b from to below whole_b.
                taken b from (omega (arith, to, past_top p out)) below whole_b,
          ),
          whole,
        ),
      )
    ]

base_search_start_lem :
    (s : BasePages)
    → s.fast_base_page_addr % page_size ≡ 0
    → (page_space_bottom ≤ base_search_start s) × (base_search_start s % page_size ≡ 0)
unfolding base_search_start
base_search_start_lem s whole =
    elim (Bool-cases
      (ltb s.fast_base_page_addr page_space_bottom || leb page_space_top s.fast_base_page_addr)) [
        | inl out ↦ rw out (omega arith, refl)
        | inr within ↦ rw within (ground arith, whole)
      ]

fast_GotBasePage :
    (s : BasePages) (p : ℕ)
    → page_space_bottom ≤ base_search_start s
    → base_stop base_rounds s.free_base_page_bitmap (base_search_start s) ≡ some p
    → IsStop s.free_base_page_bitmap (base_search_start s) p
    → (r : ℕ × BasePages) × (get_base_page s ≡ some r) × GotBasePage s r
unfolding get_base_page get_base_page_fast
fast_GotBasePage s p low_from e (low, whole_p, free, taken) =
    elim (Bool-cases (ltb p page_space_top)) [
      | inl within ↦
          let high : p < page_space_top = ltb→lt p page_space_top within in
          let low_p : page_space_bottom ≤ p = omega (arith, low, low_from) in
          let marked = mark_page_as_occupied s.free_base_page_bitmap (p - page_space_bottom) in
          (
            (p, record { free_base_page_bitmap = marked; fast_base_page_addr = p }),
            rw (e, get_base_page_fast, get_base_page, within, nonzero p low_p) refl,
            (
              inr ((low_p, high, whole_p), base_mark s.free_base_page_bitmap p low_p (free high)),
              whole_p,
            ),
          )
      | inr out ↦
          let t : BasePages = record s { fast_base_page_addr = p } in
          let (r, slow, got) = slow_GotBasePage t whole_p in
          (r, rw (e, get_base_page_fast, get_base_page, out) slow, got)
    ]

-- `get_base_page` ends, and returns a page of the inventory that was free, which it marks as
-- occupied, or 0 if none is free. It changes no other page.
pub get_base_page-GotBasePage :
    (s : BasePages)
    → s.fast_base_page_addr % page_size ≡ 0
    → (r : ℕ × BasePages) × (get_base_page s ≡ some r) × GotBasePage s r
get_base_page-GotBasePage s whole =
    let (low, whole_from) = base_search_start_lem s whole in
    let (p, e, stop) =
      base_rounds-IsStop s.free_base_page_bitmap (base_search_start s) whole_from low in
    fast_GotBasePage s p low e stop
