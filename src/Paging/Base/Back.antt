-- ===== src/Paging/Base/Back.antt =====
-- A page of the inventory that is given back.
use zelda_os.Prelude.{
  ℕ, ◌-◌, ◌/◌, ◌≤◌, ◌≡◌, refl, ◌≢◌, inl, inr, true, false, ◌||◌, arith, ltb, leb, Bool-cases,
}
use zelda_os.Paging.Bitmap.{mark_page_as_free-same, mark_page_as_free-other}
use zelda_os.Paging.Base.{
  BasePages, page_space_bottom, page_space_top, is_base_page_free, free_base_page,
}
use zelda_os.Paging.Base.Give.{IsBasePage}

-- The page is free, and no other page of the inventory is changed.
pub free_base_page-freed :
    (a : ℕ) (s : BasePages)
    → IsBasePage a
    → (is_base_page_free (free_base_page a s).free_base_page_bitmap a ≡ true)
      × ((b : ℕ)
          → page_space_bottom ≤ b
          → a / 4096 ≢ b / 4096
          → is_base_page_free (free_base_page a s).free_base_page_bitmap b
            ≡ is_base_page_free s.free_base_page_bitmap b)
unfolding free_base_page
free_base_page-freed a s page =
    let inside : (ltb a page_space_bottom || leb page_space_top a) ≡ false = within page in
    rw inside (
      mark_page_as_free-same s.free_base_page_bitmap (a - page_space_bottom) (a - page_space_bottom)
          refl,
      λ b from other.
          mark_page_as_free-other s.free_base_page_bitmap (a - page_space_bottom)
            (b - page_space_bottom) (λ e. other (omega (arith, e, page.0, from))),
    )
  where
    within : IsBasePage a → (ltb a page_space_bottom || leb page_space_top a) ≡ false
    within (low, high, whole) = ground arith

pub free_base_page-fast :
    (a : ℕ) (s : BasePages) → (free_base_page a s).fast_base_page_addr ≡ s.fast_base_page_addr
unfolding free_base_page
free_base_page-fast a s = elim (Bool-cases (ltb a page_space_bottom || leb page_space_top a)) [
  | inl out ↦ rw out refl
  | inr within ↦ rw within refl
]
