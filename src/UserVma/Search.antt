-- ===== src/UserVma/Search.antt =====
-- The searches in the list of areas.
use zelda_os.Prelude.{
  ℕ, ◌≡◌, refl, inl, inr, Bool, false, ◌&&◌, ◌||◌, List, [], ◌∷◌, ltb, leb, ◌==◌, if◌then◌else◌,
  Bool-cases,
}
use zelda_os.UserVma.{
  VmArea, Areas, area_end, search_name, search_userspace_vma, search_userspace_vma_by_addr,
}
use zelda_os.Links.{Ptr, null}
use zelda_os.Links.Chain.{last_or}
use zelda_os.CStr.{strcmp}

abbrev pub contains : VmArea → ℕ → Bool
contains v a = leb v.virt_addr a && ltb a (area_end v)

-- the first area of the list that passes the test, or null
abbrev pub first_area : (Ptr → Bool) → List Ptr → Ptr
first_area test [] = null
first_area test (x ∷ xs) = if test x then x else first_area test xs

-- `search_userspace_vma_by_addr` returns the first area that contains the address, or NULL.
pub search_userspace_vma_by_addr-first_area :
    (areas : Areas) (xs : List Ptr) (a : ℕ)
    → search_userspace_vma_by_addr areas xs a ≡ first_area (λ x. contains (areas x) a) xs
unfolding search_userspace_vma_by_addr
search_userspace_vma_by_addr-first_area areas [] a = refl
search_userspace_vma_by_addr-first_area areas (x ∷ xs) a =
    rw (search_userspace_vma_by_addr-first_area areas xs a)

abbrev pub is_named : Areas → List ℕ → Ptr → Bool
is_named areas vma_name x = (strcmp vma_name (areas x).name).0 == (strcmp vma_name (areas x).name).1

-- some area of the list passes the test
abbrev pub any_area : (Ptr → Bool) → List Ptr → Bool
any_area test [] = false
any_area test (x ∷ xs) = test x || any_area test xs

search_name-cases :
    (areas : Areas) (vma_name : List ℕ) (last : Ptr) (xs : List Ptr)
    → search_name areas vma_name last xs ≡ (
        if any_area (is_named areas vma_name) xs
        then first_area (is_named areas vma_name) xs
        else last_or last xs)
unfolding search_name
search_name-cases areas vma_name last [] = refl
search_name-cases areas vma_name last (x ∷ xs) = elim (Bool-cases (is_named areas vma_name x)) [
  | inl named ↦ rw named
  | inr other ↦ rw (other, search_name-cases areas vma_name x xs)
]

-- `search_userspace_vma` returns the first area with the name if there is one. If there is none it
-- returns the last area of the list, and NULL only if the list is empty.
pub search_userspace_vma-cases :
    (areas : Areas) (xs : List Ptr) (vma_name : List ℕ)
    → search_userspace_vma areas xs vma_name ≡ (
        if any_area (is_named areas vma_name) xs
        then first_area (is_named areas vma_name) xs
        else last_or null xs)
unfolding search_userspace_vma
search_userspace_vma-cases areas xs vma_name = search_name-cases areas vma_name null xs
