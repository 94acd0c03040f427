-- ===== src/Paging/Back.antt =====
-- Pages that are given back are free again, as they were before they were given out.
use zelda_os.Prelude.{
  ℕ, ◌+◌, ◌-◌, ◌*◌, ◌/◌, ◌%◌, ◌^◌, ◌≤◌, ◌<◌, ◌≡◌, sym, ◌∙◌, ◌⊎◌, inl, inr, true, false, arith, ltb,
  leb, ltb→lt, leb→le, Bool-cases, Yields, Yields-weaken,
}
use zelda_os.KernelVma.{page_size}
use zelda_os.Paging.{Pages, is_page_free, get_pages, free_pages}
use zelda_os.Paging.Bitmap.{is_page_free-frame}
use zelda_os.Paging.Run.{IsRun}
use zelda_os.Paging.Occupy.{Changed, free_pages-Changed}
use zelda_os.Paging.Give.{GivenRun, GotPages, get_pages-GotPages}

module _ (old mid new : ℕ → ℕ) (a n : ℕ) (aligned : a % page_size ≡ 0) where
  undone :
      IsRun old a n
      → Changed false old mid a n
      → Changed true mid new a n
      → (b : ℕ) → is_page_free new b ≡ is_page_free old b
  undone run taken freed b = elim (Bool-cases (ltb b a)) [
    | inl below ↦ let h : b < a = ltb→lt b a below in freed.1 b (inl h) ∙ taken.1 b (inl h)
    | inr from ↦ elim (Bool-cases (leb (a + page_size * n) b)) [
      | inl above ↦
          let h : a + page_size * n ≤ b = leb→le (a + page_size * n) b above in
          freed.1 b (inr h) ∙ taken.1 b (inr h)
      | inr below ↦
          let k : ℕ = (b - a) / page_size in
          let low : a ≤ b = ground arith in
          let high : b < a + page_size * n = ground arith in
          let same : b / 4096 ≡ (a + page_size * k) / 4096 = omega (arith, low, aligned) in
          let within : k < n = omega (arith, low, high) in
          is_page_free-frame new b (a + page_size * k) same
          ∙ freed.0 k within
          ∙ sym (run k within)
          ∙ sym (is_page_free-frame old b (a + page_size * k) same)
    ]
  ]

-- the pages are back
abbrev pub Restored : Pages → (n : ℕ) → ℕ × Pages → Type 0
Restored s n (a, t) =
    (a ≡ 0)
    ⊎ ((b : ℕ)
        → is_page_free (free_pages a n t).free_page_bitmap b ≡ is_page_free s.free_page_bitmap b)

-- For a memory that starts at the address of a page, and a boundary that `n` + 1 pages do not
-- take beyond 2 ^ 32, `get_pages` returns 0, or giving back what it has returned leaves every
-- page of the bitmap as free or as occupied as it was before.
pub free_pages-get_pages :
    (start boundary n : ℕ) (s : Pages)
    → start % page_size ≡ 0
    → boundary + page_size * (n + 1) ≤ 2 ^ 32
    → Yields (get_pages start boundary n s) (Restored s n)
free_pages-get_pages start boundary n s aligned room =
    Yields-weaken (get_pages start boundary n s) (GotPages start boundary n s) (Restored s n)
      (get_pages-GotPages start boundary aligned n s room) (λ r g. by r g.0)
  where
    by : (r : ℕ × Pages) → GivenRun start boundary n s r → Restored s n r
    by r (inl nothing) = inl nothing.0
    by (a, t) (inr (low, high, whole, run, c)) = inr (
        undone s.free_page_bitmap t.free_page_bitmap (free_pages a n t).free_page_bitmap a n whole
          run c (free_pages-Changed t a n whole (omega (arith, high, room))))
