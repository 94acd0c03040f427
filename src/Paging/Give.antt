-- ===== src/Paging/Give.antt =====
-- Giving pages out and taking them back.
use zelda_os.Prelude.{
  ℕ, ◌+◌, ◌*◌, ◌/◌, ◌%◌, ◌^◌, ◌≤◌, ◌<◌, ◌≡◌, refl, ◌⊎◌, inl, inr, true, false, Option, none, some,
  arith, ◌==◌, done, Ends-bind, Yields,
}
use zelda_os.KernelVma.{page_size}
use zelda_os.Paging.{Pages, occupy_run, find_run, enough, get_pages}
use zelda_os.Paging.Run.{IsRun, FirstRun, find_run-FirstRun}
use zelda_os.Paging.Occupy.{Changed, occupy_run-Changed}

module _ (start boundary : ℕ) where
  -- what `get_pages` comes to: the first run of free pages, or that there is none
  abbrev pub GivenRun : ℕ → Pages → ℕ × Pages → Type 0
  GivenRun n s (a, t) =
      ((a ≡ 0)
        × (t.free_page_bitmap ≡ s.free_page_bitmap)
        × FirstRun s.free_page_bitmap boundary start n none)
      ⊎ ((start ≤ a)
          × (a + page_size * n < boundary)
          × (a % page_size ≡ 0)
          × IsRun s.free_page_bitmap a n
          × Changed false s.free_page_bitmap t.free_page_bitmap a n)

  abbrev pub GotPages : ℕ → Pages → ℕ × Pages → Type 0
  GotPages n s r = GivenRun n s r × (r.1.fast_page_addr ≡ s.fast_page_addr)

  module _ (aligned : start % page_size ≡ 0) where
    aligned_test : (start % page_size == 0) ≡ true
    aligned_test = ground (arith, aligned)

    -- For a memory that starts at the address of a page, and a boundary that `nr_pages` + 1 pages
    -- do not take beyond 2 ^ 32, `get_pages` ends, fails no ASSERT, and returns the first of
    -- `nr_pages` free pages in a row, which it marks as occupied, or 0 if there is no such row of
    -- pages that ends below the boundary. It changes no other page.
    pub get_pages-GotPages :
        (nr_pages : ℕ) (s : Pages)
        → boundary + page_size * (nr_pages + 1) ≤ 2 ^ 32
        → Yields (get_pages start boundary nr_pages s) (GotPages nr_pages s)
    unfolding get_pages
    get_pages-GotPages n s room =
        let (o, e, first) =
          find_run-FirstRun s.free_page_bitmap boundary n room (boundary / page_size + 1) start
            aligned (omega arith) in
        by o e first
      where
        by :
            (o : Option ℕ)
            → find_run (enough start boundary) s.free_page_bitmap boundary start n ≡ some o
            → FirstRun s.free_page_bitmap boundary start n o
            → Yields (get_pages start boundary n s) (GotPages n s)
        by none e first = rw (e, get_pages, aligned_test) (inl (refl, refl, first), refl)
        by (some a) e (low, high, whole, run) =
            let occupied =
              occupy_run-Changed s.free_page_bitmap a n whole (omega (arith, high, room)) run in
            let r = occupy_run s.free_page_bitmap a n in
            rw (e, get_pages, aligned_test)
              (Ends-bind r (λ bitmap. done (a, record s { free_page_bitmap = bitmap }))
                (λ new. Changed false s.free_page_bitmap new a n) (GotPages n s) occupied
                (λ new c. (inr (low, high, whole, run, c), refl)))
