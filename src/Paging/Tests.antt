-- ===== src/Paging/Tests.antt =====
-- The theorems on a memory of four pages behind 1 MB.
use zelda_os.Prelude.{ℕ, ◌≡◌, refl, Option, some, arith, ◌==◌, if◌then◌else◌, Outcome, done, Yields}
use zelda_os.Paging.{
  Pages, bit, set_bit, is_page_free, mark_page_as_occupied, free_run, occupy_run, find_run,
  fast_scan, get_pages, get_page_fast, get_page,
}
use zelda_os.Paging.Page.{GotPage, get_page-GotPage}
use zelda_os.Paging.Give.{GotPages, get_pages-GotPages}
use zelda_os.Paging.Back.{Restored, free_pages-get_pages}

-- the first of the pages is occupied
abbrev four_pages : Pages
four_pages = record { free_page_bitmap = λ i. if i == 32 then 1 else 0; fast_page_addr = 0 }

get_page-GotPage_example :
    Yields (get_page 1048576 1064960 four_pages) (GotPage 1048576 1064960 refl four_pages)
get_page-GotPage_example =
    get_page-GotPage 1048576 1064960 refl (omega arith) (omega arith) four_pages refl

get_pages-GotPages_example :
    Yields (get_pages 1048576 1064960 2 four_pages) (GotPages 1048576 1064960 2 four_pages)
get_pages-GotPages_example = get_pages-GotPages 1048576 1064960 refl 2 four_pages (omega arith)

free_pages-get_pages_example :
    Yields (get_pages 1048576 1064960 2 four_pages) (Restored four_pages 2)
free_pages-get_pages_example = free_pages-get_pages 1048576 1064960 2 four_pages refl (omega arith)

given : Option (Outcome (ℕ × Pages)) → ℕ
given (some (done (a, s))) = a
given r = 1

second_page : given (get_page 1048576 1064960 four_pages) ≡ 1052672
unfolding given get_page get_page_fast fast_scan is_page_free mark_page_as_occupied bit set_bit
second_page = refl

two_pages : given (get_pages 1048576 1064960 2 four_pages) ≡ 1052672
unfolding given get_pages find_run free_run occupy_run is_page_free mark_page_as_occupied bit
    set_bit
two_pages = refl

-- The search leaves out a run that ends at the boundary.
three_pages : given (get_pages 1048576 1064960 3 four_pages) ≡ 0
unfolding given get_pages find_run free_run occupy_run is_page_free mark_page_as_occupied bit
    set_bit
three_pages = refl
