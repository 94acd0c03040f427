-- ===== src/Paging.antt =====
-- memory/paging.c, memory/include/paging.h: the bitmap of the pages of physical memory, and giving
-- pages out and taking them back. A bitmap is a function from the index of a byte to the byte.
-- Addresses are `uint32_t`. What memory/physical_memory.c finds out at boot time is a parameter: the
-- start of the memory behind the kernel, and its boundary.
pub mod Bits
pub mod Bitmap
pub mod Scan
pub mod Run
pub mod Occupy
pub mod Give
pub mod Page
pub mod Back
pub mod Base
pub mod Tables
mod Tests
use zelda_os.Prelude.{
  ℕ, zero, suc, ◌+◌, ◌*◌, ◌/◌, ◌%◌, ◌^◌, Bool, true, false, not, ◌||◌, Option, none, some, ltb, leb,
  ◌==◌, if◌then◌else◌, Outcome, done, panic, ◌>>=◌, ◌>>◌, ensure,
}
use zelda_os.KernelVma.{page_size}

-- the bit `i` of a byte
unfoldable pub bit : ℕ → (i : ℕ) → ℕ
bit x zero = x % 2
bit x (suc i) = bit (x / 2) i

-- x | 1 << i
unfoldable pub set_bit : ℕ → (i : ℕ) → ℕ
set_bit x zero = x / 2 * 2 + 1
set_bit x (suc i) = set_bit (x / 2) i * 2 + x % 2

-- x & ~(1 << i)
unfoldable pub clear_bit : ℕ → (i : ℕ) → ℕ
clear_bit x zero = x / 2 * 2
clear_bit x (suc i) = clear_bit (x / 2) i * 2 + x % 2

-- AT_BYTE and AT_BIT
abbrev pub at_byte : ℕ → ℕ
at_byte frame = frame / 8

abbrev pub at_bit : ℕ → ℕ
at_bit frame = frame % 8

-- IS_PAGE_FREE
unfoldable pub is_page_free : (ℕ → ℕ) → (addr : ℕ) → Bool
unfolding bit
is_page_free bitmap addr = bit (bitmap (at_byte (addr / 4096))) (at_bit (addr / 4096)) == 0

-- MARK_PAGE_AS_OCCUPIED
unfoldable pub mark_page_as_occupied : (ℕ → ℕ) → (addr : ℕ) → ℕ → ℕ
unfolding set_bit
mark_page_as_occupied bitmap addr i =
    if i == at_byte (addr / 4096) then set_bit (bitmap i) (at_bit (addr / 4096)) else bitmap i

-- MAKR_PAGE_AS_FREE
unfoldable pub mark_page_as_free : (ℕ → ℕ) → (addr : ℕ) → ℕ → ℕ
unfolding clear_bit
mark_page_as_free bitmap addr i =
    if i == at_byte (addr / 4096) then clear_bit (bitmap i) (at_bit (addr / 4096)) else bitmap i

-- free_page_bitmap and fast_page_addr
pub record Pages : Type 0 where
  pub free_page_bitmap : ℕ → ℕ
  pub fast_page_addr : ℕ

-- the inner loop of `get_pages`: how many of the pages from the address on are free, up to `n`
unfoldable pub free_run : (ℕ → ℕ) → (addr n : ℕ) → ℕ
unfolding is_page_free
free_run bitmap addr zero = 0
free_run bitmap addr (suc n) =
    let rest = free_run bitmap ((addr + page_size) % 2 ^ 32) n in
    if is_page_free bitmap addr then suc rest else 0

-- the last loop of `get_pages`
unfoldable pub occupy_run : (ℕ → ℕ) → (addr n : ℕ) → Outcome (ℕ → ℕ)
unfolding is_page_free mark_page_as_occupied
occupy_run bitmap addr zero = done bitmap
occupy_run bitmap addr (suc n) =
    let bitmap' = mark_page_as_occupied bitmap addr in
    ensure (is_page_free bitmap addr)
    >> ensure (not (is_page_free bitmap' addr))
    >> occupy_run bitmap' ((addr + page_size) % 2 ^ 32) n

-- the outer loop of `get_pages`: the address of the first page of the run, if there is one
unfoldable pub find_run : ℕ → (ℕ → ℕ) → (boundary addr nr_pages : ℕ) → Option (Option ℕ)
unfolding free_run
find_run zero bitmap boundary addr nr_pages = none
find_run (suc fuel) bitmap boundary addr nr_pages =
    let idx = free_run bitmap addr nr_pages in
    elim (ltb addr boundary) [
      | false ↦ some none
      | true ↦ elim (leb boundary ((addr + page_size * nr_pages) % 2 ^ 32)) [
        | true ↦ some none
        | false ↦ elim (idx == nr_pages) [
          | true ↦ some (some addr)
          | false ↦ find_run fuel bitmap boundary ((addr + page_size * (idx + 1)) % 2 ^ 32) nr_pages
        ]
      ]
    ]

-- the loop of `get_page_fast`
unfoldable pub fast_scan : ℕ → (boundary : ℕ) → Pages → Option (Outcome (ℕ × Pages))
unfolding is_page_free mark_page_as_occupied
fast_scan zero boundary s = none
fast_scan (suc fuel) boundary s =
    let addr = s.fast_page_addr in
    let next = (addr + page_size) % 2 ^ 32 in
    let bitmap' = mark_page_as_occupied s.free_page_bitmap addr in
    elim (ltb addr boundary) [
      | false ↦ some (done (0, s))
      | true ↦ elim (is_page_free s.free_page_bitmap addr) [
        | true ↦ some (
            ensure (not (is_page_free bitmap' addr))
            >> done (addr, record { free_page_bitmap = bitmap'; fast_page_addr = next }))
        | false ↦ fast_scan fuel boundary (record s { fast_page_addr = next })
      ]
    ]

module _ (start boundary : ℕ) where
  -- more rounds than there are pages below the boundary
  abbrev pub enough : ℕ
  enough = suc (boundary / page_size + 1)

  unfoldable pub get_pages : (nr_pages : ℕ) → Pages → Option (Outcome (ℕ × Pages))
  unfolding find_run occupy_run
  get_pages nr_pages s = elim (find_run enough s.free_page_bitmap boundary start nr_pages) [
    | none ↦ none
    | some none ↦ some (ensure (start % page_size == 0) >> done (0, s))
    | some (some addr) ↦ some (
        ensure (start % page_size == 0)
        >> (occupy_run s.free_page_bitmap addr nr_pages
            >>= (λ bitmap. done (addr, record s { free_page_bitmap = bitmap }))))
  ]

  unfoldable pub get_page_fast : Pages → Option (Outcome (ℕ × Pages))
  unfolding fast_scan
  get_page_fast s =
      let addr = s.fast_page_addr in
      fast_scan enough boundary
        (if ltb addr start || leb boundary addr then record s { fast_page_addr = start } else s)

  unfoldable pub get_page : Pages → Option (Outcome (ℕ × Pages))
  unfolding get_pages get_page_fast
  get_page s = elim (get_page_fast s) [
    | none ↦ none
    | some panic ↦ some panic
    | some (done (page, t)) ↦ if page == 0 then get_pages 1 t else some (done (page, t))
  ]

-- the loop of `free_pages`
unfoldable pub free_pages : (pg_addr nr_pages : ℕ) → Pages → Pages
unfolding mark_page_as_free
free_pages pg_addr zero s = s
free_pages pg_addr (suc n) s =
    free_pages ((pg_addr + page_size) % 2 ^ 32) n
      (record s { free_page_bitmap = mark_page_as_free s.free_page_bitmap pg_addr })

unfoldable pub free_page : (pg_addr : ℕ) → Pages → Pages
unfolding free_pages
free_page pg_addr s = free_pages pg_addr 1 s
