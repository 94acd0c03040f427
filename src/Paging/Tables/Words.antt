-- ===== src/Paging/Tables/Words.antt =====
-- Words of memory after a store, and the fields of an entry.
use zelda_os.Prelude.{
  ℕ, ◌+◌, ◌/◌, ◌%◌, ◌^◌, ◌≤◌, ◌<◌, ◌≡◌, refl, ◌≢◌, ◌⊎◌, inl, inr, true, false, ◌&&◌, arith, ltb,
  leb, ◌==◌, Bool-cases,
}
use zelda_os.KernelVma.{page_size}
use zelda_os.Paging.Tables.{present, pg_frame, create_pte32, store, clear_page}

pub store-same : (memory : ℕ → ℕ) (a v : ℕ) → store memory a v a ≡ v
unfolding store
store-same memory a v = let e : (a == a) ≡ true = ground arith in rw e refl

pub store-other : (memory : ℕ → ℕ) (a v b : ℕ) → b ≢ a → store memory a v b ≡ memory b
unfolding store
store-other memory a v b h = let e : (b == a) ≡ false = ground arith in rw e refl

pub clear_page-inside :
    (memory : ℕ → ℕ) (p a : ℕ) → p ≤ a → a < p + page_size → clear_page memory p a ≡ 0
unfolding clear_page
clear_page-inside memory p a low high =
    let e : (leb p a && ltb a (p + page_size)) ≡ true = ground arith in rw e refl

pub clear_page-outside :
    (memory : ℕ → ℕ) (p a : ℕ) → (a < p) ⊎ (p + page_size ≤ a) → clear_page memory p a ≡ memory a
unfolding clear_page
clear_page-outside memory p a h =
    let e : (leb p a && ltb a (p + page_size)) ≡ false = by h in rw e refl
  where
    by : (a < p) ⊎ (p + page_size ≤ a) → (leb p a && ltb a (p + page_size)) ≡ false
    by (inl below) = ground arith
    by (inr above) = ground arith

pub present-create_pte32 : (w s wt cd frame : ℕ) → present (create_pte32 w s wt cd frame) ≡ 1
present-create_pte32 w s wt cd frame = omega arith

pub pg_frame-create_pte32 :
    (w s wt cd frame : ℕ) → pg_frame (create_pte32 w s wt cd frame) ≡ frame / 4096 % 2 ^ 20
pg_frame-create_pte32 w s wt cd frame = omega arith

pub present-cases : (e : ℕ) → (present e ≡ 0) ⊎ (present e ≡ 1)
present-cases e = elim (Bool-cases (present e == 0)) [
  | inl z ↦ inl (ground arith)
  | inr z ↦ inr (ground arith)
]
