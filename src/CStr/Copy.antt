-- ===== src/CStr/Copy.antt =====
-- What the copying routines leave in a buffer.
use zelda_os.Prelude.{
  ℕ, zero, suc, ◌+◌, ◌≤◌, ◌<◌, ◌≡◌, refl, ap, false, List, [], ◌∷◌, ◌++◌, arith, ◌==◌, length, take,
  drop, replicate,
}
use zelda_os.CStr.{string_in, strlen, strcpy_safe, memset, memcpy}
use zelda_os.CStr.Compare.{NoNul}

-- `strcpy_safe` puts a string that is shorter than the limit into a buffer that the limit fits, with
-- its NUL; the bytes behind the NUL stay.
pub strcpy_safe-string :
    (dst src : List ℕ) (n : ℕ)
    → NoNul src
    → strlen src < n
    → n ≤ length dst
    → (string_in (strcpy_safe dst src n) ≡ src)
      × (drop (strlen src + 1) (strcpy_safe dst src n) ≡ drop (strlen src + 1) dst)
unfolding strcpy_safe string_in strlen
strcpy_safe-string dst src zero ns small fits = absurd (omega arith)
strcpy_safe-string [] src (suc n) ns small fits = absurd (omega arith)
strcpy_safe-string (d ∷ ds) [] (suc n) ns small fits = (refl, refl)
strcpy_safe-string (d ∷ ds) (c ∷ cs) (suc n) (some_c, ns) small fits =
    let some : (c == 0) ≡ false = ground arith in
    let (text, rest) = strcpy_safe-string ds cs n ns (omega arith) (omega arith) in
    let step : strlen cs + 1 + 1 ≡ suc (strlen cs + 1) = omega arith in
    rw (some, step) (ap (λ (r : List ℕ). c ∷ r) text, rest)

-- A string that is not shorter than the limit is cut there, and no NUL is written.
pub strcpy_safe-cut :
    (dst src : List ℕ) (n : ℕ)
    → n ≤ strlen src
    → n ≤ length dst
    → (take n (strcpy_safe dst src n) ≡ take n src) × (drop n (strcpy_safe dst src n) ≡ drop n dst)
unfolding strcpy_safe strlen
strcpy_safe-cut dst src zero long fits = (refl, refl)
strcpy_safe-cut [] src (suc n) long fits = absurd (omega arith)
strcpy_safe-cut (d ∷ ds) [] (suc n) long fits = absurd (omega arith)
strcpy_safe-cut (d ∷ ds) (c ∷ cs) (suc n) long fits =
    let (front, back) = strcpy_safe-cut ds cs n (omega arith) (omega arith) in
    (ap (λ (r : List ℕ). c ∷ r) front, back)

-- `memset` fills the first bytes and leaves the others.
pub memset-replicate :
    (dst : List ℕ) (target n : ℕ)
    → n ≤ length dst
    → memset dst target n ≡ replicate n target ++ drop n dst
unfolding memset
memset-replicate dst target zero fits = refl
memset-replicate [] target (suc n) fits = absurd (omega arith)
memset-replicate (d ∷ ds) target (suc n) fits = rw (memset-replicate ds target n (omega arith))

-- `memcpy` copies the first bytes and leaves the others.
pub memcpy-take :
    (dst src : List ℕ) (n : ℕ)
    → n ≤ length dst
    → n ≤ length src
    → memcpy dst src n ≡ take n src ++ drop n dst
unfolding memcpy
memcpy-take dst src zero fits have = refl
memcpy-take [] src (suc n) fits have = absurd (omega arith)
memcpy-take (d ∷ ds) [] (suc n) fits have = absurd (omega arith)
memcpy-take (d ∷ ds) (c ∷ cs) (suc n) fits have =
    rw (memcpy-take ds cs n (omega arith) (omega arith))
