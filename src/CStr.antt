-- ===== src/CStr.antt =====
-- lib/string.c: routines on C strings. A string is the list of its bytes before the NUL, and a
-- buffer is the list of its bytes; sizes are not negative.
pub mod Compare
pub mod Copy
mod Tests
use zelda_os.Prelude.{
  ℕ, zero, suc, ◌+◌, Option, none, some, List, [], ◌∷◌, ◌==◌, if◌then◌else◌, get_or, drop,
}

-- the string at the start of a buffer
unfoldable pub string_in : List ℕ → List ℕ
string_in [] = []
string_in (b ∷ bs) = let rest = string_in bs in if b == 0 then [] else b ∷ rest

unfoldable pub strlen : List ℕ → ℕ
strlen [] = 0
strlen (c ∷ cs) = strlen cs + 1

-- The result of the source is the difference of the two bytes.
unfoldable pub strcmp : List ℕ → List ℕ → ℕ × ℕ
strcmp [] [] = (0, 0)
strcmp [] (d ∷ ds) = (0, d)
strcmp (c ∷ cs) [] = (c, 0)
strcmp (c ∷ cs) (d ∷ ds) = let rest = strcmp cs ds in if c == d then rest else (c, d)

-- the loop of `strchr` from an index on; `none` is -1
unfoldable pub strchr_from : ℕ → List ℕ → ℕ → Option ℕ
strchr_from index [] target = none
strchr_from index (c ∷ cs) target =
    let rest = strchr_from (index + 1) cs target in if c == target then some index else rest

unfoldable pub strchr : List ℕ → ℕ → Option ℕ
unfolding strchr_from
strchr str target = strchr_from 0 str target

-- zero if `target` starts with `sub`, else a byte of `sub`
unfoldable pub start_with : (target sub : List ℕ) → ℕ
start_with target [] = 0
start_with [] (c ∷ cs) = c
start_with (t ∷ ts) (c ∷ cs) = let rest = start_with ts cs in if t == c then rest else c

-- `dst`, `src` and `max_size`; a write behind the end of the buffer is lost
unfoldable pub strcpy_safe : List ℕ → List ℕ → ℕ → List ℕ
strcpy_safe dst src zero = dst
strcpy_safe [] src (suc n) = []
strcpy_safe (d ∷ ds) [] (suc n) = 0 ∷ ds
strcpy_safe (d ∷ ds) (c ∷ cs) (suc n) = c ∷ strcpy_safe ds cs n

unfoldable pub memset : List ℕ → ℕ → ℕ → List ℕ
memset dst target zero = dst
memset [] target (suc n) = []
memset (d ∷ ds) target (suc n) = target ∷ memset ds target n

-- the buffers do not overlap
unfoldable pub memcpy : List ℕ → List ℕ → ℕ → List ℕ
memcpy dst src zero = dst
memcpy [] src (suc n) = []
memcpy (d ∷ ds) src (suc n) = get_or src 0 0 ∷ memcpy ds (drop 1 src) n
