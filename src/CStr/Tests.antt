-- ===== src/CStr/Tests.antt =====
-- The string theorems at short strings and buffers.
use zelda_os.Prelude.{ℕ, ◌≡◌, ◌↔◌, List, [], ◌∷◌, arith}
use zelda_os.CStr.{strcmp}
use zelda_os.CStr.Compare.{NoNul, strcmp_iff}

abbrev home : List ℕ
home = 47 ∷ 104 ∷ []

home-NoNul : NoNul home
home-NoNul = (omega arith, (omega arith, tt))

strcmp_iff_example : ((strcmp home home).0 ≡ (strcmp home home).1) ↔ (home ≡ home)
strcmp_iff_example = strcmp_iff home home home-NoNul home-NoNul
