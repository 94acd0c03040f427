-- ===== src/Links/Cut/Writes.antt =====
-- Equations between sequences of writes.
use zelda_os.Prelude.{◌≡◌, inl, inr, arith, ◌==◌, ==_iff, Bool-cases}
use zelda_os.Links.{Ptr, Memory, set_prev, set_next}
use mathlib.Core.Path.{fun_ext}

pub set_prev-set_next :
    (m : Memory) (p v q w : Ptr) → set_prev (set_next m p v) q w ≡ set_next (set_prev m q w) p v
unfolding set_prev set_next
set_prev-set_next m p v q w = fun_ext (λ a. ground arith)

pub set_prev_same : (m : Memory) (p v : Ptr) → (m p).prev ≡ v → set_prev m p v ≡ m
unfolding set_prev
set_prev_same m p v h = fun_ext (λ a. same a)
  where
    same : (a : Ptr) → set_prev m p v a ≡ m a
    same a = elim (Bool-cases (a == p)) [
      | inl e ↦ let at : a ≡ p = (==_iff a p).0 e in rw e (ground arith)
      | inr n ↦ rw n
    ]

pub set_next_same : (m : Memory) (p v : Ptr) → (m p).next ≡ v → set_next m p v ≡ m
unfolding set_next
set_next_same m p v h = fun_ext (λ a. same a)
  where
    same : (a : Ptr) → set_next m p v a ≡ m a
    same a = elim (Bool-cases (a == p)) [
      | inl e ↦ let at : a ≡ p = (==_iff a p).0 e in rw e (ground arith)
      | inr n ↦ rw n
    ]
