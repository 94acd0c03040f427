-- ===== src/KernelVma/Register.antt =====
-- `register_kernel_vma` and the slots.
use zelda_os.Prelude.{
  ℕ, zero, suc, ◌+◌, ◌<◌, ◌≡◌, refl, inl, inr, Bool, true, false, Option, none, some, [], ◌∷◌,
  arith, if◌then◌else◌, Bool-cases, length, get_or, set, done,
}
use zelda_os.Status.{Status, ok, err_out_of_resource, err_invalid_arg}
use zelda_os.KernelVma.{
  KernelVma, Table, covers, search_kernel_vma, free_slot, filled, no_vma, register_kernel_vma,
}
use zelda_os.KernelVma.Search.{is_taken}

-- the first slot that is not in use
abbrev pub first_free : Table → ℕ → Option ℕ
first_free [] idx = none
first_free (v ∷ vs) idx = if v.present then first_free vs (idx + 1) else some idx

abbrev or_else : Option ℕ → Option ℕ → Option ℕ
or_else none o = o
or_else (some t) o = some t

free_slot-first_free :
    (vs : Table) (idx : ℕ) (target : Option ℕ) (a : ℕ)
    → free_slot vs idx target a
      ≡ (if is_taken vs a then none else some (or_else target (first_free vs idx)))
unfolding free_slot
free_slot-first_free [] idx none a = refl
free_slot-first_free [] idx (some t) a = refl
free_slot-first_free (v ∷ vs) idx none a = elim (Bool-cases v.present) [
  | inr absent ↦ simp (absent, free_slot-first_free vs (idx + 1) (some idx) a)
  | inl used ↦ elim (Bool-cases (covers v a)) [
    | inl hit ↦ simp (used, hit)
    | inr miss ↦ simp (used, miss, free_slot-first_free vs (idx + 1) none a)
  ]
]
free_slot-first_free (v ∷ vs) idx (some t) a = elim (Bool-cases v.present) [
  | inr absent ↦ simp (absent, free_slot-first_free vs (idx + 1) (some t) a)
  | inl used ↦ elim (Bool-cases (covers v a)) [
    | inl hit ↦ simp (used, hit)
    | inr miss ↦ simp (used, miss, free_slot-first_free vs (idx + 1) (some t) a)
  ]
]

-- no slot asks for its pages to be mapped
abbrev pub NonePremap : Table → Type 0
NonePremap [] = Unit
NonePremap (v ∷ vs) = (v.premap ≡ false) × NonePremap vs

slot_premap : (vs : Table) (i : ℕ) → NonePremap vs → (get_or vs i no_vma).premap ≡ false
slot_premap [] i n = refl
slot_premap (v ∷ vs) zero n = n.0
slot_premap (v ∷ vs) (suc i) n = slot_premap vs i n.1

set_premap :
    (vs : Table) (i : ℕ) (w : KernelVma)
    → w.premap ≡ false
    → NonePremap vs
    → NonePremap (set vs i w)
set_premap [] i w off n = tt
set_premap (v ∷ vs) zero w off n = (off, n.1)
set_premap (v ∷ vs) (suc i) w off n = (n.0, set_premap vs i w off n.1)

-- the table with a new area in its first free slot
abbrev pub entered : Table → KernelVma → Option ℕ → Status × Table
entered vs vma none = (err_out_of_resource, vs)
entered vs vma (some i) = (ok, set vs i (filled (get_or vs i no_vma) vma))

-- What registering an area comes to: an error if its start is taken, else a slot if one is free.
abbrev pub registered : Table → KernelVma → Status × Table
registered vs vma =
    if is_taken vs vma.virt_addr then (err_invalid_arg, vs) else entered vs vma (first_free vs 0)

module _ {Paging : Type 0} (get_page : Paging → ℕ × Paging)
    (kernel_map_page : Paging
      → (linear phy : ℕ) → (writable writethrough cachedisable : Bool) → Paging) where
  entered_run :
      (fuel : ℕ) (vs : Table) (s : Paging) (vma : KernelVma)
      → NonePremap vs
      → is_taken vs vma.virt_addr ≡ false
      → (o : Option ℕ) → first_free vs 0 ≡ o
      → register_kernel_vma get_page kernel_map_page fuel vs s vma
        ≡ some (done ((entered vs vma o).0, (entered vs vma o).1, s))
  unfolding register_kernel_vma
  entered_run fuel vs s vma off free none e =
      rw (free_slot-first_free vs 0 none vma.virt_addr, register_kernel_vma, free, e)
  entered_run fuel vs s vma off free (some i) e =
      let still = slot_premap vs i off in
      rw (free_slot-first_free vs 0 none vma.virt_addr, register_kernel_vma, free, e, still)

  -- While no slot has its `premap` bit set, `register_kernel_vma` never maps a page, not even for
  -- an area whose own bit is set: it refuses an area whose start is taken, refuses if there is no
  -- free slot, and else fills the first free slot. The bit stays clear in every slot.
  pub register_kernel_vma-registered :
      (fuel : ℕ) (vs : Table) (s : Paging) (vma : KernelVma)
      → NonePremap vs
      → (register_kernel_vma get_page kernel_map_page fuel vs s vma
          ≡ some (done ((registered vs vma).0, (registered vs vma).1, s)))
        × NonePremap (registered vs vma).1
  unfolding register_kernel_vma
  register_kernel_vma-registered fuel vs s vma off = elim (Bool-cases (is_taken vs vma.virt_addr)) [
    | inl taken ↦
        rw (free_slot-first_free vs 0 none vma.virt_addr, register_kernel_vma, taken) (refl, off)
    | inr free ↦
        simp free
          (entered_run fuel vs s vma off free (first_free vs 0) refl, kept (first_free vs 0))
  ]
    where
      kept : (o : Option ℕ) → NonePremap (entered vs vma o).1
      kept none = off
      kept (some i) = set_premap vs i (filled (get_or vs i no_vma) vma) (slot_premap vs i off) off

first_free-slot :
    (vs : Table) (idx : ℕ) (i : ℕ)
    → first_free vs idx ≡ some i
    → (k : ℕ) × (i ≡ idx + k) × (k < length vs)
first_free-slot [] idx i e = absurd (ground arith)
first_free-slot (v ∷ vs) idx i e = elim (Bool-cases v.present) [
  | inl used ↦
      let (k, at, low) = first_free-slot vs (idx + 1) i (simp used at e) in
      (suc k, omega arith, omega arith)
  | inr absent ↦ let same : some idx ≡ some i = simp absent at e in (0, ground arith, omega arith)
]

set_search :
    (vs : Table) (k : ℕ) (w : KernelVma) (a : ℕ)
    → k < length vs
    → is_taken vs a ≡ false
    → w.present ≡ true
    → covers w a ≡ true
    → search_kernel_vma (set vs k w) a ≡ some w
unfolding search_kernel_vma
set_search [] k w a low free used hit = absurd (omega arith)
set_search (v ∷ vs) zero w a low free used hit = simp (used, hit)
set_search (v ∷ vs) (suc k) w a low free used hit =
    let rest = set_search vs k w a (omega arith) (ground arith) used hit in
    elim (Bool-cases v.present) [
      | inr absent ↦ simp (absent, rest)
      | inl taken ↦ let miss : covers v a ≡ false = ground arith in simp (taken, miss, rest)
    ]

-- An address of a newly registered area that no area in use contains is found in the new area.
pub search_kernel_vma-registered :
    (vs : Table) (vma : KernelVma) (a i : ℕ)
    → first_free vs 0 ≡ some i
    → is_taken vs a ≡ false
    → covers vma a ≡ true
    → search_kernel_vma (set vs i (filled (get_or vs i no_vma) vma)) a
      ≡ some (filled (get_or vs i no_vma) vma)
search_kernel_vma-registered vs vma a i e free hit =
    let (k, at, low) = first_free-slot vs 0 i e in
    set_search vs i (filled (get_or vs i no_vma) vma) a (omega arith) free refl hit
