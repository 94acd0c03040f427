-- ===== src/KernelVma/Free.antt =====
-- `search_free_kernel_virtual_address` returns a gap between the areas.
use zelda_os.Prelude.{
  ℕ, suc, ◌+◌, ◌-◌, ◌%◌, ◌^◌, ◌≤◌, ◌<◌, ◌≡◌, refl, ap, subst, ◌≢◌, ◌⊎◌, inl, inr, Bool, true, false,
  not, Option, none, some, [], ◌∷◌, arith, ltb, leb, ◌==◌, if◌then◌else◌, ==_iff, Bool-cases,
  length, get_or, Outcome, done, panic, Ends,
}
use zelda_os.KernelVma.{
  KernelVma, Table, end_of, no_vma, page_round, userspace_bottom, nearest, stop_of, free_from,
  search_free_kernel_virtual_address,
}
use zelda_os.KernelVma.Nearest.{AtMost, Within, nearest-counts, nearest-Within}

-- the areas in use are not empty, lie below the user's space, and do not overlap
pub record AreSeparate (vs : Table) : Type 0 where
  pub bounds :
      (j : ℕ)
      → (get_or vs j no_vma).present ≡ true
      → (0 < (get_or vs j no_vma).length)
        × ((get_or vs j no_vma).virt_addr + (get_or vs j no_vma).length ≤ userspace_bottom)
  pub apart :
      (i j : ℕ)
      → i ≢ j
      → (get_or vs i no_vma).present ≡ true
      → (get_or vs j no_vma).present ≡ true
      → ((get_or vs i no_vma).virt_addr + (get_or vs i no_vma).length
          ≤ (get_or vs j no_vma).virt_addr)
        ⊎ ((get_or vs j no_vma).virt_addr + (get_or vs j no_vma).length
            ≤ (get_or vs i no_vma).virt_addr)

-- more than `len` bytes from `a` on lie below the user's space and in no area in use
abbrev pub IsGap : Table → ℕ → ℕ → Type 0
IsGap vs len a =
    (a + len < userspace_bottom)
    × ((j : ℕ)
        → j < length vs
        → (get_or vs j no_vma).present ≡ true
        → ((get_or vs j no_vma).virt_addr + (get_or vs j no_vma).length ≤ a)
          ⊎ (a + len < (get_or vs j no_vma).virt_addr))

stop-AtMost : (o : Option ℕ) (x : ℕ) → AtMost o x → stop_of o ≤ x
stop-AtMost none x h = absurd h
stop-AtMost (some b) x h = h

stop-Within :
    (o : Option ℕ) (low : ℕ)
    → Within o low userspace_bottom
    → low ≤ userspace_bottom
    → (low ≤ stop_of o) × (stop_of o ≤ userspace_bottom)
stop-Within none low w h = (h, omega arith)
stop-Within (some b) low w h = w

module _ (table : Table) (separate : AreSeparate table) (len i : ℕ) where
  above : ℕ
  above = stop_of (nearest i (end_of (get_or table i no_vma)) 0 none table)

  end_real :
      (get_or table i no_vma).present ≡ true
      → end_of (get_or table i no_vma)
        ≡ (get_or table i no_vma).virt_addr + (get_or table i no_vma).length
  end_real used = let b = (separate.bounds i used).1 in omega (arith, b)

  above_bounds :
      (get_or table i no_vma).present ≡ true
      → (end_of (get_or table i no_vma) ≤ above) × (above ≤ userspace_bottom)
  unfolding above
  above_bounds used =
      let start = end_real used in
      let b = (separate.bounds i used).1 in
      stop-Within (nearest i (end_of (get_or table i no_vma)) 0 none table)
        (end_of (get_or table i no_vma))
        (nearest-Within i (end_of (get_or table i no_vma)) 0 none table userspace_bottom
          (λ j l u. omega (arith, (separate.bounds j u).1)) tt)
        (omega (arith, b, start))

  gap :
      (get_or table i no_vma).present ≡ true
      → end_of (get_or table i no_vma) + len < above
      → IsGap table len (end_of (get_or table i no_vma))
  unfolding above
  gap used room = (omega (arith, (above_bounds used).1, room), clear)
    where
      clear :
          (j : ℕ)
          → j < length table
          → (get_or table j no_vma).present ≡ true
          → ((get_or table j no_vma).virt_addr + (get_or table j no_vma).length
              ≤ end_of (get_or table i no_vma))
            ⊎ (end_of (get_or table i no_vma) + len < (get_or table j no_vma).virt_addr)
      clear j low other = elim (Bool-cases (j == i)) [
        | inl same ↦
            let e : j ≡ i = (==_iff j i).0 same in
            rw e (inl (let r = end_real used in omega (arith, r)))
        | inr ne ↦
            elim (Bool-cases
              (leb (end_of (get_or table i no_vma)) (get_or table j no_vma).virt_addr)) [
                | inl beyond ↦
                    let least =
                      stop-AtMost (nearest i (end_of (get_or table i no_vma)) 0 none table)
                        (get_or table j no_vma).virt_addr
                        (nearest-counts i (end_of (get_or table i no_vma)) 0 none table j low
                          (ground arith) other (ground arith)) in
                    inr (omega (arith, least, room))
                | inr before ↦
                    let sides = separate.apart j i (ground arith) other used in
                    let r = end_real used in inl (ground arith)
              ]
      ]

-- what the search returns: null, or the start of a gap
abbrev pub IsGapOrNull : Table → ℕ → ℕ → Type 0
IsGapOrNull vs len a = a ≢ 0 → IsGap vs len a

-- one round of the outer loop, once the end of the gap is known
round_choice :
    (used : Bool) (start stop len : ℕ) (rest : Outcome ℕ) (P : ℕ → Type 0)
    → used ≡ true
    → 0 < stop
    → start ≤ stop
    → stop ≤ userspace_bottom
    → (start + len < stop → P start)
    → Ends rest P
    → Ends
        (if not used
          then rest
          else if stop == 0
          then panic
          else if ltb len ((stop + 2 ^ 64 - start) % 2 ^ 64)
          then done start
          else rest)
        P
round_choice used start stop len rest P u pos low high room r =
    let some_stop : (stop == 0) ≡ false = ground arith in
    let size : (stop + 2 ^ 64 - start) % 2 ^ 64 ≡ stop - start = ground arith in
    elim (Bool-cases (ltb len (stop - start))) [
      | inl fits ↦ rw (u, some_stop, size, fits) (room (ground arith))
      | inr small ↦ rw (u, some_stop, size, small) r
    ]

module _ (table : Table) (separate : AreSeparate table) (len : ℕ) where
  round_ends :
      (i : ℕ) (vs : Table)
      → Ends (free_from table len (i + 1) vs) (IsGapOrNull table len)
      → Ends (free_from table len i (get_or table i no_vma ∷ vs)) (IsGapOrNull table len)
  unfolding free_from above
  round_ends i vs rest = elim (Bool-cases (get_or table i no_vma).present) [
    | inr absent ↦ rw (absent, free_from) rest
    | inl used ↦
        let (low, high) = above_bounds table separate len i used in
        let some_length = (separate.bounds i used).0 in
        let start = end_real table separate len i used in
        round_choice (get_or table i no_vma).present (end_of (get_or table i no_vma))
          (above table separate len i) len (free_from table len (i + 1) vs) (IsGapOrNull table len)
          used (omega (arith, low, some_length, start)) low high
          (λ room some_start. gap table separate len i used room) rest
  ]

  free_from-IsGap :
      (i : ℕ) (vs : Table)
      → ((j : ℕ) → get_or table (i + j) no_vma ≡ get_or vs j no_vma)
      → Ends (free_from table len i vs) (IsGapOrNull table len)
  unfolding free_from
  free_from-IsGap i [] at = λ n. absurd (n refl)
  free_from-IsGap i (v ∷ vs) at =
      subst (λ (w : KernelVma). Ends (free_from table len i (w ∷ vs)) (IsGapOrNull table len))
        (subst (λ (k : ℕ). get_or table k no_vma ≡ v) (omega arith) (at 0))
        (round_ends i vs (
          free_from-IsGap (i + 1) vs (λ j.
            subst (λ (k : ℕ). get_or table k no_vma ≡ get_or vs j no_vma) (omega arith)
              (at (suc j)))))

-- If the areas in use are not empty, lie below the user's space and do not overlap,
-- `search_free_kernel_virtual_address` fails no ASSERT, and returns null or the start of a gap of
-- more than the rounded length that no area in use overlaps.
pub search_free_kernel_virtual_address-IsGap :
    (table : Table) (len : ℕ)
    → AreSeparate table
    → Ends (search_free_kernel_virtual_address table len) (IsGapOrNull table (page_round len))
unfolding search_free_kernel_virtual_address
search_free_kernel_virtual_address-IsGap table len separate =
    free_from-IsGap table separate (page_round len) 0 table
      (λ j. ap (λ (k : ℕ). get_or table k no_vma) (omega arith))
