-- ===== src/Terminal/Valid.antt =====
-- The indices of a pseudo terminal stay in its buffer.
use zelda_os.Prelude.{
  ℕ, ◌+◌, ◌-◌, ◌%◌, ◌<◌, ◌≡◌, ◌≢◌, inl, inr, false, ◌||◌, List, [], ◌∷◌, arith, ◌==◌, if◌then◌else◌,
  ==_iff, ==_false, Bool-cases,
}
use zelda_os.Terminal.{
  Ptty, ptty_rows, ptty_columns, newline, put, next_row, ptty_enqueue_byte, enqueue_all,
}

-- how far the current row is behind the first one
abbrev pub depth : Ptty → ℕ
depth p = (p.row_index + ptty_rows + 1 - p.row_front) % (ptty_rows + 1)

-- the indices are in the buffer, and the rows in use fit on the screen
abbrev pub IsValid : Ptty → Type 0
IsValid p =
    (p.row_front < ptty_rows + 1)
    × (p.row_index < ptty_rows + 1)
    × (p.col_index < ptty_columns)
    × (depth p < ptty_rows)

next_row-IsValid :
    (p : Ptty)
    → p.row_front < ptty_rows + 1
    → p.row_index < ptty_rows + 1
    → depth p < ptty_rows
    → IsValid (next_row p)
unfolding next_row
next_row-IsValid p front index low =
    elim (Bool-cases (((p.row_index + 1) % 26 + 1) % 26 == p.row_front)) [
      | inl full ↦
          let e : ((p.row_index + 1) % 26 + 1) % 26 ≡ p.row_front =
            (==_iff (((p.row_index + 1) % 26 + 1) % 26) p.row_front).0 full in
          simp (full) (omega arith, omega arith, omega arith, omega (arith, e, front, index, low))
      | inr room ↦
          let ne = ==_false (((p.row_index + 1) % 26 + 1) % 26) p.row_front room in
          simp (room) (front, omega arith, omega arith, omega (arith, ne, front, index, low))
    ]

pub ptty_enqueue_byte-IsValid :
    (p : Ptty) (value : ℕ) → IsValid p → IsValid (ptty_enqueue_byte p value)
unfolding ptty_enqueue_byte
ptty_enqueue_byte-IsValid p value (front, index, col, low) =
    let buffer =
      if value == newline then p.buffer else put p.buffer p.row_index p.col_index value in
    let q : Ptty = record p { buffer = buffer; col_index = p.col_index + 1 } in
    elim (Bool-cases (p.col_index + 1 == ptty_columns || value == newline)) [
      | inl ends ↦ simp (ends) (next_row-IsValid q front index low)
      | inr more ↦
          let ne : p.col_index + 1 ≢ ptty_columns = not_last more in
          simp (more) (front, index, omega (arith, ne, col), low)
    ]
  where
    not_last :
        (p.col_index + 1 == ptty_columns || value == newline) ≡ false
        → p.col_index + 1 ≢ ptty_columns
    not_last h e = ground (arith, h, e)

pub enqueue_all-IsValid : (p : Ptty) (values : List ℕ) → IsValid p → IsValid (enqueue_all p values)
enqueue_all-IsValid p [] valid = valid
enqueue_all-IsValid p (value ∷ values) valid =
    enqueue_all-IsValid (ptty_enqueue_byte p value) values (ptty_enqueue_byte-IsValid p value valid)
