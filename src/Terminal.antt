-- ===== src/Terminal.antt =====
-- device/pseudo_terminal.c: what a pseudo terminal shows. The rows of the buffer are a ring of one
-- row more than the screen has. `video` is the memory of the screen, a word for each place; its
-- upper byte is the colour. The wait queues and the rings of input are those of WaitQueue and
-- ByteRing; the cursor is the position that is written to its ports.
pub mod Valid
pub mod Flush
mod Tests
use zelda_os.Prelude.{
  ℕ, zero, suc, ◌+◌, ◌-◌, ◌*◌, ◌/◌, ◌%◌, Bool, true, false, not, ◌&&◌, ◌||◌, Option, none, some,
  List, [], ◌∷◌, ltb, ◌==◌, if◌then◌else◌, Outcome, done, ◌>>◌, ensure,
}

abbrev pub ptty_rows : ℕ
ptty_rows = 25

abbrev pub ptty_columns : ℕ
ptty_columns = 80

pub record Ptty : Type 0 where
  pub need_scroll : Bool
  pub row_front : ℕ
  pub row_index : ℕ
  pub col_index : ℕ
  pub buffer : (row col : ℕ) → ℕ

abbrev pub newline : ℕ
newline = 10

-- ptm->buffer[row][col] = value
abbrev pub put : ((row col : ℕ) → ℕ) → (row col value : ℕ) → (row col : ℕ) → ℕ
put buffer r c value row col = if row == r && col == c then value else buffer row col

-- the row that is dropped is cleared
abbrev pub clear_row : ((row col : ℕ) → ℕ) → (row : ℕ) → (row col : ℕ) → ℕ
clear_row buffer r row col = if row == r && ltb col ptty_columns then 0 else buffer row col

-- the next row, and the first one dropped if there is no room for it
unfoldable pub next_row : Ptty → Ptty
next_row p =
    let index = (p.row_index + 1) % (ptty_rows + 1) in
    let q : Ptty = record p { col_index = 0; row_index = index } in
    if (index + 1) % (ptty_rows + 1) == p.row_front
    then record q {
      buffer = clear_row p.buffer p.row_front;
      row_front = (p.row_front + 1) % (ptty_rows + 1);
    }
    else q

unfoldable pub ptty_enqueue_byte : Ptty → (value : ℕ) → Ptty
unfolding next_row
ptty_enqueue_byte p value =
    let buffer =
      if value == newline then p.buffer else put p.buffer p.row_index p.col_index value in
    let q : Ptty = record p { buffer = buffer; col_index = p.col_index + 1 } in
    let r = if q.col_index == ptty_columns || value == newline then next_row q else q in
    record r { need_scroll = p.need_scroll || not (p.row_index == r.row_index) }

-- the words of one row of the screen, from one row of the buffer
abbrev pub show_row : (video : (row col : ℕ) → ℕ) → (at : ℕ) → (ℕ → ℕ) → (row col : ℕ) → ℕ
show_row video at line row col =
    if row == at && ltb col ptty_columns
    then video row col / 256 * 256 + line col
    else video row col

-- the loop of `ptty_flush_terminal` over the rows
unfoldable pub show_rows :
    ℕ
    → ((row col : ℕ) → ℕ)
    → (idx_row stop video_row_idx : ℕ) → (video : (row col : ℕ) → ℕ)
    → Option (ℕ × ((row col : ℕ) → ℕ))
show_rows zero buffer idx_row stop at video = none
show_rows (suc fuel) buffer idx_row stop at video = elim (idx_row == stop) [
  | true ↦ some (at, video)
  | false ↦
      show_rows fuel buffer ((idx_row + 1) % (ptty_rows + 1)) stop (at + 1)
        (show_row video at (buffer idx_row))
]

-- what is on the screen, and where the cursor is
pub record Screen : Type 0 where
  pub video : (row col : ℕ) → ℕ
  pub cursor : ℕ × ℕ

unfoldable pub ptty_flush_terminal : Ptty → Screen → Option (Outcome (Ptty × Screen))
ptty_flush_terminal p s =
    let row = (p.row_index + ptty_rows + 1 - p.row_front) % (ptty_rows + 1) in
    let q : Ptty = record p { need_scroll = false } in
    if not p.need_scroll
    then some (
        ensure (ltb row ptty_rows)
        >> done (
          q,
          record {
            video = show_row s.video row (p.buffer p.row_index);
            cursor = (p.col_index, row + 1);
          },
        ))
    else elim (show_rows (ptty_rows + 2) p.buffer p.row_front ((p.row_index + 1) % (ptty_rows + 1))
        0 s.video) [
          | none ↦ none
          | some (rows, video) ↦
              some (done (q, record { video = video; cursor = (p.col_index, rows) }))
        ]

abbrev pub enqueue_all : Ptty → List ℕ → Ptty
enqueue_all p [] = p
enqueue_all p (value ∷ values) = enqueue_all (ptty_enqueue_byte p value) values

-- `is_current` is `ptm == current_ptty`.
unfoldable pub ptty_dev_write :
    (is_current : Bool) → Ptty → Screen → List ℕ → Option (Outcome (Ptty × Screen))
ptty_dev_write is_current p s values =
    let q = enqueue_all p values in
    if is_current then ptty_flush_terminal q s else some (done (q, s))

-- kernel/printk.c: the bytes of the screen's words that are not its colours are zeroed.
unfoldable pub reset_video_buffer : Screen → Screen
reset_video_buffer s = record s {
  video = λ row col.
      if ltb row ptty_rows && ltb col ptty_columns
      then s.video row col / 256 * 256
      else s.video row col;
}

-- the terminal and, if it is the current one, the screen
unfoldable pub ptty_clear : (is_current : Bool) → Ptty → Screen → Ptty × Screen
unfolding reset_video_buffer
ptty_clear is_current p s = (
  record {
    need_scroll = false;
    row_front = 0;
    row_index = 0;
    col_index = 0;
    buffer = λ row col. 0;
  },
  if is_current then reset_video_buffer s else s,
)
