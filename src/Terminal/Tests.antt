-- ===== src/Terminal/Tests.antt =====
-- A write to a cleared terminal.
use zelda_os.Prelude.{ℕ, ◌≡◌, refl, true, false, Option, some, [], ◌∷◌, Outcome, done}
use zelda_os.Terminal.{
  Ptty, Screen, next_row, ptty_enqueue_byte, show_rows, ptty_flush_terminal, ptty_dev_write,
  reset_video_buffer, ptty_clear,
}

abbrev blank : Screen
blank = record { video = λ row col. 1792; cursor = (0, 0) }

abbrev cleared : Ptty
cleared = record {
  need_scroll = false;
  row_front = 0;
  row_index = 0;
  col_index = 0;
  buffer = λ row col. 0;
}

-- A full screen is empty afterwards, and keeps its colours.
cleared_lem :
    let r = ptty_clear true cleared (record { video = λ row col. 1864; cursor = (5, 6) }) in
    (r.0 ≡ cleared) × (r.1.video 24 79 ≡ 1792) × (r.1.video 25 0 ≡ 1864) × (r.1.cursor ≡ (5, 6))
unfolding ptty_clear reset_video_buffer
cleared_lem = (refl, refl, refl, refl)

corner : Option (Outcome (Ptty × Screen)) → ℕ × (ℕ × ℕ)
corner (some (done (p, s))) = (s.video 0 0, s.cursor)
corner r = (0, (0, 0))

-- The H is in the corner, on the colour that was there.
corner_lem : corner (ptty_dev_write true cleared blank (72 ∷ 10 ∷ [])) ≡ (1864, (0, 2))
unfolding corner ptty_dev_write ptty_enqueue_byte next_row ptty_flush_terminal show_rows
corner_lem = refl
