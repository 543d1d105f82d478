-- ===== src/Yaft/Screen.antt =====
-- apps/yaft/screen.cpp: the lines of the terminal that are drawn and sent to the display, the gray of a cell, and
-- the mouse. The terminal is libYaft's, of which the members that are read are in `View`, as is the height
-- of a cell, a constant of its font; what `drawLine` writes into the canvas is left out.
use r_m2_stuff_rocket.Base.{
  ℕ, zero, suc, Bool, true, false, List, [], ◌∷◌, ◌+◌, ◌*◌, ◌==◌, ◌&&◌, ◌||◌, if◌then◌else◌, ltb,
}
use r_m2_stuff_rocket.Base.Int.{ℤ, pos, ◌+ℤ◌, ◌-ℤ◌, leb_ℤ}
use r_m2_stuff_rocket.Rmlib.Geometry.{Rect, empty_rect, is_empty, join, rect_width, rect_height}

-- What does not change while the screen is drawn: of the terminal, the widget, and the rectangle.
pub record View : Type 0 where
  pub lines : ℕ
  pub height : ℤ
  pub margin_top : ℤ
  pub cursor_on : Bool
  pub cursor_y : ℕ
  pub should_clear : Bool
  pub cell_height : ℕ
  pub is_landscape : Bool
  pub auto_refresh : ℕ
  pub is_full_draw : Bool
  pub rect : Rect

-- The waveform of an update of some lines.
pub data ScreenWaveform : Type 0 where
  a2 du : ScreenWaveform

-- `numUpdates`, `currentRect`, `line_dirty`, the updates of the frame buffer and the lines drawn, newest first.
pub record DrawState : Type 0 where
  pub num_updates : ℕ
  pub current : Rect
  pub line_dirty : ℕ → Bool
  pub sent : List (Rect × ScreenWaveform)
  pub drawn : List ℕ

-- What `doDraw` returns: the whole rectangle with a full refresh, or nothing.
pub record Redrawn : Type 0 where
  pub refreshed : Bool
  pub should_clear : Bool
  pub num_updates : ℕ
  pub line_dirty : ℕ → Bool
  pub sent : List (Rect × ScreenWaveform)
  pub drawn : List ℕ

module _ (v : View) where
  abbrev pub should_refresh : ℕ → Bool
  should_refresh n =
      v.is_full_draw || v.should_clear || ltb 0 v.auto_refresh && ltb v.auto_refresh n

  -- `zStart` of `drawLine`
  abbrev z_start : ℕ → ℤ
  z_start line =
      let offset = v.margin_top +ℤ pos (line * v.cell_height) in
      if v.is_landscape
      then v.height -ℤ offset +ℤ v.rect.top_left.x
      else offset +ℤ v.rect.top_left.y

  -- What `drawLine` returns.
  unfoldable pub line_rect : ℕ → Rect
  line_rect line =
      if v.is_landscape
      then record {
        top_left = record { x = z_start line -ℤ pos v.cell_height; y = pos 0 };
        bottom_right = record { x = z_start line; y = rect_height v.rect -ℤ pos 1 };
      }
      else record {
        top_left = record { x = pos 0; y = z_start line };
        bottom_right = record {
          x = rect_width v.rect -ℤ pos 1;
          y = z_start line +ℤ pos v.cell_height -ℤ pos 1;
        };
      }

  unfoldable pub waveform_of : Rect → ScreenWaveform
  waveform_of r =
      let extent = if v.is_landscape then rect_width r else rect_height r in
      if leb_ℤ (pos (v.lines * v.cell_height)) extent then a2 else du

  unfoldable pub maybe_draw : DrawState → DrawState
  maybe_draw s = if is_empty s.current || should_refresh s.num_updates then s else record s {
    num_updates = s.num_updates + 1;
    current = empty_rect;
    sent = (s.current, waveform_of s.current) ∷ s.sent;
  }

  -- `drawLine`, as far as it changes the terminal.
  unfoldable pub draw_line : ℕ → DrawState → DrawState
  draw_line line s = record s {
    current = join s.current (line_rect line);
    line_dirty = λ l. if l == line then v.cursor_on && v.cursor_y == line else s.line_dirty l;
    drawn = line ∷ s.drawn;
  }

  -- The loop over the lines, with those that are left.
  unfoldable pub draw_lines : ℕ → ℕ → DrawState → DrawState
  draw_lines zero line s = s
  draw_lines (suc left) line s =
      draw_lines left (line + 1)
        (if v.is_full_draw || s.line_dirty line then draw_line line s else maybe_draw s)

  -- The line of the cursor is drawn too.
  unfoldable pub start_draw : ℕ → (ℕ → Bool) → DrawState
  start_draw num dirty = record {
    num_updates = num;
    current = empty_rect;
    line_dirty = λ l. if v.cursor_on && l == v.cursor_y then true else dirty l;
    sent = [];
    drawn = [];
  }

  unfoldable pub finish_draw : DrawState → Redrawn
  finish_draw s =
      let refreshed = should_refresh s.num_updates in
      record {
        refreshed = refreshed;
        should_clear = if refreshed then false else v.should_clear;
        num_updates = if refreshed then 0 else s.num_updates;
        line_dirty = s.line_dirty;
        sent = s.sent;
        drawn = s.drawn;
      }

  -- `doDraw`
  unfoldable pub do_draw : ℕ → (ℕ → Bool) → Redrawn
  do_draw num dirty = finish_draw (maybe_draw (draw_lines v.lines 0 (start_draw num dirty)))
