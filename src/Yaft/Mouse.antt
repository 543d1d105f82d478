-- ===== src/Yaft/Mouse.antt =====
-- apps/yaft/screen.cpp: the mouse of the terminal, `handleTouchEvent` and `handleInput`, and the gray of the two
-- colors of a cell. What is written to the terminal is the list of its bytes. The size of a cell is a constant
-- of libYaft's font, not 0.
use r_m2_stuff_rocket.Base.{
  ℕ, Bool, true, false, not, List, [], ◌∷◌, ◌++◌, ◌+◌, ◌-◌, ◌*◌, ◌/◌, ◌%◌, ◌==◌, ◌&&◌,
  if◌then◌else◌, ltb, leb,
}
use r_m2_stuff_rocket.Base.Int.{ℤ, pos, negsuc, ◌+ℤ◌, ◌-ℤ◌, eqb_ℤ}
use r_m2_stuff_rocket.Rmlib.Geometry.{Point, Rect, rect_width, contains}
use r_m2_stuff_rocket.Ui.Gestures.{PointerKind, is_down, is_up, is_move, neither}

-- `slot` is 0x1000 for the pen.
pub record MouseEvent : Type 0 where
  pub kind : PointerKind
  pub slot : ℤ
  pub location : Point

-- `mouseSlot` and `lastMousePos`
pub record Mouse : Type 0 where
  pub slot : ℤ
  pub last : Point

abbrev pub no_slot : ℤ
no_slot = negsuc 0

-- The modes of the terminal, the widget, and its rectangle.
pub record Pane : Type 0 where
  pub any_mouse_mode : Bool
  pub mouse_move_mode : Bool
  pub is_landscape : Bool
  pub rect : Rect
  pub cell_width : ℕ
  pub cell_height : ℕ

-- Division of an `int`, and the byte of an `int`.
abbrev quotient : ℤ → ℕ → ℤ
quotient (pos a) n = pos (a / n)
quotient (negsuc a) n = pos 0 -ℤ pos ((a + 1) / n)

abbrev low_byte : ℤ → ℕ
low_byte (pos a) = a % 256
low_byte (negsuc a) = 255 - a % 256

abbrev pub is_kind_down : PointerKind → Bool
is_kind_down is_down = true
is_kind_down is_up = false
is_kind_down is_move = false
is_kind_down neither = false

abbrev pub is_kind_up : PointerKind → Bool
is_kind_up is_down = false
is_kind_up is_up = true
is_kind_up is_move = false
is_kind_up neither = false

abbrev pub same_point : Point → Point → Bool
same_point p q = eqb_ℤ p.x q.x && eqb_ℤ p.y q.y

module _ (v : Pane) where
  -- `initMouseBuf`, with what is added to the code of the button.
  abbrev mouse_buf : ℕ → Point → List ℕ
  mouse_buf code loc =
      0x1b
      ∷ 0x5b
      ∷ 0x4d
      ∷ (32 + code)
      ∷ low_byte (pos 33 +ℤ quotient loc.x v.cell_width)
      ∷ low_byte (pos 33 +ℤ quotient loc.y v.cell_height)
      ∷ []

  abbrev pub rotated : Point → Point
  rotated loc =
      let x = loc.x -ℤ v.rect.top_left.x in
      let y = loc.y -ℤ v.rect.top_left.y in
      if v.is_landscape
      then record { x = y; y = rect_width v.rect -ℤ x }
      else record { x = x; y = y }

  -- The writes, and the mouse after the event.
  unfoldable pub handle_touch_event : MouseEvent → Mouse → List (List ℕ) × Mouse
  handle_touch_event e m =
      let loc = rotated e.location in
      if not v.any_mouse_mode
      then ([], m)
      else if is_kind_down e.kind && eqb_ℤ m.slot no_slot
      then (mouse_buf 0 loc ∷ [], record { slot = e.slot; last = loc })
      else if is_kind_up e.kind && eqb_ℤ e.slot m.slot
      then (mouse_buf 3 loc ∷ [], record { slot = no_slot; last = loc })
      else if eqb_ℤ m.slot e.slot && not (same_point m.last loc) && v.mouse_move_mode
      then (mouse_buf 32 loc ∷ [], record { slot = m.slot; last = loc })
      else ([], record { slot = m.slot; last = loc })

  unfoldable pub handle_screen_input : MouseEvent → Mouse → List (List ℕ) × Mouse
  handle_screen_input e m = if contains v.rect e.location then handle_touch_event e m else ([], m)

-- The events of a screen whose rectangle and modes may change between them.
unfoldable pub run_mouse : List (Pane × MouseEvent) → Mouse → List (List ℕ) × Mouse
run_mouse [] m = ([], m)
run_mouse ((v, e) ∷ es) m =
    let (ws, m') = handle_screen_input v e m in
    let (rest, m'') = run_mouse es m' in (ws ++ rest, m'')

abbrev color_byte : ℕ → ℕ → ℕ
color_byte color shift = color / shift % 256

-- `color2brightness`, and `brightness2gray` with 0 for black, 1 for dithered and 2 for white.
unfoldable color_brightness : ℕ → ℕ
color_brightness color =
    (54 * color_byte color 0x10000 + 182 * color_byte color 0x100 + 19 * color_byte color 1) / 255

unfoldable pub brightness_gray : ℕ → ℕ
brightness_gray b = if leb b 85 then 0 else if ltb b 170 then 1 else 2

-- The gray of the foreground and of the background, from their brightness.
unfoldable pub cell_grays : ℕ → ℕ → ℕ × ℕ
cell_grays fg_bright bg_bright =
    let fg = brightness_gray fg_bright in
    let bg = brightness_gray bg_bright in
    if not (fg == bg)
    then (fg, bg)
    else if ltb fg_bright bg_bright
    then (if fg == 0 then (fg, bg + 1) else (fg - 1, bg))
    else if bg == 0
    then (fg + 1, bg)
    else (fg, bg - 1)
