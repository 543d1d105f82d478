-- ===== src/Yaft/Examples.antt =====
-- The keyboard's theorems at the keyboard of the terminal emulator, as it starts.
use r_m2_stuff_rocket.Base.{
  ℕ, true, false, none, some, List, [], ◌∷◌, ◌≡◌, ◌≢◌, refl, if◌then◌else◌, ◌==◌, arith, inl,
}
use r_m2_stuff_rocket.Yaft.Layout.{KeyInfo, shift}
use r_m2_stuff_rocket.Yaft.Keyboard.{Keyboard, key_state_0, touch_down, touch_up}
use r_m2_stuff_rocket.Yaft.Modifiers.{touch_down-one_shot}
use r_m2_stuff_rocket.Base.Int.{pos}
use r_m2_stuff_rocket.Rmlib.Geometry.{Point, Rect}
use r_m2_stuff_rocket.Ui.Gestures.{is_down, is_up, is_move}
use r_m2_stuff_rocket.Yaft.Screen.{View, do_draw}
use r_m2_stuff_rocket.Yaft.Lines.{Shown, do_draw-Shown}
use r_m2_stuff_rocket.Yaft.Mouse.{MouseEvent, Mouse, no_slot, Pane, run_mouse}
use r_m2_stuff_rocket.Yaft.Presses.{button_after, is_pressed, run_mouse-button}
use r_m2_stuff_rocket.Yaft.Slots.{OneKey, Covers, touch_down-OneKey, touch_up-lifts}

abbrev letter_key : KeyInfo
letter_key = record {
  name = "A";
  code = 0x41;
  alt_name = "";
  alt_code = 0;
  width = 1;
  long_press_code = 0;
}

abbrev shift_info : KeyInfo
shift_info = record {
  name = "shift";
  code = shift;
  alt_name = "";
  alt_code = 0;
  width = 1;
  long_press_code = 0;
}

-- Key 0 is a letter, keys 1, 2 and 3 are the modifiers; Shift is stuck.
abbrev board : Keyboard
board = record {
  keys = letter_key ∷ shift_info ∷ [];
  keymap = [];
  shift_key = some 1;
  ctrl_key = some 2;
  alt_key = some 3;
  key_state = λ k. key_state_0;
  phys_key_state = λ k. record { down = false; next_repeat = 0 };
  app_cursor = false;
  repeat_delay = 1000;
  repeat_time = 100;
  needs_draw = false;
  written = [];
  called = [];
}

abbrev shifted_board : Keyboard
shifted_board = record board { key_state = λ k. record key_state_0 { slot = some 4; stuck = true } }

touch_down-one_shot_example :
    (((touch_down 0 letter_key 2 50 shifted_board).key_state 1).stuck ≡ false)
    × (((touch_down 0 letter_key 2 50 shifted_board).key_state 1).held ≡ false)
touch_down-one_shot_example = touch_down-one_shot 0 1 letter_key 2 50 shifted_board refl (inl refl)

-- Finger 4 is on key 1 and on no other.
abbrev one_finger : Keyboard
one_finger = record board {
  key_state = λ k. record key_state_0 { slot = if k == 1 then some 4 else none };
}

one_finger-OneKey : OneKey one_finger
one_finger-OneKey i j n p q = ground arith

one_finger-Covers : Covers (1 ∷ []) one_finger
one_finger-Covers k n p = inl (ground arith)

touch_down-OneKey_example :
    (((touch_down 0 letter_key 2 50 one_finger).key_state 0).slot ≡ some 2)
    × ((j : ℕ)
        → j ≢ 0
        → ((touch_down 0 letter_key 2 50 one_finger).key_state j).slot
          ≡ (one_finger.key_state j).slot)
    × (((j : ℕ) → j ≢ 0 → (one_finger.key_state j).slot ≢ some 2)
        → OneKey (touch_down 0 letter_key 2 50 one_finger))
    × (OneKey (touch_down 0 letter_key 2 50 one_finger)
        → (j : ℕ) → j ≢ 0
        → (one_finger.key_state j).slot ≢ some 2)
touch_down-OneKey_example = touch_down-OneKey 0 letter_key 2 50 one_finger one_finger-OneKey

touch_up-lifts_example :
    (((touch_up 4 (1 ∷ []) one_finger).key_state 1).slot ≢ some 4)
    × ((one_finger.key_state 1).slot ≢ some 4
        → ((touch_up 4 (1 ∷ []) one_finger).key_state 1).slot ≡ (one_finger.key_state 1).slot)
touch_up-lifts_example = touch_up-lifts 4 (1 ∷ []) one_finger one_finger-OneKey one_finger-Covers 1

-- A screen of 3 lines of 20 pixels; the cursor is on the last one.
abbrev screen_rect : Rect
screen_rect = record {
  top_left = record { x = pos 0; y = pos 0 };
  bottom_right = record { x = pos 99; y = pos 59 };
}

abbrev small_view : View
small_view = record {
  lines = 3;
  height = pos 60;
  margin_top = pos 0;
  cursor_on = true;
  cursor_y = 2;
  should_clear = false;
  cell_height = 20;
  is_landscape = false;
  auto_refresh = 0;
  is_full_draw = false;
  rect = screen_rect;
}

do_draw-Shown_example : Shown small_view (λ l. l == 0) (do_draw small_view 5 (λ l. l == 0))
do_draw-Shown_example = do_draw-Shown small_view 5 (λ l. l == 0)

abbrev small_pane : Pane
small_pane = record {
  any_mouse_mode = true;
  mouse_move_mode = true;
  is_landscape = false;
  rect = screen_rect;
  cell_width = 10;
  cell_height = 20;
}

abbrev point_at : ℕ → ℕ → Point
point_at x y = record { x = pos x; y = pos y }

abbrev no_press : Mouse
no_press = record { slot = no_slot; last = point_at 0 0 }

abbrev drag : List (Pane × MouseEvent)
drag =
    (small_pane, record { kind = is_down; slot = pos 2; location = point_at 5 5 })
    ∷ (small_pane, record { kind = is_move; slot = pos 2; location = point_at 25 5 })
    ∷ (small_pane, record { kind = is_up; slot = pos 2; location = point_at 25 45 })
    ∷ []

run_mouse-button_example :
    button_after (is_pressed no_press) (run_mouse drag no_press).0
    ≡ some (is_pressed (run_mouse drag no_press).1)
run_mouse-button_example = run_mouse-button drag no_press (refl, (refl, (refl, tt)))
