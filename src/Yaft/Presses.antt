-- ===== src/Yaft/Presses.antt =====
-- apps/yaft/screen.cpp: what a terminal is told of the mouse, and the grays that it shows.
use r_m2_stuff_rocket.Base.{
  ℕ, Bool, true, false, not, Option, none, some, List, [], ◌∷◌, ◌++◌, ◌≤◌, ◌≡◌, ◌≢◌, ◌==◌, ◌&&◌,
  if◌then◌else◌, get_or, refl, ◌∙◌, arith, All, Bool-cases, inl, inr,
}
use r_m2_stuff_rocket.Base.Int.{ℤ, eqb_ℤ}
use r_m2_stuff_rocket.Rmlib.Geometry.{contains}
use r_m2_stuff_rocket.Yaft.Mouse.{
  MouseEvent, Mouse, no_slot, Pane, rotated, is_kind_down, is_kind_up, same_point,
  handle_touch_event, handle_screen_input, run_mouse, brightness_gray, cell_grays,
}

-- Whether the button is down after these writes: a press is only told when it is up, and a release or a move
-- when it is down; `none` when that does not hold, or for another write.
abbrev pub button_after : Bool → List (List ℕ) → Option Bool
button_after down [] = some down
button_after down (w ∷ ws) =
    let code = get_or w 3 0 in
    if code == 32
    then (if down then none else button_after true ws)
    else if code == 35
    then (if down then button_after false ws else none)
    else if code == 64
    then (if down then button_after true ws else none)
    else none

abbrev pub is_pressed : Mouse → Bool
is_pressed m = not (eqb_ℤ m.slot no_slot)

-- The event is of a finger or the pen.
abbrev HasSlot : Pane × MouseEvent → Type 0
HasSlot (v, e) = eqb_ℤ e.slot no_slot ≡ false

and_first : (a b c : Bool) → a && b && c ≡ true → a ≡ true
and_first a b c h = ground arith

and_second : (a b : Bool) → a && b ≡ true → b ≡ true
and_second a b h = ground arith

eqb_ℤ-sym : (a b : ℤ) → eqb_ℤ a b ≡ true → eqb_ℤ b a ≡ true
eqb_ℤ-sym a b h = ground arith

other_slot : (e m : ℤ) → eqb_ℤ e no_slot ≡ false → eqb_ℤ e m ≡ true → eqb_ℤ m no_slot ≡ false
other_slot e m h k = ground arith

touch_tells :
    (v : Pane) (e : MouseEvent) (m : Mouse) (ws : List (List ℕ))
    → eqb_ℤ e.slot no_slot ≡ false
    → button_after (is_pressed m) ((handle_touch_event v e m).0 ++ ws)
      ≡ button_after (is_pressed (handle_touch_event v e m).1) ws
unfolding handle_touch_event
touch_tells v e m ws h =
    let loc = rotated v e.location in
    elim (Bool-cases v.any_mouse_mode) [
      | inr q ↦ rw q refl
      | inl q ↦ elim (Bool-cases (is_kind_down e.kind && eqb_ℤ m.slot no_slot)) [
        | inl a ↦
            let up : eqb_ℤ m.slot no_slot ≡ true =
              and_second (is_kind_down e.kind) (eqb_ℤ m.slot no_slot) a in
            rw (q, a, h, up) refl
        | inr a ↦ elim (Bool-cases (is_kind_up e.kind && eqb_ℤ e.slot m.slot)) [
          | inl b ↦
              let down : eqb_ℤ m.slot no_slot ≡ false =
                other_slot e.slot m.slot h
                  (and_second (is_kind_up e.kind) (eqb_ℤ e.slot m.slot) b) in
              rw (q, a, b, down) refl
          | inr b ↦
              elim (Bool-cases
                (eqb_ℤ m.slot e.slot && not (same_point m.last loc) && v.mouse_move_mode)) [
                  | inl d ↦
                      let down : eqb_ℤ m.slot no_slot ≡ false = other_slot e.slot m.slot h (
                        eqb_ℤ-sym m.slot e.slot (
                          and_first (eqb_ℤ m.slot e.slot) (not (same_point m.last loc))
                            v.mouse_move_mode d)) in
                      rw (q, a, b, d, down) refl
                  | inr d ↦ rw (q, a, b, d) refl
                ]
        ]
      ]
    ]

input_tells :
    (v : Pane) (e : MouseEvent) (m : Mouse) (ws : List (List ℕ))
    → eqb_ℤ e.slot no_slot ≡ false
    → button_after (is_pressed m) ((handle_screen_input v e m).0 ++ ws)
      ≡ button_after (is_pressed (handle_screen_input v e m).1) ws
unfolding handle_screen_input
input_tells v e m ws h = elim (Bool-cases (contains v.rect e.location)) [
  | inl q ↦ rw q (touch_tells v e m ws h)
  | inr q ↦ rw q refl
]

-- For events of a finger or the pen, which is what the writes are made of: a press is only written when the
-- button is up, a release or a move only when it is down, and after all of them the writes and the screen agree
-- on whether it is down.
pub run_mouse-button :
    (es : List (Pane × MouseEvent)) (m : Mouse)
    → All HasSlot es
    → button_after (is_pressed m) (run_mouse es m).0 ≡ some (is_pressed (run_mouse es m).1)
unfolding run_mouse
run_mouse-button [] m h = refl
run_mouse-button ((v, e) ∷ es) m h =
    input_tells v e m (run_mouse es (handle_screen_input v e m).1).0 h.0
    ∙ run_mouse-button es (handle_screen_input v e m).1 h.1

-- The two grays of a cell are shades there are, and they differ.
cell_grays-visible :
    (fg bg : ℕ)
    → ((cell_grays fg bg).0 ≤ 2)
      × ((cell_grays fg bg).1 ≤ 2)
      × ((cell_grays fg bg).0 ≢ (cell_grays fg bg).1)
unfolding cell_grays brightness_gray
cell_grays-visible fg bg = ground arith
