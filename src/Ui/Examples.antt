-- ===== src/Ui/Examples.antt =====
-- libs/rMlib/include/UI: a dialog, a wrapping row and the timers of an application.
use r_m2_stuff_rocket.Base.{
  ◌==◌, ◌/◌, ◌*◌, ◌+◌, length, max, ◌≡◌, ℕ, true, false, none, some, List, [], ◌∷◌, refl, arith,
  ◌+◌, min, All, ◌++◌, false, String, same_text, if◌then◌else◌,
}
use r_m2_stuff_rocket.Ui.Constraints.{Extent, Insets, Constraints}
use r_m2_stuff_rocket.Ui.Layout.{Widget, text, center, border, sized, stack, nil, cons, layout}
use r_m2_stuff_rocket.Ui.Total.{Fits, layout-Fits, NoPositioned}
use r_m2_stuff_rocket.Ui.Wrap.{horizontal_axis, wrap, draw_wrapped}
use r_m2_stuff_rocket.Ui.WrapDraw.{Draws, draw_wrapped-Draws}
use r_m2_stuff_rocket.Ui.Flex.{Floats, Child}
use r_m2_stuff_rocket.Ui.Timers.{Timer, TimerOp, add_timer, disable, apply_ops}
use r_m2_stuff_rocket.Ui.Due.{HasTop, apply_ops-HasTop}
use r_m2_stuff_rocket.Ui.Calls.{Calls}
use r_m2_stuff_rocket.Base.Int.{pos}
use r_m2_stuff_rocket.Rmlib.Geometry.{Point}
use r_m2_stuff_rocket.Ui.Cache.{Note, Node, leaf, single, mark_needs_layout, fresh, lay}
use r_m2_stuff_rocket.Ui.Remembered.{Refines}
use r_m2_stuff_rocket.Ui.Layouts.{mark_needs_layout-IsRemembered, lay-Refines}
use r_m2_stuff_rocket.Ui.Gestures.{
  Gestures, PointerEvent, is_down, is_move, is_up, InputEvent, pointer, key, pressed, tap_call,
  touch_down_call, no_id, optional, run_gestures,
}
use r_m2_stuff_rocket.Ui.Taps.{Holds, touch_calls, moves_of, run_gestures-tap}
use r_m2_stuff_rocket.Rmlib.Geometry.{Rect, rect_width, rect_height}
use r_m2_stuff_rocket.Ui.Remembered.{IsRemembered}
use r_m2_stuff_rocket.Ui.Updates.{Change, padding_change, text_change, before, updated, new_widget}
use r_m2_stuff_rocket.Ui.Unchanged.{KeepsSizes}
use r_m2_stuff_rocket.Ui.Updated.{lay-updated}
use r_m2_stuff_rocket.Ui.Draw.{draw}
use r_m2_stuff_rocket.Ui.Inside.{HasSize}
use r_m2_stuff_rocket.Ui.Drawing.{HasRoom, HaveRoom, IsPlaced, draw-IsPlaced}
use r_m2_stuff_rocket.Ui.DrawnWidgets.{count}
use r_m2_stuff_rocket.Base.Int.{◌+ℤ◌, ◌-ℤ◌}
use r_m2_stuff_rocket.Ui.Constraints.{inset, contain, expand}
use r_m2_stuff_rocket.Ui.Layout.{checked, clamp_size, loosen, resize, fill_around}

abbrev screen : Constraints
screen = record {
  least = record { width = 0; height = 0 };
  most = record { width = 1404; height = 1872 };
}

abbrev thin : Insets
thin = record { top = 2; bottom = 2; left = 2; right = 2 }

abbrev dialog : Widget
dialog = center (
    border thin (
      stack (
        cons (text (record { width = 300; height = 48 }))
          (cons (sized (some 600) none (text (record { width = 9000; height = 48 }))) nil))))

layout-Fits_example : Fits screen (layout dialog screen)
unfolding NoPositioned
layout-Fits_example =
    layout-Fits dialog screen (tt, (tt, tt)) (omega arith, omega arith, omega arith, omega arith)

abbrev icon : Extent
icon = record { width = 300; height = 200 }

abbrev icons : List Extent
icons = icon ∷ icon ∷ icon ∷ []

draw_wrapped-Draws_example :
    Draws horizontal_axis 700 500 icons (draw_wrapped horizontal_axis 700 700 500 icons)
unfolding wrap
draw_wrapped-Draws_example =
    draw_wrapped-Draws horizontal_axis 700 700 500 icons (omega arith) (omega arith) (omega arith)

abbrev tick_timer : Timer
tick_timer = record { id = 1; repeat = some 50; trigger_time = 100; callback = 7; enabled = true }

abbrev old_timer : Timer
old_timer = record { id = 2; repeat = none; trigger_time = 110; callback = 8; enabled = false }

apply_ops-HasTop_example :
    HasTop tick_timer
      (apply_ops 100 (add_timer 5 0 9 none ∷ disable 1 ∷ []) (tick_timer ∷ old_timer ∷ []))
apply_ops-HasTop_example =
    apply_ops-HasTop 100 (add_timer 5 0 9 none ∷ disable 1 ∷ []) tick_timer (old_timer ∷ [])
      (omega arith)

-- Two microseconds pass between two moments, until the clock is stopped.
abbrev slow_clock : ℕ → ℕ
slow_clock n = min 400 (100 + n + n)

abbrev no_ops : ℕ → ℕ → List TimerOp
no_ops c n = []

-- Floats that are whole numbers.
abbrev whole_floats : Floats ℕ
whole_floats = record {
  is_zero = λ f. f == 0;
  add = λ n f. n + f;
  share = λ f room total. f * room / total;
}

abbrev short_text : Child ℕ
short_text = record {
  flex = 0;
  lay = λ d. some (record {
    width = max d.least.width (min 100 d.most.width);
    height = max d.least.height (min 48 d.most.height);
  });
}

-- An expanded blank area.
abbrev filler : ℕ → Child ℕ
filler n = record { flex = n; lay = λ d. some d.least }

abbrev row : List (Child ℕ)
row = short_text ∷ filler 2 ∷ filler 1 ∷ []

abbrev new_note : Note
new_note = record { dirty = true; last = screen; size = record { width = 0; height = 0 } }

abbrev padded : Node
padded = single (λ c. c) (λ c s. s) new_note (leaf (λ c. c.least) new_note)

-- A tree just marked, as after its creation.
lay-Refines_example :
    Refines
      (mark_needs_layout padded)
      (fresh (mark_needs_layout padded) screen)
      (lay (mark_needs_layout padded) screen)
lay-Refines_example =
    lay-Refines (mark_needs_layout padded) screen (mark_needs_layout-IsRemembered padded)

abbrev button : Gestures
button = record {
  on_any = true;
  on_tap = true;
  on_touch_move = true;
  on_touch_down = true;
  on_key_down = false;
  on_key_up = false;
}

abbrev spot : Point
spot = record { x = pos 20; y = pos 30 }

abbrev finger_down : PointerEvent
finger_down = record { kind = is_down; id = pos 3; location = spot; is_inside = true }

-- The finger moves, a key goes down, and another finger is lifted.
abbrev between : List InputEvent
between =
    pointer (record { kind = is_move; id = pos 3; location = spot; is_inside = false })
    ∷ key pressed 30
    ∷ pointer (record { kind = is_up; id = pos 4; location = spot; is_inside = true })
    ∷ []

abbrev finger_up : PointerEvent
finger_up = record { kind = is_up; id = pos 3; location = spot; is_inside = true }

between_holds : All (Holds (pos 3)) between
between_holds = (λ e. absurd (ground arith), (tt, (λ e. refl, tt)))

run_gestures-tap_example :
    (touch_calls
        (run_gestures button (pointer finger_down ∷ between ++ pointer finger_up ∷ []) no_id).0
      ≡ optional true (touch_down_call spot)
        ++ (moves_of button (pos 3) between ++ optional true tap_call))
    × ((run_gestures button (pointer finger_down ∷ between ++ pointer finger_up ∷ []) no_id).1
        ≡ no_id)
run_gestures-tap_example =
    run_gestures-tap button finger_down finger_up between refl refl refl refl between_holds refl
      refl

abbrev dialog_rect : Rect
dialog_rect = record {
  top_left = record { x = pos 0; y = pos 0 };
  bottom_right = record { x = pos 1403; y = pos 1871 };
}

dialog-HasRoom : HasRoom dialog screen
unfolding HasRoom HaveRoom loosen
dialog-HasRoom = (omega arith, omega arith, (tt, (tt, tt)))

dialog-HasSize : HasSize dialog_rect (record { width = 1404; height = 1872 })
unfolding rect_width rect_height ◌+ℤ◌ ◌-ℤ◌
dialog-HasSize = (ground arith, ground arith)

dialog-layout : layout dialog screen ≡ some (record { width = 1404; height = 1872 })
unfolding layout checked clamp_size inset loosen contain resize expand fill_around
dialog-layout = refl

draw-IsPlaced_example :
    All (IsPlaced dialog_rect) (draw dialog screen dialog_rect)
    × (length (draw dialog screen dialog_rect) ≡ count dialog)
unfolding NoPositioned
draw-IsPlaced_example =
    draw-IsPlaced dialog screen dialog_rect (record { width = 1404; height = 1872 }) (tt, (tt, tt))
      (omega arith, omega arith, omega arith, omega arith) dialog-HasRoom dialog-layout
      dialog-HasSize

abbrev glyphs : String → ℕ → Extent
glyphs s k = record { width = if same_text s "on" then 300 else 200; height = k }

abbrev inner_screen : Constraints
inner_screen = record {
  least = record { width = 0; height = 0 };
  most = record { width = 1400; height = 1868 };
}

-- A padded text that was laid out; the new widget has another text.
abbrev switched : Change
switched =
    padding_change thin thin
      (record { dirty = false; last = screen; size = record { width = 304; height = 52 } })
      (text_change "on" 48 "off" 48
        (record { dirty = false; last = inner_screen; size = record { width = 300; height = 48 } }))

switched-IsRemembered : IsRemembered (before glyphs switched)
unfolding IsRemembered before fresh same_text checked clamp_size inset contain expand
switched-IsRemembered = (λ d v. refl, λ d. refl)

switched-KeepsSizes : KeepsSizes switched
unfolding KeepsSizes
switched-KeepsSizes = tt

lay-updated_example :
    Refines
      (updated glyphs false switched)
      (layout (new_widget glyphs switched) screen)
      (lay (updated glyphs false switched) screen)
lay-updated_example = lay-updated glyphs switched screen switched-IsRemembered switched-KeepsSizes
