-- ===== src/Ui/Gestures.antt =====
-- libs/rMlib/include/UI/Gesture.h: `GestureRenderObject`, which follows one finger or the pen. Of the
-- callbacks only their presence is kept; `is_inside` is whether the location lies in the rectangle.
use r_m2_stuff_rocket.Base.{ℕ, Bool, true, false, ◌&&◌, ◌||◌, List, [], ◌∷◌, ◌++◌, if◌then◌else◌}
use r_m2_stuff_rocket.Base.Int.{ℤ, negsuc, eqb_ℤ}
use r_m2_stuff_rocket.Rmlib.Geometry.{Point}

pub record Gestures : Type 0 where
  pub on_any : Bool
  pub on_tap : Bool
  pub on_touch_move : Bool
  pub on_touch_down : Bool
  pub on_key_down : Bool
  pub on_key_up : Bool

pub data PointerKind : Type 0 where
  is_down is_up is_move neither : PointerKind

pub record PointerEvent : Type 0 where
  pub kind : PointerKind
  pub id : ℤ
  pub location : Point
  pub is_inside : Bool

pub data KeyKind : Type 0 where
  released pressed repeated : KeyKind

pub data InputEvent : Type 0 where
  pointer : PointerEvent → InputEvent
  key : KeyKind → ℕ → InputEvent

-- What is called; `pass_on` is the child's `handleInput`.
pub data Call : Type 0 where
  any_call tap_call : Call
  touch_move_call touch_down_call : Point → Call
  key_down_call key_up_call : ℕ → Call
  pass_on : InputEvent → Call

abbrev pub no_id : ℤ
no_id = negsuc 0

abbrev pub handles_touch : Gestures → Bool
handles_touch g = g.on_tap || g.on_touch_down || g.on_touch_move

-- Whether the event is handled, the calls, and `currentId`.
pub record Handled : Type 0 where
  pub handled : Bool
  pub calls : List Call
  pub current : ℤ

abbrev not_handled : ℤ → Handled
not_handled i = record { handled = false; calls = []; current = i }

abbrev pub optional : Bool → Call → List Call
optional b c = if b then c ∷ [] else []

-- The second half of `handlePointerEv`, for the finger that is followed.
abbrev follow : Gestures → PointerEvent → ℤ → Handled
follow g e i = elim e.kind [
  | is_up ↦ record { handled = true; calls = optional g.on_tap tap_call; current = no_id }
  | is_move ↦
      if g.on_touch_move
      then record { handled = true; calls = touch_move_call e.location ∷ []; current = i }
      else not_handled i
  | _ ↦ not_handled i
]

abbrev pub follow_same : Gestures → PointerEvent → ℤ → Handled
follow_same g e i = if eqb_ℤ e.id i then follow g e i else not_handled i

-- The first half: a finger goes down inside while none is followed.
abbrev begin : Gestures → PointerEvent → ℤ → Handled
begin g e i =
    let i' = if handles_touch g then e.id else i in
    if g.on_touch_down
    then record { handled = true; calls = touch_down_call e.location ∷ []; current = i' }
    else follow_same g e i'

abbrev pub goes_down : PointerKind → Bool
goes_down is_down = true
goes_down is_up = false
goes_down is_move = false
goes_down neither = false

unfoldable pub handle_pointer : Gestures → PointerEvent → ℤ → Handled
handle_pointer g e i =
    if goes_down e.kind && e.is_inside && eqb_ℤ i no_id then begin g e i else follow_same g e i

unfoldable pub handle_key_event : Gestures → KeyKind → ℕ → ℤ → Handled
handle_key_event g pressed k i =
    if g.on_key_down
    then record { handled = true; calls = key_down_call k ∷ []; current = i }
    else not_handled i
handle_key_event g released k i =
    if g.on_key_up
    then record { handled = true; calls = key_up_call k ∷ []; current = i }
    else not_handled i
handle_key_event g repeated k i = not_handled i

unfoldable pub handle_event : Gestures → InputEvent → ℤ → Handled
handle_event g (pointer e) i = handle_pointer g e i
handle_event g (key kind k) i = handle_key_event g kind k i

-- `handleInput`: all calls, and `currentId`.
unfoldable pub handle_input : Gestures → InputEvent → ℤ → List Call × ℤ
handle_input g e i =
    let h = handle_event g e i in
    (
      optional g.on_any any_call ++ (h.calls ++ (if h.handled then [] else pass_on e ∷ [])),
      h.current,
    )

unfoldable pub run_gestures : Gestures → List InputEvent → ℤ → List Call × ℤ
run_gestures g [] i = ([], i)
run_gestures g (e ∷ es) i =
    let (calls, i') = handle_input g e i in
    let (rest, i'') = run_gestures g es i' in (calls ++ rest, i'')
