-- ===== src/Rmlib/Frames.antt =====
-- libs/rMlib/Input.cpp: the reports of the pen and of the keyboard over sequences of events.
use r_m2_stuff_rocket.Base.{
  append-append, append-nil, Option, none, some, List, [], ◌∷◌, ◌++◌, ◌≡◌, refl, sym, ap, ◌∙◌, All,
  if◌then◌else◌,
}
use r_m2_stuff_rocket.Base.Int.{ℤ}
use r_m2_stuff_rocket.Rmlib.Geometry.{Point}
use r_m2_stuff_rocket.Rmlib.Input.{
  RawEvent, syn_report, ev_abs, ev_key, other, tool_pen, touch, key_code, abs_x, abs_y, distance,
  pressure, mt_slot, mt_tracking_id, mt_x, mt_y, mt_pressure, other_abs, KeyEvent, PenEvent,
  PenType, touch_down, touch_up, tool_close, tool_leave, pen_moved, is_press, change_pen,
  handle_pen, handle_key,
}

-- Event after event: the keys that wait at the end, and all that was reported.
unfoldable run_key : List RawEvent → List KeyEvent → List KeyEvent × List KeyEvent
run_key [] keys = (keys, [])
run_key (e ∷ es) keys =
    let (keys', out) = handle_key e keys in
    let (keys'', outs) = run_key es keys' in (keys'', out ++ outs)

abbrev keys_of : List RawEvent → List KeyEvent
keys_of [] = []
keys_of (syn_report ∷ es) = keys_of es
keys_of (ev_abs c v ∷ es) = keys_of es
keys_of (ev_key c v ∷ es) = record { type = v; code = c } ∷ keys_of es
keys_of (other ∷ es) = keys_of es

-- No key event is lost, repeated or moved: over any sequence of events, what was reported and then
-- what still waits are the keys that waited and then the key events, in order.
run_key-keeps :
    (es : List RawEvent) (keys : List KeyEvent)
    → (run_key es keys).1 ++ (run_key es keys).0 ≡ keys ++ keys_of es
unfolding run_key handle_key
run_key-keeps [] keys = sym (append-nil keys)
run_key-keeps (syn_report ∷ es) keys =
    append-append keys (run_key es []).1 (run_key es []).0
    ∙ ap (λ x. keys ++ x) (run_key-keeps es [])
run_key-keeps (ev_abs c v ∷ es) keys = run_key-keeps es keys
run_key-keeps (ev_key c v ∷ es) keys =
    let e : KeyEvent = record { type = v; code = c } in
    run_key-keeps es (keys ++ e ∷ []) ∙ append-append keys (e ∷ []) (keys_of es)
run_key-keeps (other ∷ es) keys = run_key-keeps es keys

unfoldable run_pen : (Point → Point) → List RawEvent → PenEvent → PenEvent × List PenEvent
run_pen t [] pen = (pen, [])
run_pen t (e ∷ es) pen =
    let (pen', out) = handle_pen t e pen in
    let (pen'', outs) = run_pen t es pen' in (pen'', out ++ outs)

-- What one event says of the pen's contact and of the two coordinates.
abbrev contact_of : RawEvent → Option PenType
contact_of syn_report = none
contact_of other = none
contact_of (ev_abs c v) = none
contact_of (ev_key tool_pen v) = some (if is_press v then tool_close else tool_leave)
contact_of (ev_key touch v) = some (if is_press v then touch_down else touch_up)
contact_of (ev_key (key_code c) v) = none

abbrev x_of : RawEvent → Option ℤ
x_of syn_report = none
x_of other = none
x_of (ev_key c v) = none
x_of (ev_abs abs_x v) = some v
x_of (ev_abs c v) = none

abbrev y_of : RawEvent → Option ℤ
y_of syn_report = none
y_of other = none
y_of (ev_key c v) = none
y_of (ev_abs abs_y v) = some v
y_of (ev_abs c v) = none

abbrev or_else {ℓ} : {A : Type ℓ} → Option A → A → A
or_else none a = a
or_else (some b) a = b

-- The last of the events that says something, or else a default.
abbrev last_of {ℓ} : {A : Type ℓ} → (RawEvent → Option A) → List RawEvent → A → A
last_of f [] a = a
last_of f (e ∷ es) a = last_of f es (or_else (f e) a)

abbrev IsInFrame : RawEvent → Type 0
IsInFrame syn_report = ⊥
IsInFrame (ev_abs c v) = Unit {0}
IsInFrame (ev_key c v) = Unit {0}
IsInFrame other = Unit {0}

-- What one event says of the height and of the force.
abbrev height_of : RawEvent → Option ℤ
height_of syn_report = none
height_of other = none
height_of (ev_key c v) = none
height_of (ev_abs distance v) = some v
height_of (ev_abs c v) = none

abbrev force_of : RawEvent → Option ℤ
force_of syn_report = none
force_of other = none
force_of (ev_key c v) = none
force_of (ev_abs pressure v) = some v
force_of (ev_abs c v) = none

-- The last that the events say of each field, or else what the pen has.
abbrev last_said : (Point → Point) → List RawEvent → PenEvent → PenEvent
last_said t es pen = record {
  type = last_of contact_of es pen.type;
  location = t (record { x = last_of x_of es pen.location.x; y = last_of y_of es pen.location.y });
  height = last_of height_of es pen.height;
  force = last_of force_of es pen.force;
}

change_pen-said :
    (e : RawEvent) (pen : PenEvent)
    → change_pen e pen ≡ record {
      type = or_else (contact_of e) pen.type;
      location = record {
        x = or_else (x_of e) pen.location.x;
        y = or_else (y_of e) pen.location.y;
      };
      height = or_else (height_of e) pen.height;
      force = or_else (force_of e) pen.force;
    }
change_pen-said syn_report pen = refl
change_pen-said other pen = refl
change_pen-said (ev_key tool_pen v) pen = refl
change_pen-said (ev_key touch v) pen = refl
change_pen-said (ev_key (key_code c) v) pen = refl
change_pen-said (ev_abs abs_x v) pen = refl
change_pen-said (ev_abs abs_y v) pen = refl
change_pen-said (ev_abs distance v) pen = refl
change_pen-said (ev_abs pressure v) pen = refl
change_pen-said (ev_abs mt_slot v) pen = refl
change_pen-said (ev_abs mt_tracking_id v) pen = refl
change_pen-said (ev_abs mt_x v) pen = refl
change_pen-said (ev_abs mt_y v) pen = refl
change_pen-said (ev_abs mt_pressure v) pen = refl
change_pen-said (ev_abs other_abs v) pen = refl

-- The events of a frame, none of which is a report, and then the report give one event of the pen:
-- each field is the last that the frame said of it, or else what the pen had. The pen then only
-- moves.
run_pen-report :
    (t : Point → Point) (es : List RawEvent) (pen : PenEvent)
    → All IsInFrame es
    → ((run_pen t (es ++ syn_report ∷ []) pen).1 ≡ last_said t es pen ∷ [])
      × ((run_pen t (es ++ syn_report ∷ []) pen).0.type ≡ pen_moved)
unfolding run_pen handle_pen
run_pen-report t [] pen h = (refl, refl)
run_pen-report t (syn_report ∷ es) pen h = absurd h.0
run_pen-report t (other ∷ es) pen h = run_pen-report t es pen h.1
run_pen-report t (ev_abs c v ∷ es) pen h =
    let k = run_pen-report t es (change_pen (ev_abs c v) pen) h.1 in
    (k.0 ∙ ap (λ p. last_said t es p ∷ []) (change_pen-said (ev_abs c v) pen), k.1)
run_pen-report t (ev_key c v ∷ es) pen h =
    let k = run_pen-report t es (change_pen (ev_key c v) pen) h.1 in
    (k.0 ∙ ap (λ p. last_said t es p ∷ []) (change_pen-said (ev_key c v) pen), k.1)
