-- ===== src/Rmlib/Input.antt =====
-- libs/rMlib/Input.cpp and include/Input.h: the devices, from the events of the kernel to those of
-- the user interface. The numbers of the kernel's types and codes are constructors here, of which
-- only those that the code tests are kept apart. `none` is the exception of `slots.at`.
use r_m2_stuff_rocket.Base.{
  ℕ, zero, suc, Bool, false, ◌||◌, Option, none, some, List, [], ◌∷◌, ◌++◌, ◌==◌, ltb,
  if◌then◌else◌,
}
use r_m2_stuff_rocket.Base.Int.{ℤ, pos, negsuc}
use r_m2_stuff_rocket.Rmlib.Geometry.{Point}

pub data AbsCode : Type 0 where
  abs_x abs_y distance pressure : AbsCode
  mt_slot mt_tracking_id mt_x mt_y mt_pressure other_abs : AbsCode

pub data KeyCode : Type 0 where
  tool_pen touch : KeyCode
  key_code : ℕ → KeyCode

-- `input_event`
pub data RawEvent : Type 0 where
  syn_report : RawEvent
  ev_abs : AbsCode → ℤ → RawEvent
  ev_key : KeyCode → ℤ → RawEvent
  other : RawEvent

pub data TouchType : Type 0 where
  down up moved : TouchType

pub record TouchEvent : Type 0 where
  pub type : TouchType
  pub id : ℤ
  pub slot : ℕ
  pub location : Point
  pub force : ℤ

pub data PenType : Type 0 where
  touch_down touch_up tool_close tool_leave pen_moved : PenType

pub record PenEvent : Type 0 where
  pub type : PenType
  pub location : Point
  pub height : ℤ
  pub force : ℤ

pub record KeyEvent : Type 0 where
  pub type : ℤ
  pub code : KeyCode

abbrev pub max_num_slots : ℕ
max_num_slots = 32

abbrev pub origin : Point
origin = record { x = pos 0; y = pos 0 }

abbrev no_touch : TouchEvent
no_touch = record { type = moved; id = pos 0; slot = 0; location = origin; force = pos 0 }

-- `TouchDevice`; `changed_slots` is in the order of insertion, which the code leaves open.
pub record TouchDevice : Type 0 where
  pub current : ℕ
  pub slots : ℕ → TouchEvent
  pub changed_slots : List ℕ

abbrev pub new_touch_device : TouchDevice
new_touch_device = record { current = 0; slots = λ i. no_touch; changed_slots = [] }

unfoldable pub is_in : ℕ → List ℕ → Bool
is_in n [] = false
is_in n (m ∷ ms) = m == n || is_in n ms

abbrev insert_slot : ℕ → List ℕ → List ℕ
insert_slot n ms = if is_in n ms then ms else n ∷ ms

abbrev pub set_slot : (ℕ → TouchEvent) → ℕ → TouchEvent → ℕ → TouchEvent
set_slot f n e m = if m == n then e else f m

-- The events of a report.
unfoldable pub report_slots : (Point → Point) → (ℕ → TouchEvent) → List ℕ → List TouchEvent
report_slots transform slots [] = []
report_slots transform slots (n ∷ ns) =
    record (slots n) { location = transform (slots n).location } ∷ report_slots transform slots ns

-- `slots.at(slotIdx).type = Move` for each of them.
abbrev pub settle : List ℕ → (ℕ → TouchEvent) → ℕ → TouchEvent
settle ns slots m = if is_in m ns then record (slots m) { type = moved } else slots m

-- What an absolute value changes in the current slot.
abbrev pub change_touch : AbsCode → ℤ → TouchEvent → TouchEvent
change_touch mt_tracking_id (negsuc zero) e = record e { type = up }
change_touch mt_tracking_id (negsuc (suc n)) e = record e { type = down; id = negsuc (suc n) }
change_touch mt_tracking_id (pos n) e = record e { type = down; id = pos n }
change_touch mt_x v e = record e { location = record { x = v; y = e.location.y } }
change_touch mt_y v e = record e { location = record { x = e.location.x; y = v } }
change_touch mt_pressure v e = record e { force = v }
change_touch abs_x v e = e
change_touch abs_y v e = e
change_touch distance v e = e
change_touch pressure v e = e
change_touch mt_slot v e = e
change_touch other_abs v e = e

abbrev pub mark_changed : TouchDevice → TouchDevice
mark_changed d = record d { changed_slots = insert_slot d.current d.changed_slots }

-- The new slot, if the array has it.
abbrev select_slot : ℤ → TouchDevice → Option TouchDevice
select_slot (negsuc n) d = none
select_slot (pos n) d =
    if ltb n max_num_slots
    then some (
        mark_changed
          (record d { current = n; slots = set_slot d.slots n (record (d.slots n) { slot = n }) }))
    else none

abbrev pub change_slot : AbsCode → ℤ → TouchDevice → TouchDevice
change_slot code v d = record d {
  slots = set_slot d.slots d.current (change_touch code v (d.slots d.current));
}

-- `TouchDevice::handleEvent`
unfoldable pub handle_touch :
    (Point → Point) → RawEvent → TouchDevice → Option (TouchDevice × List TouchEvent)
handle_touch transform syn_report d = some (
  record d { slots = settle d.changed_slots d.slots; changed_slots = [] },
  report_slots transform d.slots d.changed_slots,
)
handle_touch transform (ev_abs mt_slot v) d = elim (select_slot v d) [
  | none ↦ none
  | some e ↦ some (e, [])
]
handle_touch transform (ev_abs code v) d = some (change_slot code v (mark_changed d), [])
handle_touch transform (ev_key code v) d = some (mark_changed d, [])
handle_touch transform other d = some (mark_changed d, [])

-- A key is pressed: `KeyEvent::Press`.
abbrev pub is_press : ℤ → Bool
is_press (negsuc n) = false
is_press (pos n) = n == 1

abbrev pub change_pen : RawEvent → PenEvent → PenEvent
change_pen syn_report e = e
change_pen other e = e
change_pen (ev_abs abs_x v) e = record e { location = record { x = v; y = e.location.y } }
change_pen (ev_abs abs_y v) e = record e { location = record { x = e.location.x; y = v } }
change_pen (ev_abs distance v) e = record e { height = v }
change_pen (ev_abs pressure v) e = record e { force = v }
change_pen (ev_abs mt_slot v) e = e
change_pen (ev_abs mt_tracking_id v) e = e
change_pen (ev_abs mt_x v) e = e
change_pen (ev_abs mt_y v) e = e
change_pen (ev_abs mt_pressure v) e = e
change_pen (ev_abs other_abs v) e = e
change_pen (ev_key tool_pen v) e = record e { type = if is_press v then tool_close else tool_leave }
change_pen (ev_key touch v) e = record e { type = if is_press v then touch_down else touch_up }
change_pen (ev_key (key_code c) v) e = e

-- `PenDevice::handleEvent`
unfoldable pub handle_pen : (Point → Point) → RawEvent → PenEvent → PenEvent × List PenEvent
handle_pen transform syn_report e =
    (record e { type = pen_moved }, record e { location = transform e.location } ∷ [])
handle_pen transform (ev_abs c v) e = (change_pen (ev_abs c v) e, [])
handle_pen transform (ev_key c v) e = (change_pen (ev_key c v) e, [])
handle_pen transform other e = (e, [])

-- `KeyDevice::handleEvent`, on the keys that wait for a report.
unfoldable pub handle_key : RawEvent → List KeyEvent → List KeyEvent × List KeyEvent
handle_key syn_report keys = ([], keys)
handle_key (ev_key c v) keys = (keys ++ record { type = v; code = c } ∷ [], [])
handle_key (ev_abs c v) keys = (keys, [])
handle_key other keys = (keys, [])
