-- ===== src/Rmlib/Devices.antt =====
-- libs/rMlib/Input.cpp: what the devices report over a sequence of the kernel's events.
use r_m2_stuff_rocket.Base.{ℕ, false, Option, none, some, List, [], ◌∷◌, ◌<◌, ◌≡◌, All}
use r_m2_stuff_rocket.Base.Int.{pos, negsuc}
use r_m2_stuff_rocket.Rmlib.Geometry.{Point}
use r_m2_stuff_rocket.Rmlib.Input.{
  RawEvent, syn_report, ev_abs, ev_key, other, abs_x, abs_y, distance, pressure, mt_slot,
  mt_tracking_id, mt_x, mt_y, mt_pressure, other_abs, TouchEvent, TouchDevice, max_num_slots, is_in,
  set_slot, handle_touch,
}

abbrev numbers : List TouchEvent → List ℕ
numbers [] = []
numbers (e ∷ es) = e.slot ∷ numbers es

abbrev pub Apart : List ℕ → Type 0
Apart [] = Unit {0}
Apart (n ∷ ns) = (is_in n ns ≡ false) × Apart ns

-- A report: its events are of different slots, which the array has.
abbrev pub IsReport : List TouchEvent → Type 0
IsReport es = Apart (numbers es) × All (λ n. n < max_num_slots) (numbers es)

-- The slot knows its number, and the array has it.
abbrev Known : (ℕ → TouchEvent) → ℕ → Type 0
Known slots n = ((slots n).slot ≡ n) × (n < max_num_slots)

pub record IsTracked (d : TouchDevice) : Type 0 where
  pub current : Known d.slots d.current
  pub changed : All (Known d.slots) d.changed_slots
  pub apart : Apart d.changed_slots

-- A change of the slots that keeps their numbers.
abbrev Renumbers : (ℕ → TouchEvent) → (ℕ → TouchEvent) → Type 0
Renumbers f g = (n : ℕ) → (f n).slot ≡ n → (g n).slot ≡ n

-- The slot that becomes current, before it is marked.
abbrev renumbered : ℕ → TouchDevice → TouchDevice
renumbered n d = record d {
  current = n;
  slots = set_slot d.slots n (record (d.slots n) { slot = n });
}

-- The slots that the kernel selects are in the array.
abbrev Selects : RawEvent → Type 0
Selects syn_report = Unit {0}
Selects (ev_abs mt_slot (pos n)) = n < max_num_slots
Selects (ev_abs mt_slot (negsuc n)) = ⊥
Selects (ev_abs abs_x v) = Unit {0}
Selects (ev_abs abs_y v) = Unit {0}
Selects (ev_abs distance v) = Unit {0}
Selects (ev_abs pressure v) = Unit {0}
Selects (ev_abs mt_tracking_id v) = Unit {0}
Selects (ev_abs mt_x v) = Unit {0}
Selects (ev_abs mt_y v) = Unit {0}
Selects (ev_abs mt_pressure v) = Unit {0}
Selects (ev_abs other_abs v) = Unit {0}
Selects (ev_key c v) = Unit {0}
Selects other = Unit {0}

record Reports (r : Option (TouchDevice × List TouchEvent)) : Type 0 where
  device : TouchDevice
  events : List TouchEvent
  pub returns : r ≡ some (device, events)
  tracked : IsTracked device
  report : IsReport events

-- Event after event: the device at the end, and the reports.
unfoldable pub run_touch :
    (Point → Point) → List RawEvent → TouchDevice → Option (TouchDevice × List (List TouchEvent))
run_touch t [] d = some (d, [])
run_touch t (e ∷ es) d = elim (handle_touch t e d) [
  | none ↦ none
  | some (d', out) ↦ elim (run_touch t es d') [
    | none ↦ none
    | some (d'', outs) ↦ some (d'', out ∷ outs)
  ]
]
