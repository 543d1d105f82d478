-- ===== src/Yaft/Repeat.antt =====
-- apps/yaft/keyboard.cpp: `handleKeyEvent` and `updateRepeat`, the events of a physical keyboard and
-- what happens while keys are down. The clock and the order of a walk over a map are parameters.
use r_m2_stuff_rocket.Base.{
  ℕ, true, false, not, ◌&&◌, Option, none, some, List, [], ◌∷◌, ◌+◌, ◌==◌, ltb, if◌then◌else◌,
  get_elem?,
}
use r_m2_stuff_rocket.Yaft.Layout.{KeyInfo, is_modifier}
use r_m2_stuff_rocket.Yaft.Keymap.{EvKeyInfo, KeyMap}
use r_m2_stuff_rocket.Yaft.Keyboard.{Keyboard, is_set, update, send_key, send_ev_key}

unfoldable find_ev_key : ℕ → KeyMap → Option EvKeyInfo
find_ev_key code [] = none
find_ev_key code ((k, info) ∷ rest) = if k == code then some info else find_ev_key code rest

data KeyEventType : Type 0 where
  release press repeat : KeyEventType

-- `handleKeyEvent`
abbrev ev_key_changed : ℕ → KeyEventType → ℕ → EvKeyInfo → Keyboard → Keyboard
ev_key_changed code press now info s = send_ev_key info (record s {
  phys_key_state =
      update s.phys_key_state code (record { down = true; next_repeat = now + s.repeat_delay });
})
ev_key_changed code release now info s = record s {
  phys_key_state = update s.phys_key_state code (record (s.phys_key_state code) { down = false });
}
ev_key_changed code repeat now info s = s

unfoldable handle_key_event : ℕ → KeyEventType → ℕ → Keyboard → Keyboard
handle_key_event code type now s = elim (find_ev_key code s.keymap) [
  | none ↦ s
  | some info ↦ ev_key_changed code type now info s
]

-- `std::chrono::hours(5)`
abbrev never_again : ℕ
never_again = 18000000

-- One key of the first loop of `updateRepeat`.
unfoldable pub repeat_key : ℕ → KeyInfo → ℕ → Keyboard → Keyboard
repeat_key k key now s =
    let before = s.key_state k in
    let wait = if key.long_press_code == 0 then s.repeat_time else never_again in
    let holds = record before {
      held = true;
      dirty = true;
      next_repeat = before.next_repeat + wait;
    } in
    let again = record before { next_repeat = before.next_repeat + wait } in
    let sent = send_key key true s in
    if is_set before.slot && ltb before.next_repeat now
    then (if is_modifier key.code && not before.held
        then record s { key_state = update s.key_state k holds; needs_draw = true }
        else record sent { key_state = update sent.key_state k again })
    else s

unfoldable repeat_keys : List ℕ → ℕ → Keyboard → Keyboard
repeat_keys [] now s = s
repeat_keys (k ∷ order) now s =
    repeat_keys order now
      (elim (get_elem? s.keys k) [ none ↦ s | some key ↦ repeat_key k key now s ])

-- One key of the second loop.
unfoldable repeat_ev_key : ℕ → EvKeyInfo → ℕ → Keyboard → Keyboard
repeat_ev_key code info now s =
    let before = s.phys_key_state code in
    let sent = if is_modifier info.scancode then s else send_ev_key info s in
    if before.down && ltb before.next_repeat now
    then record sent {
      phys_key_state =
          update sent.phys_key_state code
            (record before { next_repeat = before.next_repeat + s.repeat_time });
    }
    else s

unfoldable repeat_ev_keys : List ℕ → ℕ → Keyboard → Keyboard
repeat_ev_keys [] now s = s
repeat_ev_keys (code ∷ order) now s =
    repeat_ev_keys order now
      (elim (find_ev_key code s.keymap) [ none ↦ s | some info ↦ repeat_ev_key code info now s ])

-- `updateRepeat`
unfoldable update_repeat : List ℕ → List ℕ → ℕ → Keyboard → Keyboard
update_repeat order ev_order now s = repeat_ev_keys ev_order now (repeat_keys order now s)
