-- ===== src/Yaft/Keyboard.antt =====
-- apps/yaft/keyboard.h and keyboard.cpp: `KeyboardRenderObject`.
-- A pointer to a key of the layout is its index in `flat_keys`, one to a key of the keymap is its
-- key code. The two hash maps are functions with the default state for a key that is not in them,
-- which no operation can tell from one that is; where the code walks a map, the order of the walk
-- is a parameter, `order`, as is the time. Times are milliseconds. A slot is `none` for -1.
-- The cell that a point lies in (`getKey`'s divisions by float sizes) is a parameter too.
use r_m2_stuff_rocket.Base.{
  ℕ, Bool, true, false, not, ◌&&◌, ◌||◌, Option, none, some, List, [], ◌∷◌, ◌+◌, ◌==◌, ltb, leb,
  if◌then◌else◌,
}
use r_m2_stuff_rocket.Yaft.Layout.{
  KeyInfo, Layout, shift, ctrl, alt, mod1, mod2, is_callback, get_callback, is_modifier, flat_keys,
}
use r_m2_stuff_rocket.Yaft.Keymap.{EvKeyInfo, KeyMap}
use r_m2_stuff_rocket.Yaft.KeyCodes.{get_key_code_str}

pub record KeyState : Type 0 where
  pub slot : Option ℕ
  pub stuck : Bool
  pub held : Bool
  pub dirty : Bool
  pub next_repeat : ℕ

pub record PhysKeyState : Type 0 where
  pub down : Bool
  pub next_repeat : ℕ

abbrev pub key_state_0 : KeyState
key_state_0 = record { slot = none; stuck = false; held = false; dirty = false; next_repeat = 0 }

abbrev pub is_set : Option ℕ → Bool
is_set none = false
is_set (some n) = true

abbrev is_down : KeyState → Bool
is_down k = is_set k.slot || k.stuck || k.held

pub record Keyboard : Type 0 where
  pub keys : List KeyInfo
  pub keymap : KeyMap
  pub shift_key : Option ℕ
  pub ctrl_key : Option ℕ
  pub alt_key : Option ℕ
  pub key_state : ℕ → KeyState
  pub phys_key_state : ℕ → PhysKeyState
  -- MODE_APP_CURSOR of the terminal
  pub app_cursor : Bool
  pub repeat_delay : ℕ
  pub repeat_time : ℕ
  pub needs_draw : Bool
  -- What was written to the terminal and given to the callback, newest first.
  pub written : List (List ℕ)
  pub called : List ℕ

abbrev pub update {ℓ} : {A : Type ℓ} → (ℕ → A) → ℕ → A → ℕ → A
update f k v j = if j == k then v else f j

-- `updateLayout`: the last key with each modifier's code. (An assertion says that there is one.)
abbrev find_key : ℕ → ℕ → List KeyInfo → Option ℕ → Option ℕ
find_key code i [] found = found
find_key code i (k ∷ rest) found =
    find_key code (i + 1) rest (if k.code == code then some i else found)

unfoldable update_layout : Layout → Keyboard → Keyboard
update_layout layout s = record s {
  keys = flat_keys layout;
  key_state = λ _. key_state_0;
  phys_key_state = λ _. record { down = false; next_repeat = 0 };
  alt_key = find_key alt 0 (flat_keys layout) none;
  ctrl_key = find_key ctrl 0 (flat_keys layout) none;
  shift_key = find_key shift 0 (flat_keys layout) none;
}

abbrev written_code : Option (List ℕ) → List (List ℕ) → List (List ℕ)
written_code none out = out
written_code (some bytes) out = bytes ∷ out

-- `sendKeyDown(int, bool, bool, bool)`
unfoldable pub send_code : ℕ → Bool → Bool → Bool → Keyboard → Keyboard
send_code code sh al ct s =
    if is_callback code
    then record s { called = get_callback code ∷ s.called }
    else record s { written = written_code (get_key_code_str code sh al ct s.app_cursor) s.written }

abbrev pub modifier_down : Option ℕ → Keyboard → Bool
modifier_down none s = false
modifier_down (some k) s = is_down (s.key_state k)

-- The code that a key stands for: "use alt code if shift is pressed", and the long press.
abbrev effective_code : KeyInfo → Bool → Bool → ℕ
effective_code key repeat sh =
    if repeat && not (key.long_press_code == 0)
    then key.long_press_code
    else if not (key.alt_code == 0) && sh
    then key.alt_code
    else key.code

-- `sendKeyDown(const KeyInfo&, bool)`
unfoldable pub send_key : KeyInfo → Bool → Keyboard → Keyboard
send_key key repeat s =
    let sh = modifier_down s.shift_key s in
    if is_modifier key.code
    then s
    else send_code (effective_code key repeat sh) sh (modifier_down s.alt_key s)
        (modifier_down s.ctrl_key s) s

abbrev any_key_down : ℕ → KeyMap → (ℕ → PhysKeyState) → Bool
any_key_down code [] states = false
any_key_down code ((k, info) ∷ rest) states =
    (info.scancode == code && (states k).down) || any_key_down code rest states

abbrev ev_code : EvKeyInfo → Bool → Bool → Bool → ℕ
ev_code key m1 m2 sh =
    if not (key.mod1_scancode == 0) && m1
    then key.mod1_scancode
    else if not (key.mod2_scancode == 0) && m2
    then key.mod2_scancode
    else if not (key.shift_scancode == 0) && sh
    then key.shift_scancode
    else key.scancode

-- `sendKeyDown(const EvKeyInfo&, bool)`; `repeat` is not used there.
unfoldable pub send_ev_key : EvKeyInfo → Keyboard → Keyboard
send_ev_key key s =
    let pressed = λ (code : ℕ). any_key_down code s.keymap s.phys_key_state in
    if is_modifier key.scancode
    then s
    else send_code (ev_code key (pressed mod1) (pressed mod2) (pressed shift)) (pressed shift)
        (pressed alt) (pressed ctrl) s

-- The loop of `getKey` over the keys of the touched row, from index `i` and column `counter`.
unfoldable pub find_column : ℕ → List KeyInfo → ℕ → ℕ → Option ℕ
find_column column [] i counter = none
find_column column (k ∷ rest) i counter =
    if leb counter column && ltb column (counter + k.width)
    then some i
    else find_column column rest (i + 1) (counter + k.width)

abbrev unstick : ℕ → KeyState → KeyState
unstick until k = record k { next_repeat = until; stuck = false; dirty = k.dirty || k.stuck }

abbrev clear_key : ℕ → Option ℕ → Keyboard → Keyboard
clear_key now none s = s
clear_key now (some k) s = record s {
  key_state = update s.key_state k (unstick (now + s.repeat_delay) (s.key_state k));
}

unfoldable pub clear_sticky : ℕ → Keyboard → Keyboard
clear_sticky now s =
    clear_key now s.ctrl_key (clear_key now s.alt_key (clear_key now s.shift_key s))

-- "if (!state.held) state.stuck = !state.stuck; state.held = false;"
abbrev press_modifier : KeyState → KeyState
press_modifier k = record k { stuck = if k.held then k.stuck else not k.stuck; held = false }

abbrev pub touched : ℕ → ℕ → KeyState → KeyState
touched slot until k = record k { dirty = true; slot = some slot; next_repeat = until }

-- `handleTouchEvent`, a finger or the pen down on key `k`.
unfoldable pub touch_down : ℕ → KeyInfo → ℕ → ℕ → Keyboard → Keyboard
touch_down k key slot now s0 =
    let s = send_key key false s0 in
    let t = touched slot (now + s.repeat_delay) (s.key_state k) in
    let pressed =
      λ (u : KeyState). record s { key_state = update s.key_state k u; needs_draw = true } in
    if is_modifier key.code then pressed (press_modifier t) else clear_sticky now (pressed t)

abbrev pub same_slot : Option ℕ → ℕ → Bool
same_slot none slot = false
same_slot (some n) slot = n == slot

-- `std::find_if` over `keyState`.
unfoldable pub find_slot : ℕ → List ℕ → (ℕ → KeyState) → Option ℕ
find_slot slot [] states = none
find_slot slot (k ∷ order) states =
    if same_slot (states k).slot slot then some k else find_slot slot order states

abbrev release_key : Option ℕ → Keyboard → Keyboard
release_key none s = s
release_key (some k) s = record s {
  key_state = update s.key_state k (record (s.key_state k) { dirty = true; slot = none });
  needs_draw = true;
}

unfoldable pub touch_up : ℕ → List ℕ → Keyboard → Keyboard
touch_up slot order s = release_key (find_slot slot order s.key_state) s
