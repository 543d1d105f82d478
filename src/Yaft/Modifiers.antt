-- ===== src/Yaft/Modifiers.antt =====
-- apps/yaft/keyboard.cpp: modifier keys on the virtual keyboard.
use r_m2_stuff_rocket.Base.{
  ℕ, Bool, true, false, not, some, [], ◌∷◌, ◌+◌, ◌≤◌, ◌<◌, ◌≡◌, ◌≢◌, ◌⊎◌, ◌∙◌, inl, inr, arith,
  if◌then◌else◌,
}
use r_m2_stuff_rocket.Yaft.Layout.{KeyInfo, is_modifier, is_callback}
use r_m2_stuff_rocket.Yaft.KeyCodes.{get_key_code_str}
use r_m2_stuff_rocket.Yaft.Keyboard.{
  Keyboard, update, touched, touch_down, send_key, send_code, clear_sticky, modifier_down,
}
use r_m2_stuff_rocket.Yaft.Repeat.{repeat_key}

-- `m` is one of the three modifier keys of the layout.
abbrev IsSticky : ℕ → Keyboard → Type 0
IsSticky m s = (s.shift_key ≡ some m) ⊎ ((s.alt_key ≡ some m) ⊎ (s.ctrl_key ≡ some m))

module _ (now : ℕ) (s : Keyboard) (m : ℕ) where
  clear_sticky-stuck : IsSticky m s → ((clear_sticky now s).key_state m).stuck ≡ false
  unfolding clear_sticky
  clear_sticky-stuck (inl h) = ground arith
  clear_sticky-stuck (inr (inl h)) = ground arith
  clear_sticky-stuck (inr (inr h)) = ground arith

  clear_sticky-held : ((clear_sticky now s).key_state m).held ≡ (s.key_state m).held
  unfolding clear_sticky
  clear_sticky-held = ground arith

  pub clear_sticky-slot : ((clear_sticky now s).key_state m).slot ≡ (s.key_state m).slot
  unfolding clear_sticky
  clear_sticky-slot = ground arith

  clear_sticky-written : (clear_sticky now s).written ≡ s.written
  unfolding clear_sticky
  clear_sticky-written = ground arith

module _ (key : KeyInfo) (repeats : Bool) (s : Keyboard) where
  pub send_key-key_state : (send_key key repeats s).key_state ≡ s.key_state
  unfolding send_key send_code
  send_key-key_state = ground arith

  send_key-modifiers :
      ((send_key key repeats s).shift_key ≡ s.shift_key)
      × ((send_key key repeats s).alt_key ≡ s.alt_key)
      × ((send_key key repeats s).ctrl_key ≡ s.ctrl_key)
  unfolding send_key send_code
  send_key-modifiers = ground arith

  send_key-IsSticky : (m : ℕ) → IsSticky m s → IsSticky m (send_key key repeats s)
  send_key-IsSticky m h = ground (arith, send_key-modifiers)

-- When a key that is no modifier is pressed, whatever is stuck or held before, no modifier key of
-- the layout is stuck after it, and each is held if it was held before.
pub touch_down-one_shot :
    (k m : ℕ) (key : KeyInfo) (slot now : ℕ) (s : Keyboard)
    → is_modifier key.code ≡ false
    → IsSticky m s
    → (((touch_down k key slot now s).key_state m).stuck ≡ false)
      × (((touch_down k key slot now s).key_state m).held ≡ (s.key_state m).held)
unfolding touch_down
touch_down-one_shot k m key slot now s n h =
    let t : Keyboard = send_key key false s in
    let sticky = send_key-IsSticky key false s m h in
    let u : Keyboard = record t {
      key_state = update t.key_state k (touched slot (now + t.repeat_delay) (t.key_state k));
      needs_draw = true;
    } in
    let stuck = clear_sticky-stuck now u m sticky in
    let held = clear_sticky-held now u m in
    ground (arith, stuck, held, send_key-key_state key false s)

-- A press of a modifier key sends nothing and calls nothing, and the finger is then on the key.
-- The press turns the sticky state round, unless the key was held by a long press: then it ends
-- that, and the sticky state stays.
touch_down-modifier :
    (k : ℕ) (key : KeyInfo) (slot now : ℕ) (s : Keyboard)
    → is_modifier key.code ≡ true
    → let t = touch_down k key slot now s in
      (t.written ≡ s.written)
      × (t.called ≡ s.called)
      × ((t.key_state k).held ≡ false)
      × ((t.key_state k).stuck
          ≡ (if (s.key_state k).held then (s.key_state k).stuck else not (s.key_state k).stuck))
      × ((t.key_state k).slot ≡ some slot)
unfolding touch_down send_key
touch_down-modifier k key slot now s h = ground arith

letter-bytes :
    (code : ℕ) (sh app : Bool)
    → 0x41 ≤ code
    → code ≤ 0x5a
    → get_key_code_str code sh false false app ≡ some ((if sh then code else code + 32) ∷ [])
unfolding get_key_code_str
letter-bytes code true app lo hi = ground arith
letter-bytes code false app lo hi = ground arith

-- What a key sends is written before its state changes.
touch_down-written :
    (k : ℕ) (key : KeyInfo) (slot now : ℕ) (s : Keyboard)
    → (touch_down k key slot now s).written ≡ (send_key key false s).written
unfolding touch_down
touch_down-written k key slot now s =
    let t : Keyboard = send_key key false s in
    let u : Keyboard = record t {
      key_state = update t.key_state k (touched slot (now + t.repeat_delay) (t.key_state k));
      needs_draw = true;
    } in
    ground (arith, clear_sticky-written now u 0)

-- A letter key without an alternative code, with Alt and Ctrl up, sends one byte: the upper-case
-- letter while Shift is down (touched, stuck or held), the lower-case one otherwise.
touch_down-letter :
    (k : ℕ) (key : KeyInfo) (slot now : ℕ) (s : Keyboard)
    → 0x41 ≤ key.code
    → key.code ≤ 0x5a
    → key.alt_code ≡ 0
    → is_callback key.code ≡ false
    → modifier_down s.alt_key s ≡ false
    → modifier_down s.ctrl_key s ≡ false
    → (touch_down k key slot now s).written
      ≡ ((if modifier_down s.shift_key s then key.code else key.code + 32) ∷ []) ∷ s.written
unfolding send_key send_code
touch_down-letter k key slot now s lo hi plain code al ct =
    touch_down-written k key slot now s
    ∙ ground (arith, letter-bytes key.code (modifier_down s.shift_key s) s.app_cursor lo hi)

-- When a modifier key is under a finger and its time has come, `updateRepeat` makes it held and
-- leaves it stuck or not as it was; no other key is affected and nothing is sent.
repeat_key-holds :
    (k n : ℕ) (key : KeyInfo) (now : ℕ) (s : Keyboard)
    → is_modifier key.code ≡ true
    → (s.key_state k).slot ≡ some n
    → (s.key_state k).next_repeat < now
    → ((repeat_key k key now s).written ≡ s.written)
      × (((repeat_key k key now s).key_state k).held ≡ true)
      × (((repeat_key k key now s).key_state k).stuck ≡ (s.key_state k).stuck)
      × ((j : ℕ) → j ≢ k → (repeat_key k key now s).key_state j ≡ s.key_state j)
unfolding repeat_key send_key
repeat_key-holds k n key now s m f late =
    (ground arith, ground arith, ground arith, λ j d. ground arith)
