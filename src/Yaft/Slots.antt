-- ===== src/Yaft/Slots.antt =====
-- apps/yaft/keyboard.cpp: which finger is on which key.
use r_m2_stuff_rocket.Base.{
  ℕ, true, false, ◌==◌, ◌+◌, Option, none, some, List, [], ◌∷◌, if◌then◌else◌, ap, ◌∙◌, sym, ◌≡◌,
  ◌≢◌, ◌⊎◌, inl, inr, refl, arith, Bool-cases, Option-cases,
}
use r_m2_stuff_rocket.Yaft.Layout.{KeyInfo}
use r_m2_stuff_rocket.Yaft.Keyboard.{
  Keyboard, KeyState, same_slot, touch_down, touch_up, find_slot, update, touched, send_key,
}
use r_m2_stuff_rocket.Yaft.Modifiers.{send_key-key_state, clear_sticky-slot}

-- No finger is on two keys.
abbrev pub OneKey : Keyboard → Type 0
OneKey s = (i j n : ℕ) → (s.key_state i).slot ≡ some n → (s.key_state j).slot ≡ some n → i ≡ j

-- A walk over the map meets every key that a finger is on.
abbrev In : ℕ → List ℕ → Type 0
In k [] = ⊥
In k (j ∷ order) = (k ≡ j) ⊎ In k order

abbrev pub Covers : List ℕ → Keyboard → Type 0
Covers order s = (k n : ℕ) → (s.key_state k).slot ≡ some n → In k order

-- The slots after a key is pressed.
touch_down-slot :
    (k j : ℕ) (key : KeyInfo) (slot now : ℕ) (s : Keyboard)
    → ((touch_down k key slot now s).key_state j).slot
      ≡ (if j == k then some slot else (s.key_state j).slot)
unfolding touch_down
touch_down-slot k j key slot now s =
    let t : Keyboard = send_key key false s in
    let u : Keyboard = record t {
      key_state = update t.key_state k (touched slot (now + t.repeat_delay) (t.key_state k));
      needs_draw = true;
    } in
    ground (arith, clear_sticky-slot now u j, send_key-key_state key false s)

-- When no finger is on two keys: a finger that goes down on a key is on it afterwards, every other key is
-- under the finger that it was under, and no finger is on two keys afterwards if and only if the
-- finger that goes down was on none of the other keys, which the code does not test.
pub touch_down-OneKey :
    (k : ℕ) (key : KeyInfo) (slot now : ℕ) (s : Keyboard)
    → OneKey s
    → (((touch_down k key slot now s).key_state k).slot ≡ some slot)
      × ((j : ℕ) → j ≢ k → ((touch_down k key slot now s).key_state j).slot ≡ (s.key_state j).slot)
      × (((j : ℕ) → j ≢ k → (s.key_state j).slot ≢ some slot)
          → OneKey (touch_down k key slot now s))
      × (OneKey (touch_down k key slot now s) → (j : ℕ) → j ≢ k → (s.key_state j).slot ≢ some slot)
touch_down-OneKey k key slot now s one = (
  at_key,
  at_other,
  (λ free i j n p q. ground (
    arith,
    touch_down-slot k i key slot now s,
    touch_down-slot k j key slot now s,
    one i j n,
    free i,
    free j,
  )),
  λ after j n p. n (after j k slot (at_other j n ∙ p) at_key),
)
  where
    at_key : ((touch_down k key slot now s).key_state k).slot ≡ some slot
    at_key = ground (arith, touch_down-slot k k key slot now s)

    at_other :
        (j : ℕ) → j ≢ k → ((touch_down k key slot now s).key_state j).slot ≡ (s.key_state j).slot
    at_other j n = ground (arith, touch_down-slot k j key slot now s)

same_slot→eq : (o : Option ℕ) (n : ℕ) → same_slot o n ≡ true → o ≡ some n
same_slot→eq none n h = cc
same_slot→eq (some m) n h = ground arith

same_slot_self : (o : Option ℕ) (n : ℕ) → o ≡ some n → same_slot o n ≡ true
same_slot_self none n h = cc
same_slot_self (some m) n h = ground arith

find_slot-some :
    (slot : ℕ) (order : List ℕ) (states : ℕ → KeyState) (k : ℕ)
    → find_slot slot order states ≡ some k
    → (states k).slot ≡ some slot
unfolding find_slot
find_slot-some slot [] states k h = cc
find_slot-some slot (j ∷ order) states k h = elim (Bool-cases (same_slot (states j).slot slot)) [
  | inl e ↦
      let same : j ≡ k = cc (rw e at h) in
      ap (λ x. (states x).slot) (sym same) ∙ same_slot→eq (states j).slot slot e
  | inr e ↦ find_slot-some slot order states k (rw e at h)
]

find_slot-none :
    (slot : ℕ) (order : List ℕ) (states : ℕ → KeyState) (k : ℕ)
    → find_slot slot order states ≡ none
    → In k order
    → (states k).slot ≢ some slot
unfolding find_slot
find_slot-none slot [] states k h i q = absurd i
find_slot-none slot (j ∷ order) states k h (inl e) q =
    elim (Bool-cases (same_slot (states j).slot slot)) [
      | inl t ↦ absurd (cc (rw t at h))
      | inr t ↦
          absurd
            (cc (t, same_slot_self (states j).slot slot (ap (λ x. (states x).slot) (sym e) ∙ q)))
    ]
find_slot-none slot (j ∷ order) states k h (inr i) q =
    elim (Bool-cases (same_slot (states j).slot slot)) [
      | inl e ↦ absurd (cc (rw e at h))
      | inr e ↦ find_slot-none slot order states k (rw e at h) i q
    ]

-- When no finger is on two keys, and the walk over the keys meets each that is under a finger, a
-- finger that is lifted is on no key, and every key that it was not on is under the finger that it
-- was under.
pub touch_up-lifts :
    (slot : ℕ) (order : List ℕ) (s : Keyboard)
    → OneKey s
    → Covers order s
    → (j : ℕ)
    → (((touch_up slot order s).key_state j).slot ≢ some slot)
      × ((s.key_state j).slot ≢ some slot
          → ((touch_up slot order s).key_state j).slot ≡ (s.key_state j).slot)
unfolding touch_up
touch_up-lifts slot order s one covers j = elim (Option-cases (find_slot slot order s.key_state)) [
  | inl e ↦ (
    (λ q. find_slot-none slot order s.key_state j e (covers j slot (rw e at q)) (rw e at q)),
    (λ n. rw e refl),
  )
  | inr (k, e) ↦
      let at_k = find_slot-some slot order s.key_state k e in
      (ground (arith, at_k, one j k slot), ground (arith, at_k))
]
