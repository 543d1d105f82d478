-- ===== src/Ui/Taps.antt =====
-- libs/rMlib/include/UI/Gesture.h: from the touch to the lift of a finger.
use r_m2_stuff_rocket.Base.{
  Bool, true, false, ◌&&◌, List, [], ◌∷◌, ◌++◌, ◌≡◌, refl, sym, ap, ◌∙◌, subst, if◌then◌else◌,
  arith, All, append-append, append-nil, Bool-cases, inl, inr,
}
use r_m2_stuff_rocket.Base.Int.{ℤ, eqb_ℤ}
use r_m2_stuff_rocket.Rmlib.Geometry.{Point}
use r_m2_stuff_rocket.Ui.Gestures.{
  Gestures, PointerKind, is_down, is_up, is_move, neither, PointerEvent, released, pressed,
  repeated, InputEvent, pointer, key, Call, any_call, tap_call, touch_move_call, touch_down_call,
  key_down_call, key_up_call, pass_on, no_id, handles_touch, Handled, optional, follow_same,
  goes_down, handle_pointer, handle_key_event, handle_event, handle_input, run_gestures,
}

-- The calls for a touch, without those for any event, for keys and of the child.
abbrev is_touch_call : Call → Bool
is_touch_call any_call = false
is_touch_call tap_call = true
is_touch_call (touch_move_call p) = true
is_touch_call (touch_down_call p) = true
is_touch_call (key_down_call k) = false
is_touch_call (key_up_call k) = false
is_touch_call (pass_on e) = false

abbrev pub touch_calls : List Call → List Call
touch_calls [] = []
touch_calls (c ∷ cs) = if is_touch_call c then c ∷ touch_calls cs else touch_calls cs

touch_calls-append : (xs ys : List Call) → touch_calls (xs ++ ys) ≡ touch_calls xs ++ touch_calls ys
touch_calls-append [] ys = refl
touch_calls-append (x ∷ xs) ys = elim (Bool-cases (is_touch_call x)) [
  | inl e ↦ rw e (ap (◌∷◌ x) (touch_calls-append xs ys))
  | inr e ↦ rw e (touch_calls-append xs ys)
]

-- The event does not lift this finger.
abbrev pub Holds : ℤ → InputEvent → Type 0
Holds i (pointer e) = e.kind ≡ is_up → eqb_ℤ e.id i ≡ false
Holds i (key k c) = Unit {0}

-- What the finger does in an event.
abbrev move_of : Gestures → ℤ → InputEvent → List Call
move_of g i (pointer e) = elim e.kind [
  | is_move ↦ optional (eqb_ℤ e.id i && g.on_touch_move) (touch_move_call e.location)
  | _ ↦ []
]
move_of g i (key k c) = []

abbrev pub moves_of : Gestures → ℤ → List InputEvent → List Call
moves_of g i [] = []
moves_of g i (e ∷ es) = move_of g i e ++ moves_of g i es

silent_any : (b : Bool) → touch_calls (optional b any_call) ≡ []
silent_any true = refl
silent_any false = refl

silent_pass : (b : Bool) (e : InputEvent) → touch_calls (if b then [] else pass_on e ∷ []) ≡ []
silent_pass true e = refl
silent_pass false e = refl

any_silent :
    (g : Gestures) (h : Handled) (e : InputEvent)
    → touch_calls
        (optional g.on_any any_call ++ (h.calls ++ (if h.handled then [] else pass_on e ∷ [])))
      ≡ touch_calls h.calls
any_silent g h e =
    let pass : List Call = if h.handled then [] else pass_on e ∷ [] in
    touch_calls-append (optional g.on_any any_call) (h.calls ++ pass)
    ∙ ap (λ cs. cs ++ touch_calls (h.calls ++ pass)) (silent_any g.on_any)
    ∙ touch_calls-append h.calls pass
    ∙ ap (λ cs. touch_calls h.calls ++ cs) (silent_pass h.handled e)
    ∙ append-nil (touch_calls h.calls)

-- While a finger is followed, an event that does not lift it.
Kept : Gestures → ℤ → InputEvent → Handled → Type 0
Kept g i e h = (touch_calls h.calls ≡ move_of g i e) × (h.current ≡ i)

not_begun : (a b c : Bool) → c ≡ false → a && b && c ≡ false
not_begun a b c h = ground arith

module _ (g : Gestures) (n i : ℤ) (p : Point) (b : Bool) where
  pointer_event : PointerKind → PointerEvent
  pointer_event k = record { kind = k; id = n; location = p; is_inside = b }

  follow_holds :
      (k : PointerKind)
      → (k ≡ is_up → eqb_ℤ n i ≡ false)
      → Kept g i (pointer (pointer_event k)) (follow_same g (pointer_event k) i)
  unfolding Kept pointer_event
  follow_holds is_up l = rw (l refl) (refl, refl)
  follow_holds is_down l = elim (Bool-cases (eqb_ℤ n i)) [
    | inl e ↦ rw e (refl, refl)
    | inr e ↦ rw e (refl, refl)
  ]
  follow_holds neither l = elim (Bool-cases (eqb_ℤ n i)) [
    | inl e ↦ rw e (refl, refl)
    | inr e ↦ rw e (refl, refl)
  ]
  follow_holds is_move l = elim (Bool-cases (eqb_ℤ n i)) [
    | inr e ↦ rw e (refl, refl)
    | inl e ↦ elim (Bool-cases g.on_touch_move) [
      | inl f ↦ rw (e, f) (refl, refl)
      | inr f ↦ rw (e, f) (refl, refl)
    ]
  ]

event_holds :
    (g : Gestures) (i : ℤ) (e : InputEvent)
    → eqb_ℤ i no_id ≡ false
    → Holds i e
    → Kept g i e (handle_event g e i)
unfolding handle_event handle_pointer handle_key_event Kept pointer_event
event_holds g i (pointer e) h l =
    rw (not_begun (goes_down e.kind) e.is_inside (eqb_ℤ i no_id) h)
      (follow_holds g e.id i e.location e.is_inside e.kind l)
event_holds g i (key released k) h l = elim (Bool-cases g.on_key_up) [
  | inl e ↦ rw e (refl, refl)
  | inr e ↦ rw e (refl, refl)
]
event_holds g i (key pressed k) h l = elim (Bool-cases g.on_key_down) [
  | inl e ↦ rw e (refl, refl)
  | inr e ↦ rw e (refl, refl)
]
event_holds g i (key repeated k) h l = (refl, refl)

lifts :
    (g : Gestures) (i : ℤ) (up : PointerEvent)
    → up.kind ≡ is_up
    → eqb_ℤ up.id i ≡ true
    → handle_event g (pointer up) i
      ≡ record { handled = true; calls = optional g.on_tap tap_call; current = no_id }
unfolding handle_event handle_pointer
lifts g i up k e = rw (k, e) refl

same_id : (i : ℤ) → eqb_ℤ i i ≡ true
same_id i = ground arith

touches :
    (g : Gestures) (down : PointerEvent)
    → down.kind ≡ is_down
    → down.is_inside ≡ true
    → handles_touch g ≡ true
    → (touch_calls (handle_event g (pointer down) no_id).calls
        ≡ optional g.on_touch_down (touch_down_call down.location))
      × ((handle_event g (pointer down) no_id).current ≡ down.id)
unfolding handle_event handle_pointer
touches g down k b h =
    rw (k, b, h)
      (elim (Bool-cases g.on_touch_down) [
        | inl e ↦ rw e (refl, refl)
        | inr e ↦ rw (e, same_id down.id) (refl, refl)
      ])

run_step :
    (g : Gestures) (e : InputEvent) (es : List InputEvent) (i : ℤ)
    → touch_calls (run_gestures g (e ∷ es) i).0
      ≡ touch_calls (handle_event g e i).calls
        ++ touch_calls (run_gestures g es (handle_event g e i).current).0
unfolding run_gestures handle_input
run_step g e es i =
    touch_calls-append (handle_input g e i).0 (run_gestures g es (handle_event g e i).current).0
    ∙ ap (λ cs. cs ++ touch_calls (run_gestures g es (handle_event g e i).current).0)
        (any_silent g (handle_event g e i) e)

run_end :
    (g : Gestures) (e : InputEvent) (es : List InputEvent) (i : ℤ)
    → (run_gestures g (e ∷ es) i).1 ≡ (run_gestures g es (handle_event g e i).current).1
unfolding run_gestures handle_input
run_end g e es i = refl

-- The calls of a run and the finger that it ends with.
Runs : Gestures → List InputEvent → ℤ → List Call → Type 0
Runs g es i calls =
    (touch_calls (run_gestures g es i).0 ≡ calls) × ((run_gestures g es i).1 ≡ no_id)

run_next :
    (g : Gestures) (e : InputEvent) (es : List InputEvent) (i j : ℤ) (xs ys : List Call)
    → touch_calls (handle_event g e i).calls ≡ xs
    → (handle_event g e i).current ≡ j
    → Runs g es j ys
    → Runs g (e ∷ es) i (xs ++ ys)
unfolding Runs
run_next g e es i j xs ys h k r = (
  run_step g e es i
      ∙ (λ l. h l ++ touch_calls (run_gestures g es (k l)).0)
      ∙ ap (λ cs. xs ++ cs) r.0,
  run_end g e es i ∙ ap (λ j. (run_gestures g es j).1) k ∙ r.1,
)

run_none : (g : Gestures) → Runs g [] no_id []
unfolding Runs run_gestures
run_none g = (refl, refl)

optional_touch :
    (b : Bool) (c : Call) → is_touch_call c ≡ true → touch_calls (optional b c) ≡ optional b c
optional_touch true c h = rw h refl
optional_touch false c h = refl

run_holds :
    (g : Gestures) (i : ℤ) (es : List InputEvent) (up : PointerEvent)
    → eqb_ℤ i no_id ≡ false
    → All (Holds i) es
    → up.kind ≡ is_up
    → eqb_ℤ up.id i ≡ true
    → Runs g (es ++ pointer up ∷ []) i (moves_of g i es ++ optional g.on_tap tap_call)
unfolding Kept
run_holds g i [] up h a k e =
    let l = lifts g i up k e in
    subst (λ cs. Runs g (pointer up ∷ []) i cs) (append-nil (optional g.on_tap tap_call))
      (run_next g (pointer up) [] i no_id (optional g.on_tap tap_call) []
        (ap (λ r. touch_calls r.calls) l ∙ optional_touch g.on_tap tap_call refl)
        (ap (λ r. r.current) l) (run_none g))
run_holds g i (x ∷ es) up h a k e =
    let s = event_holds g i x h a.0 in
    subst (λ cs. Runs g (x ∷ es ++ pointer up ∷ []) i cs)
      (sym (append-append (move_of g i x) (moves_of g i es) (optional g.on_tap tap_call)))
      (run_next g x (es ++ pointer up ∷ []) i i (move_of g i x)
        (moves_of g i es ++ optional g.on_tap tap_call) s.0 s.1 (run_holds g i es up h a.1 k e))

-- With a callback for touches, from the touch of a finger inside while none is followed to its lift: the
-- callbacks for touches are called for the touch, for each move of this finger in order, and for one tap at
-- its end, whatever other fingers and keys do between; no finger is followed then. The number of a
-- finger is not the one that stands for none.
pub run_gestures-tap :
    (g : Gestures) (down up : PointerEvent) (es : List InputEvent)
    → handles_touch g ≡ true
    → down.kind ≡ is_down
    → down.is_inside ≡ true
    → eqb_ℤ down.id no_id ≡ false
    → All (Holds down.id) es
    → up.kind ≡ is_up
    → eqb_ℤ up.id down.id ≡ true
    → (touch_calls (run_gestures g (pointer down ∷ es ++ pointer up ∷ []) no_id).0
        ≡ optional g.on_touch_down (touch_down_call down.location)
          ++ (moves_of g down.id es ++ optional g.on_tap tap_call))
      × ((run_gestures g (pointer down ∷ es ++ pointer up ∷ []) no_id).1 ≡ no_id)
unfolding Runs
run_gestures-tap g down up es h k b n a u e =
    let t = touches g down k b h in
    run_next g (pointer down) (es ++ pointer up ∷ []) no_id down.id
      (optional g.on_touch_down (touch_down_call down.location))
      (moves_of g down.id es ++ optional g.on_tap tap_call) t.0 t.1
      (run_holds g down.id es up n a u e)
