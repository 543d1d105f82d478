-- ===== src/Rm2fb/Serving.antt =====
-- libs/rm2fb/Server.cpp: the loop of the server over any rounds.
use r_m2_stuff_rocket.Base.{
  ℕ, Bool, true, false, Option, none, some, List, [], ◌∷◌, ◌++◌, ◌≡◌, All, if◌then◌else◌,
}
use r_m2_stuff_rocket.Rm2fb.Updates.{Update, Client, Ran, done}
use r_m2_stuff_rocket.Rm2fb.Server.{
  Act, do_update, reply_to, send_pen, send_touch, send_button, Round, is_check,
}
use r_m2_stuff_rocket.Rm2fb.Forwarding.{IsRegular}

abbrev RegularControl : Option (Option (Update × ℕ)) → Type 0
RegularControl none = Unit {0}
RegularControl (some none) = Unit {0}
RegularControl (some (some (msg, addr))) = is_check msg ≡ false → IsRegular msg

abbrev pub HasRegular : {S : Type 0} → Round S → Type 0
HasRegular r = RegularControl r.control

-- The calls of `doUpdate` and the answers, without the events for the devices.
abbrev is_control : Act → Bool
is_control (do_update msg) = true
is_control (reply_to b addr) = true
is_control (send_pen m) = false
is_control (send_touch m) = false
is_control (send_button b) = false

abbrev control_acts : List Act → List Act
control_acts [] = []
control_acts (a ∷ acts) = if is_control a then a ∷ control_acts acts else control_acts acts

-- What is to be done for the message of a round, when `doUpdate` would return this.
abbrev answer : Bool → Bool → Option (Option (Update × ℕ)) → List Act
answer in_qemu result none = []
answer in_qemu result (some none) = []
answer in_qemu result (some (some (msg, addr))) =
    if is_check msg
    then reply_to true addr ∷ []
    else if in_qemu
    then reply_to false addr ∷ []
    else do_update msg ∷ reply_to result addr ∷ []

abbrev pub answers : {S : Type 0} → Bool → List (Round S) → List Act
answers in_qemu [] = []
answers in_qemu (r ∷ rs) = answer in_qemu r.update_result r.control ++ answers in_qemu rs

abbrev IsOpen : {S : Type 0} → Client S → Type 0
IsOpen c = c.is_open ≡ true

-- A result is returned, and these are the answers on the control socket.
abbrev Acts : {A : Type 0} → List Act → Ran (A × List Act) → Type 0
Acts {A} expected r =
    (a : A) × (acts : List Act) × (r ≡ done (a, acts)) × (control_acts acts ≡ expected)

-- A result is returned, with these answers, and every client has an open socket.
pub record Served {S : Type 0} (has_tcp : Bool) (expected : List Act)
    (r : Ran (List (Client S) × List Act)) : Type 0 where
  clients : List (Client S)
  acts : List Act
  pub returns : r ≡ done (clients, acts)
  answered : control_acts acts ≡ expected
  opened : has_tcp ≡ true → All IsOpen clients
