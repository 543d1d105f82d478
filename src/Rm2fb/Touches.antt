-- ===== src/Rm2fb/Touches.antt =====
-- libs/rm2fb/InputDevice.cpp: the events that `sendTouch` and `sendButton` write to the devices that the server
-- makes.
use r_m2_stuff_rocket.Base.{ℕ, Bool, List, [], ◌∷◌, ◌++◌, ◌==◌, if◌then◌else◌}
use r_m2_stuff_rocket.Base.Int.{pos, negsuc, ◌-ℤ◌}
use r_m2_stuff_rocket.Rmlib.Geometry.{Point}
use r_m2_stuff_rocket.Rmlib.Input.{
  RawEvent, syn_report, ev_abs, ev_key, mt_slot, mt_tracking_id, mt_x, mt_y, mt_pressure, other_abs,
  key_code,
}
use r_m2_stuff_rocket.Rm2fb.Message.{Input, flag}
use r_m2_stuff_rocket.Rm2fb.Ioctl.{to_int}

abbrev screen_height : ℕ
screen_height = 1872

-- The switch on the type: `Down` is 1 and `Up` is 2.
abbrev touch_changes : ℕ → List RawEvent
touch_changes action =
    if action == 1
    then ev_abs mt_slot (pos 1)
      ∷ ev_abs mt_tracking_id (pos 123)
      ∷ ev_abs mt_pressure (pos 110)
      ∷ ev_abs other_abs (pos 26)
      ∷ ev_abs other_abs (pos 26)
      ∷ ev_abs other_abs (pos 4)
      ∷ []
    else if action == 2
    then ev_abs mt_pressure (pos 0) ∷ ev_abs mt_tracking_id (negsuc 0) ∷ ev_abs mt_slot (pos 0) ∷ []
    else []

abbrev touched_point : Input → Point
touched_point m = record { x = to_int m.x; y = pos screen_height -ℤ to_int m.y }

unfoldable pub send_touch : Input → List RawEvent
send_touch m =
    touch_changes m.action
    ++ ev_abs mt_x (touched_point m).x ∷ ev_abs mt_y (touched_point m).y ∷ syn_report ∷ []

unfoldable pub send_button : Bool → List RawEvent
send_button down = ev_key (key_code 116) (pos (flag down)) ∷ syn_report ∷ []
