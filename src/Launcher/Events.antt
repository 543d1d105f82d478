-- ===== src/Launcher/Events.antt =====
-- apps/rocket/Launcher.h and Launcher.cpp: what the launcher reacts to. The handlers that `build`
-- and `init` install, each with the condition under which `build` shows its widget.
use r_m2_stuff_rocket.Base.{
  ℕ, String, Bool, true, false, not, append, ◌&&◌, ◌||◌, Option, none, some, List, [], ◌∷◌, ◌++◌,
  ◌-◌, if◌then◌else◌, same_text, ltb,
}
use r_m2_stuff_rocket.Base.Int.{pos, ◌-ℤ◌, eqb_ℤ}
use r_m2_stuff_rocket.Launcher.Apps.{App, command, stop, update, is_some, is_running, find}
use r_m2_stuff_rocket.Launcher.State.{
  State, World, ◌>>=◌, empty_path, default_sleep_timeout, stop_timer, start_timer, reset_inactivity,
  unlock, show_screenshot, hide_screenshot, show, toggle, switch_app, tick, get_current_app,
  get_previous_app,
}

-- The loop of `long_press`: `first` and `current` are `firstActiveIndex > -1` and
-- `currentHighlightIndex > -1`; the result is the new `previousAppPath`.
unfoldable pub select_next : String → Bool → Bool → String → List App → String
select_next shown first current previous [] = previous
select_next shown first current previous (a ∷ rest) =
    let previous' = if not first && is_running a then a.desc.path else previous in
    let onward =
      select_next shown (first || is_running a) (current || same_text a.desc.path shown) previous'
        rest in
    if not current && same_text a.desc.path shown
    then onward
    else if current && is_running a
    then a.desc.path
    else onward

unfoldable pub highlighted_path : State → String
highlighted_path s =
    if same_text s.previous_app_path empty_path then s.current_app_path else s.previous_app_path

unfoldable pub long_press : World → State → Option State
unfolding stop_timer show_screenshot
long_press w s =
    if not s.is_unlocked
    then some s
    else if s.visible
    then some (record (stop_timer s) {
      previous_app_path = select_next (highlighted_path s) false false s.previous_app_path s.apps;
    })
    else if not s.is_viewing_screenshot && w.shot_saved
    then (show w s >>= λ t. some (show_screenshot t))
    else some s

unfoldable pub short_press : World → State → Option State
unfolding hide_screenshot
short_press w s =
    if not s.is_unlocked
    then some s
    else if s.is_viewing_screenshot
    then some (hide_screenshot s)
    else toggle w s

-- The path is cleared if its application has exited.
unfoldable pub clear_exited : Option App → String → String
clear_exited none p = p
clear_exited (some a) p = if is_running a then p else empty_path

unfoldable pub has_exited : Option App → Bool
has_exited none = false
has_exited (some a) = not (is_running a)

unfoldable pub remove_exited : List App → List App
remove_exited [] = []
remove_exited (a ∷ rest) =
    if a.should_remove && not (is_running a) then remove_exited rest else a ∷ remove_exited rest

-- The state once the exits that the manager saw are taken into account, and whether the current
-- application was among them.
abbrev pub drop_exited : World → State → State × Bool
drop_exited w s =
    let s1 = record s { apps = (update w.exited s.apps).0 } in
    let gone = get_current_app s1 in
    let s2 = record s1 { current_app_path = clear_exited gone s1.current_app_path } in
    let s3 = record s2 {
      previous_app_path = clear_exited (get_previous_app s2) s2.previous_app_path;
    } in
    (record s3 { apps = remove_exited s3.apps }, has_exited gone)

unfoldable pub update_stopped_apps : World → State → Option State
update_stopped_apps w s =
    let (t, should_show) = drop_exited w s in if should_show then show w t else some t

abbrev pub less_active : State → State
less_active s = record s { inactivity_countdown = s.inactivity_countdown -ℤ pos 1 }

abbrev pub fall_asleep : State → State
fall_asleep s = start_timer default_sleep_timeout (reset_inactivity s)

-- The callback of `inactivityTimer`.
unfoldable pub inactivity_tick : World → State → Option State
unfolding reset_inactivity start_timer
inactivity_tick w s =
    if eqb_ℤ (less_active s).inactivity_countdown (pos 0)
    then show w (fall_asleep (less_active s))
    else some (less_active s)

-- `build`: which screen is up.
abbrev awake : State → Bool
awake s = not s.is_viewing_screenshot && s.visible && not (eqb_ℤ s.sleep_countdown (pos 0))

abbrev launcher_shown : State → Bool
launcher_shown s = awake s && s.is_unlocked

-- The launcher is a stack of widgets, whose top alone has the input while the dialog is up.
abbrev pub launcher_taps : State → Bool
launcher_taps s = launcher_shown s && not s.is_managing_power

abbrev pub dialog_shown : State → Bool
dialog_shown s = launcher_shown s && s.is_managing_power

abbrev pub lockscreen_shown : State → Bool
lockscreen_shown s = awake s && not s.is_unlocked

abbrev pub is_running_at : Option App → Bool
is_running_at none = false
is_running_at (some a) = is_running a

unfoldable pub stop_app : String → State → Option State
unfolding stop_timer
stop_app p s = do
  a ← find p s.apps
  effects ← stop a
  some (stop_timer (record s { log = effects ++ s.log }))

pub data Event : Type 0 where
  -- The power key, at a time in milliseconds.
  power_down power_up : ℕ → Event
  -- A tap on an application of one of the two lists, and on the close button of one that runs.
  tap_app tap_close : String → Event
  -- The buttons "Shutdown" and "Reboot", by the operation that they ask for, and the two buttons
  -- of the dialog.
  power_asked : String → Event
  power_canceled power_confirmed : Event
  -- The lock screen accepts the code.
  unlocked : Event
  -- The screenshot view is closed.
  shot_closed : Event
  -- Any other input.
  other_input : Event
  sleep_timer_fires inactivity_timer_fires child_exits : Event

-- `system("/sbin/" + managementOperation)`
abbrev pub confirmed : State → State
confirmed s = record s { log = command (append "/sbin/" s.management_operation) ∷ s.log }

abbrev long_press_ms : ℕ
long_press_ms = 400

unfoldable pub handle : World → Event → State → Option State
unfolding reset_inactivity unlock hide_screenshot
handle w (power_down now) s = some (record (reset_inactivity s) { last_key_press = now })
handle w (power_up now) s =
    let t = reset_inactivity s in
    if ltb long_press_ms (now - t.last_key_press) then long_press w t else short_press w t
handle w (tap_app p) s =
    let t = reset_inactivity s in
    if launcher_taps s && is_some (find p s.apps) then switch_app w p t else some t
handle w (tap_close p) s =
    let t = reset_inactivity s in
    if launcher_taps s && is_running_at (find p s.apps) then stop_app p t else some t
handle w (power_asked operation) s =
    let t = reset_inactivity s in
    if launcher_taps s
    then some (record t { management_operation = operation; is_managing_power = true })
    else some t
handle w power_canceled s =
    let t = reset_inactivity s in
    if dialog_shown s then some (record t { is_managing_power = false }) else some t
handle w power_confirmed s =
    let t = reset_inactivity s in if dialog_shown s then some (confirmed t) else some t
handle w unlocked s =
    let t = reset_inactivity s in if lockscreen_shown s then some (unlock t) else some t
handle w shot_closed s =
    let t = reset_inactivity s in
    if s.is_viewing_screenshot then some (hide_screenshot t) else some t
handle w other_input s = some (reset_inactivity s)
handle w sleep_timer_fires s = if is_some s.sleep_timer then tick w s else some s
handle w inactivity_timer_fires s = inactivity_tick w s
handle w child_exits s = update_stopped_apps w s
