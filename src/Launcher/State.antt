-- ===== src/Launcher/State.antt =====
-- apps/rocket/Launcher.h and Launcher.cpp: the state of the launcher and its operations.
-- An operation returns `none` where an assertion of App.cpp fails. What the rest of the system
-- answers during one event (the result of `fork`, the files on the disk, the outcome of a sleep)
-- is the record `World`.
use r_m2_stuff_rocket.Base.{
  ℕ, String, Bool, true, false, not, ◌&&◌, Option, none, some, List, [], ◌∷◌, ◌++◌, ◌==◌,
  if◌then◌else◌, same_text,
}
use r_m2_stuff_rocket.Base.Int.{ℤ, pos, negsuc, ◌-ℤ◌, eqb_ℤ, ltb_ℤ}
use r_m2_stuff_rocket.Launcher.Apps.{
  App, AppDescription, Effect, command, flood, spawned, launch, pause, resume, is_running,
  is_paused, find, put,
}
use r_m2_stuff_rocket.Launcher.ReadApps.{merge_apps}

pub record World : Type 0 where
  pub spawn : Option ℕ
  pub exited : List ℕ
  pub descriptions : List AppDescription
  pub icons : String → Option ℕ
  pub screen : ℕ
  -- `system("echo mem > /sys/power/state") == 0`
  pub slept : Bool
  -- /sys/power/pm_wakeup_irq can be read
  pub wakeup_irq : Bool
  -- `writeImage` succeeds
  pub shot_saved : Bool

pub record State : Type 0 where
  pub management_operation : String
  pub is_managing_power : Bool
  pub is_unlocked : Bool
  pub is_viewing_screenshot : Bool
  pub apps : List App
  pub current_app_path : String
  pub previous_app_path : String
  -- The timer behind `sleepTimer`, if it is enabled, by its first delay in seconds.
  pub sleep_timer : Option ℕ
  pub has_touch_device : Bool
  pub sleep_countdown : ℤ
  pub inactivity_countdown : ℤ
  pub visible : Bool
  pub last_key_press : ℕ
  -- Newest first.
  pub log : List Effect

infixl 5 ◌>>=◌
abbrev pub ◌>>=◌ {ℓ κ} : {A : Type ℓ} {B : Type κ} → Option A → (A → Option B) → Option B
none >>= f = none
some a >>= f = f a

abbrev pub default_sleep_timeout : ℕ
default_sleep_timeout = 10

abbrev retry_sleep_timeout : ℕ
retry_sleep_timeout = 8

abbrev default_inactivity_timeout : ℕ
default_inactivity_timeout = 20

abbrev pub empty_path : String
empty_path = ""

unfoldable pub stop_timer : State → State
stop_timer s = record s { sleep_timer = none; sleep_countdown = negsuc 0 }

unfoldable pub start_timer : ℕ → State → State
start_timer time s = record s {
  sleep_countdown = pos time;
  sleep_timer = some (if time == 0 then 0 else 1);
}

unfoldable pub reset_inactivity : State → State
reset_inactivity s = record s {
  inactivity_countdown = if s.is_unlocked then pos default_inactivity_timeout else pos 2;
}

unfoldable pub lock : State → State
lock s = record s { is_managing_power = false; is_unlocked = false }

unfoldable pub unlock : State → State
unfolding reset_inactivity
unlock s = reset_inactivity (record s { is_unlocked = true })

unfoldable pub show_screenshot : State → State
unfolding stop_timer
show_screenshot s = stop_timer (record s { is_viewing_screenshot = true })

unfoldable pub hide_screenshot : State → State
hide_screenshot s = record s { is_viewing_screenshot = false }

unfoldable pub get_current_app : State → Option App
get_current_app s = find s.current_app_path s.apps

unfoldable pub get_previous_app : State → Option App
get_previous_app s =
    if same_text s.previous_app_path empty_path then none else find s.previous_app_path s.apps

unfoldable pub read_apps : World → State → State
read_apps w s = record s { apps = merge_apps w.icons s.apps w.descriptions }

-- The state after an operation on one application, which was found under path `p`.
abbrev write_app : String → App × List Effect → State → State
write_app p (a, effects) s = record s { apps = put p a s.apps; log = effects ++ s.log }

-- `current->pause(…)` of the current application, if there is one.
abbrev pause_current : Option ℕ → State → Option State
pause_current screen s = elim (find s.current_app_path s.apps) [
  | none ↦ some s
  | some a ↦ pause screen a >>= λ r. some (write_app s.current_app_path r s)
]

unfoldable pub show : World → State → Option State
unfolding read_apps
show w s =
    let shown =
      pause_current (some w.screen) s >>= λ t. some (record (read_apps w t) { visible = true }) in
    if s.visible then some s else shown

-- "Pause the current app": the first part of `switchApp`.
unfoldable pub leave_current : State → Option State
leave_current s = elim (find s.current_app_path s.apps) [
  | none ↦ some s
  | some a ↦
      if is_running a && not (is_paused a)
      then (pause none a >>= λ r. some (write_app s.current_app_path r s))
      else some s
]

-- "resume or launch app", and the new paths: the rest of `switchApp`. A launch that fails returns
-- early.
unfoldable pub enter_app : World → String → App → State → Option State
enter_app w p a s =
    if is_paused a
    then (resume a >>= λ r.
        let t = record s { log = if s.has_touch_device then flood ∷ s.log else s.log } in
        some (record (write_app p r t) {
          previous_app_path = s.current_app_path;
          current_app_path = a.desc.path;
        }))
    else if not (is_running a)
    then elim (launch w.spawn (record a { saved_fb = none })) [
      | none ↦ some (record s { apps = put p (record a { saved_fb = none }) s.apps })
      | some b ↦ some (record s {
        apps = put p b s.apps;
        log = elim b.run_info [ none ↦ s.log | some r ↦ spawned r.pid ∷ s.log ];
        previous_app_path = s.current_app_path;
        current_app_path = a.desc.path;
      })
    ]
    else some (record s { previous_app_path = s.current_app_path; current_app_path = a.desc.path })

-- The reference is to the application with path `p`; it is read again after the current one, which
-- may be the same, has been paused.
unfoldable pub switch_app : World → String → State → Option State
unfolding stop_timer
switch_app w p s = do
  t ← leave_current (stop_timer (record s { visible = false }))
  a ← find p t.apps
  enter_app w p a t

-- `with_context` is `context != nullptr`.
unfoldable pub hide : World → Bool → State → Option State
unfolding get_previous_app get_current_app start_timer
hide w with_context s = if not s.visible then some s else elim (get_previous_app s) [
  | some a ↦ switch_app w a.desc.path s
  | none ↦ elim (get_current_app s) [
    | some a ↦ switch_app w a.desc.path s
    | none ↦ if with_context then some (start_timer 0 s) else some s
  ]
]

unfoldable pub toggle : World → State → Option State
unfolding start_timer stop_timer
toggle w s0 =
    let s = record s0 { is_managing_power = false } in
    if s.visible
    then (if not s.is_unlocked
        then some s
        else hide w (ltb_ℤ s.sleep_countdown (pos 1)) (stop_timer s))
    else show w (start_timer default_sleep_timeout s)

abbrev pub unload_wifi : String
unload_wifi = "/sbin/rmmod brcmfmac"

abbrev pub suspend : String
suspend = "echo \"mem\" > /sys/power/state"

abbrev pub load_wifi : String
load_wifi = "/sbin/modprobe brcmfmac"

-- The three commands of `sleep`, newest first.
abbrev pub sleep_commands : List Effect
sleep_commands = command load_wifi ∷ command suspend ∷ command unload_wifi ∷ []

-- Whether it was the user who woke the device.
unfoldable sleep : World → State → State × Bool
unfolding lock
sleep w s = (record (lock s) { log = sleep_commands ++ s.log }, w.slept && not w.wakeup_irq)

-- The user woke the device: "stop the timer and return to the current app".
abbrev pub woken : State → State
woken s = record (reset_inactivity s) { sleep_timer = none }

abbrev pub count_down : State → State
count_down s = record s { sleep_countdown = s.sleep_countdown -ℤ pos 1 }

unfoldable pub tick : World → State → Option State
unfolding sleep reset_inactivity
tick w s =
    let (t, by_user) = sleep w (count_down s) in
    if eqb_ℤ (count_down s).sleep_countdown (negsuc 0)
    then (if by_user
        then show w (woken t)
        else some (record t { sleep_countdown = pos retry_sleep_timeout }))
    else some (count_down s)
