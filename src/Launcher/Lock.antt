-- ===== src/Launcher/Lock.antt =====
-- apps/rocket/Launcher.cpp: what cannot happen while the device is locked.
use r_m2_stuff_rocket.Base.{
  String, Bool, ◌||◌, ◌++◌, if◌then◌else◌, same_text, false, some, List, [], ◌∷◌, ◌≡◌, refl, ◌≢◌,
  arith,
}
use r_m2_stuff_rocket.Launcher.Apps.{
  Effect, sigstop, sigcont, sigterm, spawned, flood, command, pause,
}
use r_m2_stuff_rocket.Launcher.State.{
  unload_wifi, suspend, load_wifi, sleep_commands, State, World, show, read_apps, lock, woken,
  count_down, tick,
}
use r_m2_stuff_rocket.Launcher.Events.{
  Event, power_down, power_up, tap_app, tap_close, power_asked, power_canceled, power_confirmed,
  unlocked, shot_closed, other_input, sleep_timer_fires, inactivity_timer_fires, child_exits,
  handle, long_press, short_press, drop_exited, fall_asleep, less_active, inactivity_tick,
  update_stopped_apps,
}

-- The commands that the device runs to sleep.
abbrev is_sleep_command : String → Bool
is_sleep_command c = same_text c unload_wifi || same_text c suspend || same_text c load_wifi

-- The effects other than SIGSTOP and the three commands of `sleep`: what starts, continues or ends a process,
-- and every other command.
pub wakes : List Effect → List Effect
wakes [] = []
wakes (sigstop p ∷ es) = wakes es
wakes (sigcont p ∷ es) = sigcont p ∷ wakes es
wakes (sigterm p ∷ es) = sigterm p ∷ wakes es
wakes (spawned p ∷ es) = spawned p ∷ wakes es
wakes (flood ∷ es) = flood ∷ wakes es
wakes (command c ∷ es) = if is_sleep_command c then wakes es else command c ∷ wakes es

-- Between two states only SIGSTOP was sent and only commands of `sleep` were run, and the second is locked if the first was.
pub record IsQuiet (s t : State) : Type 0 where
  pub lock_kept : s.is_unlocked ≡ false → t.is_unlocked ≡ false
  pub silent : wakes t.log ≡ wakes s.log

show_quiet :
    (w : World) (s t : State)
    → show w s ≡ some t
    → (t.is_unlocked ≡ s.is_unlocked) × (wakes t.log ≡ wakes s.log)
unfolding show pause read_apps wakes
show_quiet w s t h = ground arith

-- After the commands of `sleep`.
abbrev slept : State → State
slept s = record (lock s) { log = sleep_commands ++ s.log }

wakes-sleep_commands : (es : List Effect) → wakes (sleep_commands ++ es) ≡ wakes es
unfolding wakes same_text
wakes-sleep_commands es = refl

tick-IsQuiet : (w : World) (s t : State) → s.is_unlocked ≡ false → tick w s ≡ some t → IsQuiet s t
unfolding tick
tick-IsQuiet w s t l h =
    ground (arith, show_quiet w (woken (slept (count_down s))) t, wakes-sleep_commands s.log)

inactivity_tick-IsQuiet : (w : World) (s t : State) → inactivity_tick w s ≡ some t → IsQuiet s t
unfolding inactivity_tick
inactivity_tick-IsQuiet w s t h = ground (arith, show_quiet w (fall_asleep (less_active s)) t)

update_stopped_apps-IsQuiet :
    (w : World) (s t : State) → update_stopped_apps w s ≡ some t → IsQuiet s t
unfolding update_stopped_apps
update_stopped_apps-IsQuiet w s t h = ground (arith, show_quiet w (drop_exited w s).0 t)

-- In a locked state no event but the code at the lock screen unlocks the device, starts, continues
-- or ends a process, or runs a command other than the three of `sleep`: unloading the driver of the
-- wireless network, suspending the device, and loading the driver again.
pub handle-IsQuiet :
    (w : World) (e : Event) (s t : State)
    → e ≢ unlocked
    → s.is_unlocked ≡ false
    → handle w e s ≡ some t
    → IsQuiet s t
unfolding handle long_press short_press
handle-IsQuiet w (power_down now) s t n l h = ground arith
handle-IsQuiet w (power_up now) s t n l h = ground arith
handle-IsQuiet w (tap_app p) s t n l h = ground arith
handle-IsQuiet w (tap_close p) s t n l h = ground arith
handle-IsQuiet w (power_asked o) s t n l h = ground arith
handle-IsQuiet w power_canceled s t n l h = ground arith
handle-IsQuiet w power_confirmed s t n l h = ground arith
handle-IsQuiet w unlocked s t n l h = absurd (n refl)
handle-IsQuiet w shot_closed s t n l h = ground arith
handle-IsQuiet w other_input s t n l h = ground arith
handle-IsQuiet w sleep_timer_fires s t n l h = ground (arith, tick-IsQuiet w s t l)
handle-IsQuiet w inactivity_timer_fires s t n l h = inactivity_tick-IsQuiet w s t h
handle-IsQuiet w child_exits s t n l h = update_stopped_apps-IsQuiet w s t h
