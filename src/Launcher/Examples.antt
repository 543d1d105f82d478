-- ===== src/Launcher/Examples.antt =====
-- The launcher's theorems at a device with one or two applications.
use r_m2_stuff_rocket.Base.{
  ℕ, String, true, false, Option, none, some, List, [], ◌∷◌, ◌≡◌, refl, ◌≢◌, inl, inr, same_text,
  same_text_iff, arith,
}
use r_m2_stuff_rocket.Base.Int.{pos, negsuc}
use r_m2_stuff_rocket.Launcher.Apps.{App, AppRunInfo, AppDescription, find}
use r_m2_stuff_rocket.Launcher.State.{State, World, show, switch_app}
use r_m2_stuff_rocket.Launcher.ReadApps.{merge_apps}
use r_m2_stuff_rocket.Launcher.Events.{
  Event, power_down, power_up, tap_app, child_exits, select_next,
}
use r_m2_stuff_rocket.Launcher.Paths.{paths, Distinct}
use r_m2_stuff_rocket.Launcher.Merge.{merge_apps-Distinct}
use r_m2_stuff_rocket.Launcher.Exclusive.{IsValid}
use r_m2_stuff_rocket.Launcher.Processes.{HasProcess, merge_apps-HasProcess}
use r_m2_stuff_rocket.Launcher.Select.{first_running, after_path, or_else, select_next-cycles}
use r_m2_stuff_rocket.Launcher.ForkFails.{switch_app-fork_fails}
use r_m2_stuff_rocket.Launcher.Drafts.{read_description}
use r_m2_stuff_rocket.Launcher.DraftRoundTrip.{
  OneLine, print_description, read_description-print_description,
}

abbrev description_at : String → AppDescription
description_at p = record {
  path = p;
  name = p;
  description = "";
  command = p;
  icon = "";
  icon_path = "";
}

abbrev app_at : String → Option AppRunInfo → App
app_at p r = record {
  desc = description_at p;
  run_info = r;
  icon_image = none;
  saved_fb = none;
  should_remove = false;
}

abbrev no_icons : String → Option ℕ
no_icons p = none

abbrev world_where : Option ℕ → World
world_where spawn = record {
  spawn = spawn;
  exited = [];
  descriptions = description_at "a" ∷ description_at "b" ∷ [];
  icons = no_icons;
  screen = 5;
  slept = true;
  wakeup_irq = false;
  shot_saved = true;
}

abbrev state_of : List App → String → State
state_of apps current = record {
  management_operation = "poweroff";
  is_managing_power = false;
  is_unlocked = true;
  is_viewing_screenshot = false;
  apps = apps;
  current_app_path = current;
  previous_app_path = "";
  sleep_timer = none;
  has_touch_device = true;
  sleep_countdown = negsuc 0;
  inactivity_countdown = pos 20;
  visible = true;
  last_key_press = 0;
  log = [];
}

differ : (p q : String) → same_text p q ≡ false → p ≢ q
differ p q h = ground (arith, same_text_iff p q)

abbrev idle_state : State
idle_state = state_of (app_at "a" none ∷ app_at "b" none ∷ []) ""

idle_state-IsValid : IsValid idle_state
unfolding same_text
idle_state-IsValid = record {
  named = (differ "a" "" refl, (differ "b" "" refl, tt));
  distinct = ((differ "b" "a" refl, tt), (tt, tt));
  exclusive = (refl, (refl, tt));
}

abbrev some_events : List (World × Event)
some_events =
    (world_where (some 7), tap_app "a")
    ∷ (world_where (some 7), power_down 1)
    ∷ (world_where (some 7), power_up 3)
    ∷ (world_where (some 7), child_exits)
    ∷ []

abbrev locked_state : State
locked_state = record idle_state { is_unlocked = false }

abbrev locked_events : List (World × Event)
locked_events =
    (world_where (some 7), tap_app "a")
    ∷ (world_where (some 7), power_down 1)
    ∷ (world_where (some 7), power_up 1000)
    ∷ []

abbrev locked_end : State
locked_end = record locked_state { inactivity_countdown = pos 2; last_key_press = 1 }

abbrev running_app : App
running_app = app_at "b" (some (record { pid = 3; paused = false }))

abbrev three_apps : List App
three_apps =
    app_at "a" none ∷ running_app ∷ app_at "c" (some (record { pid = 4; paused = true })) ∷ []

select_next-cycles_example :
    select_next "b" false false "b" three_apps
    ≡ or_else (first_running (after_path "b" three_apps)) (or_else (first_running three_apps) "b")
select_next-cycles_example = select_next-cycles "b" "b" three_apps

merge_apps-Distinct_example :
    Distinct
      (paths (merge_apps no_icons idle_state.apps (description_at "b" ∷ description_at "c" ∷ [])))
unfolding same_text
merge_apps-Distinct_example =
    merge_apps-Distinct no_icons idle_state.apps (description_at "b" ∷ description_at "c" ∷ [])
      idle_state-IsValid.distinct ((differ "c" "b" refl, tt), (tt, tt))

abbrev paused_app_b : App
paused_app_b = app_at "b" (some (record { pid = 3; paused = true }))

abbrev state_b : State
state_b = state_of (app_at "a" none ∷ paused_app_b ∷ []) "b"

found_a : find "a" state_b.apps ≡ some (app_at "a" none)
unfolding find same_text
found_a = refl

found_b : find "b" state_b.apps ≡ some paused_app_b
unfolding find same_text
found_b = refl

switch_app-fork_fails_example :
    (t : State) × (switch_app (world_where none) "a" state_b ≡ some t)
    × (t.visible ≡ false)
    × (t.current_app_path ≡ "b")
    × (show (world_where none) t ≡ none)
unfolding same_text
switch_app-fork_fails_example =
    switch_app-fork_fails (world_where none) (world_where none) state_b "a" (app_at "a" none)
      paused_app_b refl found_a refl found_b refl refl (differ "a" "b" refl)

merge_apps-HasProcess_example : HasProcess 3 (merge_apps no_icons three_apps [])
merge_apps-HasProcess_example = merge_apps-HasProcess 3 no_icons three_apps [] (inr (inl refl))

abbrev yaft_description : AppDescription
yaft_description = record {
  path = "/opt/etc/draft/yaft.draft";
  name = "yaft";
  description = "A = tty";
  command = "yaft";
  icon = "";
  icon_path = "";
}

yaft-OneLine : OneLine "yaft"
unfolding OneLine
yaft-OneLine = (refl, (refl, (refl, (refl, tt))))

no_text-OneLine : OneLine ""
unfolding OneLine
no_text-OneLine = tt

terminal-OneLine : OneLine "A = tty"
unfolding OneLine
terminal-OneLine = (refl, (refl, (refl, (refl, (refl, (refl, (refl, tt)))))))

read_description-print_description_example :
    read_description "/opt/etc/draft/yaft.draft" "/opt/etc/draft/icons"
      (some (print_description yaft_description))
    ≡ some (record yaft_description { icon_path = "" })
unfolding same_text
read_description-print_description_example =
    read_description-print_description yaft_description "/opt/etc/draft/icons" yaft-OneLine
      terminal-OneLine yaft-OneLine no_text-OneLine refl refl
