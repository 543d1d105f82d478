-- ===== src/Launcher/ForkFails.antt =====
-- apps/rocket/Launcher.cpp: `switchApp` when the application cannot be launched.
use r_m2_stuff_rocket.Base.{
  String, true, false, none, some, List, [], ◌∷◌, ◌≡◌, refl, ◌≢◌, arith, same_text_iff,
}
use r_m2_stuff_rocket.Base.Int.{negsuc}
use r_m2_stuff_rocket.Launcher.Apps.{App, find, put, launch, pause, is_running, is_paused}
use r_m2_stuff_rocket.Launcher.State.{State, World, switch_app, leave_current, enter_app, show}
use r_m2_stuff_rocket.Launcher.Paths.{find-path}

find-put_other :
    (p q : String) (b : App) (apps : List App)
    → p ≢ q
    → b.desc.path ≡ p
    → find q (put p b apps) ≡ find q apps
unfolding find put
find-put_other p q b [] n e = refl
find-put_other p q b (a ∷ rest) n e = ground (
  arith,
  same_text_iff a.desc.path p,
  same_text_iff a.desc.path q,
  same_text_iff b.desc.path q,
  find-put_other p q b rest n e,
)

-- Where `fork` fails for an application that is not running, while another one, which runs and is
-- stopped, is current, `switchApp` returns with the launcher hidden and the other one still
-- current and stopped; the next `show` then fails the assertion of `App::pause`.
pub switch_app-fork_fails :
    (w later : World) (s : State) (p : String) (a c : App)
    → w.spawn ≡ none
    → find p s.apps ≡ some a
    → is_running a ≡ false
    → find s.current_app_path s.apps ≡ some c
    → is_running c ≡ true
    → is_paused c ≡ true
    → p ≢ s.current_app_path
    → (t : State) × (switch_app w p s ≡ some t)
      × (t.visible ≡ false)
      × (t.current_app_path ≡ s.current_app_path)
      × (show later t ≡ none)
unfolding switch_app leave_current enter_app launch show pause
switch_app-fork_fails w later s p a c no_fork e stopped f r h n =
    let b : App = record a { saved_fb = none } in
    let t : State = record s {
      visible = false;
      sleep_timer = none;
      sleep_countdown = negsuc 0;
      apps = put p b s.apps;
    } in
    let other = find-put_other p s.current_app_path b s.apps n (find-path p s.apps a e) in
    (t, ground arith, refl, refl, ground (arith, other))
