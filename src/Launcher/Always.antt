-- ===== src/Launcher/Always.antt =====
-- apps/rocket/Launcher.cpp: the invariant holds after any sequence of events.
use r_m2_stuff_rocket.Base.{
  true, false, not, ◌&&◌, Option, none, some, ◌≡◌, refl, inl, inr, arith, String, same_text,
  same_text_iff, Bool-cases, Option-cases, List, [], ◌∷◌, ◌++◌, if◌then◌else◌,
}
use r_m2_stuff_rocket.Launcher.Apps.{
  App, AppRunInfo, Effect, sigterm, sigcont, find, update, stop, is_running,
}
use r_m2_stuff_rocket.Launcher.State.{
  State, World, ◌>>=◌, empty_path, show, stop_timer, show_screenshot, get_current_app,
}
use r_m2_stuff_rocket.Launcher.Events.{
  long_press, select_next, highlighted_path, drop_exited, update_stopped_apps, stop_app,
  is_running_at, has_exited, clear_exited,
}
use r_m2_stuff_rocket.Launcher.Paths.{
  paths, Fresh, Distinct, NoneActive, OnlyActive, paths-update, NoneActive-update,
  OnlyActive-update, Holds, Holds-update, NoneActive-of_find, All-remove_exited,
  Distinct-remove_exited, Fresh-remove_exited, find-remove_exited,
}
use r_m2_stuff_rocket.Launcher.Exclusive.{
  IsValid, IsUsual, Succeeds, stopped, running, show-Succeeds, show-idle, read_apps-IsValid,
}
use r_m2_stuff_rocket.Launcher.Faultless.{returned, becomes}

abbrev stop_effects : Option AppRunInfo → List Effect
stop_effects none = []
stop_effects (some r) = if r.paused then sigterm r.pid ∷ sigcont r.pid ∷ [] else sigterm r.pid ∷ []

-- A path that no application has is not found.
find-Fresh : (p : String) (apps : List App) → Fresh p (paths apps) → find p apps ≡ none
unfolding find
find-Fresh p [] f = refl
find-Fresh p (a ∷ rest) f = elim (Bool-cases (same_text a.desc.path p)) [
  | inl e ↦ absurd (f.0 ((same_text_iff a.desc.path p).0 e))
  | inr e ↦ rw e (find-Fresh p rest f.1)
]

module _ (w : World) (s : State) (u : IsUsual w) (v : IsValid s) where
  abbrev after : State
  after = (drop_exited w s).0

  abbrev updated : List App
  updated = (update w.exited s.apps).0

  updated-Distinct : Distinct (paths updated)
  updated-Distinct = rw (paths-update w.exited s.apps) v.distinct

  after-Distinct : Distinct (paths after.apps)
  after-Distinct = Distinct-remove_exited updated updated-Distinct

  after-named : Fresh empty_path (paths after.apps)
  after-named = Fresh-remove_exited empty_path updated (rw (paths-update w.exited s.apps) v.named)

  -- Visible: nothing was active, and `show` returns at once.
  visible_case : s.visible ≡ true → Succeeds (update_stopped_apps w s)
  unfolding update_stopped_apps
  visible_case h =
      let ok : IsValid after = record {
        named = after-named;
        distinct = after-Distinct;
        exclusive =
            rw h (All-remove_exited _ updated (NoneActive-update w.exited s.apps (stopped s v h)));
      } in
      elim (Bool-cases (drop_exited w s).1) [
        | inl e ↦ becomes _ (show w after) (ground arith) (show-Succeeds w after u ok)
        | inr e ↦ becomes _ (some after) (ground arith) (returned after after ok refl refl refl)
      ]

  module _ (h : s.visible ≡ false) where
    held : Holds s.current_app_path updated
    held =
        let r = running s v h in
        Holds-update s.current_app_path w.exited s.apps
          (record { app = r.app; found = r.found; live = λ _. r.active })

    alone : OnlyActive s.current_app_path updated
    alone = OnlyActive-update s.current_app_path w.exited s.apps (running s v h).alone

    -- The current application still runs.
    kept_case : is_running held.app ≡ true → Succeeds (update_stopped_apps w s)
    unfolding update_stopped_apps get_current_app clear_exited has_exited
    kept_case r =
        let same : after.current_app_path ≡ s.current_app_path = ground (arith, held.found) in
        becomes _ (some after) (ground (arith, held.found)) (record {
          state = after;
          returns = refl;
          valid = record {
            named = after-named;
            distinct = after-Distinct;
            exclusive =
                rw (h, same)
                  (record {
                    app = held.app;
                    found = find-remove_exited s.current_app_path updated held.app held.found r;
                    active = held.live r;
                    alone = All-remove_exited _ updated alone;
                  });
          };
        })

    -- It has exited: the launcher comes up.
    gone_case : is_running held.app ≡ false → Succeeds (update_stopped_apps w s)
    unfolding update_stopped_apps get_current_app clear_exited has_exited
    gone_case r =
        let cleared : after.current_app_path ≡ empty_path = ground (arith, held.found) in
        let missing : find after.current_app_path after.apps ≡ none =
          rw cleared (find-Fresh empty_path after.apps after-named) in
        let idle : NoneActive updated =
          NoneActive-of_find s.current_app_path updated held.app updated-Distinct alone held.found
            (ground arith) in
        becomes _ (show w after) (ground (arith, held.found)) (record {
          state = _;
          returns = show-idle w after u h missing;
          valid =
              read_apps-IsValid w after u after-named after-Distinct
                (All-remove_exited _ updated idle);
        })

  pub update_stopped_apps-Succeeds : Succeeds (update_stopped_apps w s)
  update_stopped_apps-Succeeds = elim (Bool-cases s.visible) [
    | inl h ↦ visible_case h
    | inr h ↦ elim (Bool-cases (is_running (held h).app)) [
      | inl r ↦ kept_case h r
      | inr r ↦ gone_case h r
    ]
  ]

module _ (w : World) (s : State) (u : IsUsual w) (v : IsValid s) where
  shot_case : Succeeds (show w s >>= λ t. some (show_screenshot t))
  unfolding show_screenshot
  shot_case =
      let r = show-Succeeds w s u v in
      let t : State = show_screenshot r.state in
      becomes _ (some t) (rw r.returns) (returned r.state t r.valid refl refl refl)

  pub long_press-Succeeds : Succeeds (long_press w s)
  unfolding long_press
  long_press-Succeeds = elim (Bool-cases s.is_unlocked) [
    | inr l ↦ becomes _ (some s) (ground arith) (returned s s v refl refl refl)
    | inl l ↦ elim (Bool-cases s.visible) [
      | inl h ↦
          let t : State = record (stop_timer s) {
            previous_app_path =
                select_next (highlighted_path s) false false s.previous_app_path s.apps;
          } in
          becomes _ (some t) (ground arith) (returned s t v refl refl refl)
      | inr h ↦ elim (Bool-cases (not s.is_viewing_screenshot && w.shot_saved)) [
        | inl c ↦ becomes _ (show w s >>= λ t. some (show_screenshot t)) (ground arith) shot_case
        | inr c ↦ becomes _ (some s) (ground arith) (returned s s v refl refl refl)
      ]
    ]
  ]

  pub stop_app-Succeeds :
      (p : String) → is_running_at (find p s.apps) ≡ true → Succeeds (stop_app p s)
  unfolding stop_app stop
  stop_app-Succeeds p h = elim (Option-cases (find p s.apps)) [
    | inl e ↦ absurd (ground arith)
    | inr (a, e) ↦
        let t : State = stop_timer (record s { log = stop_effects a.run_info ++ s.log }) in
        becomes _ (some t) (ground arith) (returned s t v refl refl refl)
  ]
