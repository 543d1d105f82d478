-- ===== src/Launcher/Exclusive.antt =====
-- apps/rocket/Launcher.cpp: the records of the launcher have at most one active application, which is the
-- current one, and none while the launcher is on the screen.
use r_m2_stuff_rocket.Base.{
  ℕ, String, Bool, true, false, Option, none, some, List, [], ◌∷◌, ◌++◌, ◌≡◌, subst, refl, inl, inr,
  if◌then◌else◌, arith, Bool-cases, Option-cases,
}
use r_m2_stuff_rocket.Base.Int.{negsuc}
use r_m2_stuff_rocket.Launcher.Apps.{
  App, AppRunInfo, Effect, sigstop, sigcont, spawned, flood, find, put, pause, resume, launch,
  is_running,
}
use r_m2_stuff_rocket.Launcher.State.{
  State, World, empty_path, show, read_apps, switch_app, leave_current, enter_app,
}
use r_m2_stuff_rocket.Launcher.Paths.{
  paths, Fresh, Distinct, is_active, NoneActive, OnlyActive, find-path, find-All, paths-put,
  find-put, put-NoneActive, put-OnlyActive,
}
use r_m2_stuff_rocket.Launcher.Descriptions.{desc_paths}
use r_m2_stuff_rocket.Launcher.Merge.{merge_apps-Distinct, merge_apps-Fresh, merge_apps-NoneActive}

-- The application with path `p` is there and active, and no other is.
pub record Runs (p : String) (apps : List App) : Type 0 where
  pub app : App
  pub found : find p apps ≡ some app
  pub active : is_active app ≡ true
  pub alone : OnlyActive p apps

-- By `visible`: none is active, or just the current one.
abbrev pub Exclusive : Bool → String → List App → Type 0
Exclusive true p apps = NoneActive apps
Exclusive false p apps = Runs p apps

pub record IsValid (s : State) : Type 0 where
  pub named : Fresh empty_path (paths s.apps)
  pub distinct : Distinct (paths s.apps)
  pub exclusive : Exclusive s.visible s.current_app_path s.apps

-- What is assumed of one event: `fork` succeeds, and the files on the disk have distinct paths that
-- are not empty.
pub record IsUsual (w : World) : Type 0 where
  pub pid : ℕ
  pub forks : w.spawn ≡ some pid
  pub files_named : Fresh empty_path (desc_paths w.descriptions)
  pub files_distinct : Distinct (desc_paths w.descriptions)

-- The operation succeeds, and its result is valid.
pub record Succeeds (r : Option State) : Type 0 where
  pub state : State
  pub returns : r ≡ some state
  pub valid : IsValid state

pub read_apps-IsValid :
    (w : World) (s : State)
    → IsUsual w
    → Fresh empty_path (paths s.apps)
    → Distinct (paths s.apps)
    → NoneActive s.apps
    → IsValid (record (read_apps w s) { visible = true })
unfolding read_apps
read_apps-IsValid w s u n d a = record {
  named = merge_apps-Fresh w.icons empty_path s.apps w.descriptions n u.files_named;
  distinct = merge_apps-Distinct w.icons s.apps w.descriptions d u.files_distinct;
  exclusive = merge_apps-NoneActive w.icons s.apps w.descriptions a;
}

-- What `pause` makes of an application that runs.
abbrev paused_info : Option AppRunInfo → Option AppRunInfo
paused_info none = none
paused_info (some r) = some (record r { paused = true })

abbrev paused_app : Option ℕ → App → App
paused_app screen a = record a { run_info = paused_info a.run_info; saved_fb = screen }

abbrev paused_effects : App → List Effect
paused_effects a = elim a.run_info [ none ↦ [] | some r ↦ sigstop r.pid ∷ [] ]

paused-inactive : (screen : Option ℕ) (a : App) → is_active (paused_app screen a) ≡ false
paused-inactive screen a = ground arith

-- The invariant at a known value of `visible`.
module _ (s : State) (v : IsValid s) where
  pub stopped : s.visible ≡ true → NoneActive s.apps
  stopped e = subst (λ b. Exclusive b s.current_app_path s.apps) e v.exclusive

  pub running : s.visible ≡ false → Runs s.current_app_path s.apps
  running e = subst (λ b. Exclusive b s.current_app_path s.apps) e v.exclusive

module _ (w : World) (s : State) (u : IsUsual w) where
  show-visible : s.visible ≡ true → show w s ≡ some s
  unfolding show
  show-visible v = ground arith

  pub show-idle :
      s.visible ≡ false
      → find s.current_app_path s.apps ≡ none
      → show w s ≡ some (record (read_apps w s) { visible = true })
  unfolding show
  show-idle v e = ground arith

  -- The state once the current application is paused.
  abbrev with_paused : App → State
  with_paused a = record s {
    apps = put s.current_app_path (paused_app (some w.screen) a) s.apps;
    log = paused_effects a ++ s.log;
  }

  show-active :
      s.visible ≡ false
      → (a : App) → find s.current_app_path s.apps ≡ some a
      → is_active a ≡ true
      → show w s ≡ some (record (read_apps w (with_paused a)) { visible = true })
  unfolding show pause
  show-active v a e r = ground arith

  pub show-Succeeds : IsValid s → Succeeds (show w s)
  show-Succeeds v = elim (Bool-cases s.visible) [
    | inl e ↦ record { state = s; returns = show-visible e; valid = v }
    | inr e ↦
        let r = running s v e in
        let p = find-path s.current_app_path s.apps r.app r.found in
        let same = paths-put s.current_app_path (paused_app (some w.screen) r.app) s.apps p in
        record {
          state = record (read_apps w (with_paused r.app)) { visible = true };
          returns = show-active e r.app r.found r.active;
          valid = read_apps-IsValid w (with_paused r.app) u (rw same v.named) (rw same v.distinct) (
              put-NoneActive s.current_app_path (paused_app (some w.screen) r.app) s.apps
                (paused-inactive (some w.screen) r.app) v.distinct r.alone);
        }
  ]

-- The state after a switch is valid if the application that was entered is active.
entered-IsValid :
    (s t : State) (p : String) (a b : App)
    → IsValid s
    → NoneActive s.apps
    → find p s.apps ≡ some a
    → b.desc.path ≡ p
    → is_active b ≡ true
    → t.apps ≡ put p b s.apps
    → t.visible ≡ false
    → t.current_app_path ≡ p
    → IsValid t
entered-IsValid s t p a b v n e q r apps_are hidden current_is = record {
  named = rw (apps_are, paths-put p b s.apps q) v.named;
  distinct = rw (apps_are, paths-put p b s.apps q) v.distinct;
  exclusive =
      rw (hidden, current_is, apps_are)
        (record {
          app = b;
          found = find-put p b s.apps a q e;
          active = r;
          alone = put-OnlyActive p b s.apps q n;
        });
}

leave_current-idle : (s : State) → NoneActive s.apps → leave_current s ≡ some s
unfolding leave_current
leave_current-idle s n = elim (Option-cases (find s.current_app_path s.apps)) [
  | inl e ↦ ground arith
  | inr (a, e) ↦
      let idle = find-All (λ b. is_active b ≡ false) s.current_app_path s.apps n e in ground arith
]

abbrev resumed_info : Option AppRunInfo → Option AppRunInfo
resumed_info none = none
resumed_info (some r) = some (record r { paused = false })

abbrev resumed_app : App → App
resumed_app a = record a { run_info = resumed_info a.run_info }

abbrev spawned_app : ℕ → App → App
spawned_app pid a = record a {
  run_info = some (record { pid = pid; paused = false });
  saved_fb = none;
}

-- The launcher leaves the screen.
abbrev left_screen : State → State
left_screen s = record s { visible = false; sleep_timer = none; sleep_countdown = negsuc 0 }

module _ (w : World) (s : State) (p : String) (a : App) (e : find p s.apps ≡ some a) where
  switch_app-enters : NoneActive s.apps → switch_app w p s ≡ enter_app w p a (left_screen s)
  unfolding switch_app
  switch_app-enters n = ground (arith, leave_current-idle (left_screen s) n)

  enter_app-Succeeds :
      IsUsual w
      → IsValid s
      → NoneActive s.apps
      → is_active a ≡ false
      → Succeeds (enter_app w p a (left_screen s))
  unfolding enter_app resume launch
  enter_app-Succeeds u v n i = elim (Bool-cases (is_running a)) [
    | inl r ↦
        let b = resumed_app a in
        let q = find-path p s.apps a e in
        record {
          state = record (left_screen s) {
            apps = put p b s.apps;
            log = continued ++ (if s.has_touch_device then flood ∷ s.log else s.log);
            previous_app_path = s.current_app_path;
            current_app_path = a.desc.path;
          };
          returns = ground arith;
          valid = entered-IsValid s _ p a b v n e q (ground arith) refl refl q;
        }
    | inr r ↦
        let b = spawned_app u.pid a in
        let q = find-path p s.apps a e in
        record {
          state = record (left_screen s) {
            apps = put p b s.apps;
            log = spawned u.pid ∷ s.log;
            previous_app_path = s.current_app_path;
            current_app_path = a.desc.path;
          };
          returns = ground (arith, u.forks);
          valid = entered-IsValid s _ p a b v n e q (ground arith) refl refl q;
        }
  ]
    where
      continued : List Effect
      continued = elim a.run_info [ none ↦ [] | some r ↦ sigcont r.pid ∷ [] ]

  pub switch_app-Succeeds : IsUsual w → IsValid s → s.visible ≡ true → Succeeds (switch_app w p s)
  switch_app-Succeeds u v h =
      let n = stopped s v h in
      rw (switch_app-enters n)
        (enter_app-Succeeds u v n (find-All (λ b. is_active b ≡ false) p s.apps n e))
