-- ===== src/Launcher/Apps.antt =====
-- apps/rocket/App.h and App.cpp: an application, its process, and the manager of the processes.
-- An `AppRunInfo` is owned by `AppManager::runInfos` alone and seen by the one `App` that launched
-- it, through a weak pointer. The two are one field here: `run_info` is what `runInfo.lock()`
-- returns, and it is `none` once the manager has dropped the entry. An image is a number, the
-- handle of what the image library loaded or what was on the screen.
use r_m2_stuff_rocket.Base.{
  ℕ, String, Bool, true, false, Option, none, some, List, [], ◌∷◌, ◌==◌, if◌then◌else◌, same_text,
}

pub record AppRunInfo : Type 0 where
  pub pid : ℕ
  pub paused : Bool

pub record AppDescription : Type 0 where
  pub path : String
  pub name : String
  pub description : String
  pub command : String
  pub icon : String
  pub icon_path : String

pub record App : Type 0 where
  pub desc : AppDescription
  pub run_info : Option AppRunInfo
  pub icon_image : Option ℕ
  pub saved_fb : Option ℕ
  pub should_remove : Bool

-- What the launcher does to the rest of the system, newest first.
pub data Effect : Type 0 where
  sigstop sigcont sigterm spawned : ℕ → Effect
  flood : Effect
  -- `system`, of a command.
  command : String → Effect

-- `icons` is `ImageCanvas::load`.
unfoldable pub new_app : (String → Option ℕ) → AppDescription → App
new_app icons d = record {
  desc = d;
  run_info = none;
  icon_image = icons d.icon_path;
  saved_fb = none;
  should_remove = false;
}

unfoldable pub update_description : (String → Option ℕ) → AppDescription → App → App
update_description icons d a = record a { desc = d; icon_image = icons d.icon_path }

-- `!runInfo.expired()`
abbrev pub is_some {ℓ} : {A : Type ℓ} → Option A → Bool
is_some none = false
is_some (some a) = true

abbrev pub is_running : App → Bool
is_running a = is_some a.run_info

abbrev pub paused_info : Option AppRunInfo → Bool
paused_info none = false
paused_info (some r) = r.paused

abbrev pub is_paused : App → Bool
is_paused a = paused_info a.run_info

-- The outcome of `App::launch`, `fork` having returned `spawn` (`none` for -1).
unfoldable pub launch : Option ℕ → App → Option App
launch spawn a = elim a.run_info [
  | some r ↦ none
  | none ↦ elim spawn [
    | none ↦ none
    | some pid ↦ some (record a { run_info = some (record { pid = pid; paused = false }) })
  ]
]

-- `none`: the assertion fails.
unfoldable pub stop : App → Option (List Effect)
stop a = elim a.run_info [
  | none ↦ none
  | some r ↦ some (if r.paused then sigterm r.pid ∷ sigcont r.pid ∷ [] else sigterm r.pid ∷ [])
]

-- `none`: the assertion fails.
unfoldable pub pause : Option ℕ → App → Option (App × List Effect)
pause screen a = elim a.run_info [
  | none ↦ none
  | some r ↦
      if r.paused
      then none
      else some (
        record a { run_info = some (record r { paused = true }); saved_fb = screen },
        sigstop r.pid ∷ [],
      )
]

-- `resume(nullptr)`, the only call of it. `none`: the assertion fails.
unfoldable pub resume : App → Option (App × List Effect)
resume a = elim a.run_info [
  | none ↦ none
  | some r ↦
      if r.paused
      then some (record a { run_info = some (record r { paused = false }) }, sigcont r.pid ∷ [])
      else none
]

-- One pid read from the pipe by `AppManager::update`: the entries with that pid go.
abbrev pub drop_info : ℕ → Option AppRunInfo → Option AppRunInfo
drop_info pid none = none
drop_info pid (some r) = if r.pid == pid then none else some r

unfoldable pub reap : ℕ → List App → List App
reap pid [] = []
reap pid (a ∷ rest) = record a { run_info = drop_info pid a.run_info } ∷ reap pid rest

-- `AppManager::update`: every pid that waits in the pipe, and whether there was one.
unfoldable pub update : List ℕ → List App → List App × Bool
update [] apps = (apps, false)
update (pid ∷ pids) apps = ((update pids (reap pid apps)).0, true)

-- The first application with a path, as `std::find_if` finds it. Paths are unique (App.h), so a
-- reference to an application is its path.
unfoldable pub find : String → List App → Option App
find p [] = none
find p (a ∷ rest) = if same_text a.desc.path p then some a else find p rest

-- A write through such a reference.
unfoldable pub put : String → App → List App → List App
put p b [] = []
put p b (a ∷ rest) = if same_text a.desc.path p then b ∷ rest else a ∷ put p b rest
