-- ===== src/Launcher/ReadApps.antt =====
-- `LauncherState::readApps`: the applications that are known, brought up to date with the
-- descriptions on the disk. `std::sort` is an insertion sort.
use r_m2_stuff_rocket.Base.{
  String, true, Option, none, some, List, [], ◌∷◌, ◌++◌, map, if◌then◌else◌, same_text, text_lt, ℕ,
}
use r_m2_stuff_rocket.Launcher.Apps.{App, AppDescription, is_running, new_app, update_description}

unfoldable pub find_desc : String → List AppDescription → Option AppDescription
find_desc p [] = none
find_desc p (d ∷ rest) = if same_text d.path p then some d else find_desc p rest

-- `appDescriptions.erase(descIt)`
unfoldable pub erase_desc : String → List AppDescription → List AppDescription
erase_desc p [] = []
erase_desc p (d ∷ rest) = if same_text d.path p then rest else d ∷ erase_desc p rest

-- One round of "Update known apps": what is left of the descriptions once the one that was found
-- is taken out, and what is kept of the application.
unfoldable pub erase_found :
    String → Option AppDescription → List AppDescription → List AppDescription
erase_found p none ds = ds
erase_found p (some d) ds = erase_desc p ds

unfoldable pub keep_app : (String → Option ℕ) → App → Option AppDescription → List App → List App
keep_app icons a none kept = if is_running a then record a { should_remove = true } ∷ kept else kept
keep_app icons a (some d) kept = update_description icons d a ∷ kept

-- "Update known apps": the applications kept, and the descriptions left over.
unfoldable pub update_known :
    (String → Option ℕ) → List App → List AppDescription → List App × List AppDescription
update_known icons [] ds = ([], ds)
update_known icons (a ∷ rest) ds =
    let found = find_desc a.desc.path ds in
    let (kept, left) = update_known icons rest (erase_found a.desc.path found ds) in
    (keep_app icons a found kept, left)

unfoldable pub insert_app : App → List App → List App
insert_app a [] = a ∷ []
insert_app a (b ∷ rest) =
    if text_lt a.desc.path b.desc.path then a ∷ b ∷ rest else b ∷ insert_app a rest

unfoldable pub sort_apps : List App → List App
sort_apps [] = []
sort_apps (a ∷ rest) = insert_app a (sort_apps rest)

unfoldable pub merge_apps : (String → Option ℕ) → List App → List AppDescription → List App
merge_apps icons apps ds =
    let (kept, left) = update_known icons apps ds in sort_apps (kept ++ map (new_app icons) left)
