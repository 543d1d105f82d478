-- ===== src/Launcher/Processes.antt =====
-- apps/rocket/Launcher.cpp, `readApps`: what becomes of the applications that run.
use r_m2_stuff_rocket.Base.{
  ℕ, String, true, Option, none, some, List, [], ◌∷◌, ◌++◌, map, ◌≡◌, ◌⊎◌, inl, inr, arith, text_lt,
  Bool-cases,
}
use r_m2_stuff_rocket.Launcher.Apps.{
  App, AppRunInfo, AppDescription, is_running, new_app, update_description,
}
use r_m2_stuff_rocket.Launcher.ReadApps.{
  find_desc, erase_found, keep_app, update_known, insert_app, sort_apps, merge_apps,
}

abbrev pid_of : Option AppRunInfo → Option ℕ
pid_of none = none
pid_of (some r) = some r.pid

-- The process belongs to an application of the list.
abbrev pub HasProcess : ℕ → List App → Type 0
HasProcess pid [] = ⊥
HasProcess pid (a ∷ rest) = (pid_of a.run_info ≡ some pid) ⊎ HasProcess pid rest

module _ (pid : ℕ) where
  runs : (a : App) → pid_of a.run_info ≡ some pid → is_running a ≡ true
  runs a h = ground arith

  insert_app-HasProcess :
      (a : App) (apps : List App) → HasProcess pid (a ∷ apps) → HasProcess pid (insert_app a apps)
  unfolding insert_app
  insert_app-HasProcess a [] h = h
  insert_app-HasProcess a (b ∷ rest) h = elim (Bool-cases (text_lt a.desc.path b.desc.path)) [
    | inl e ↦ rw e h
    | inr e ↦ rw e (elim h [
      | inl own ↦ inr (insert_app-HasProcess a rest (inl own))
      | inr (inl first) ↦ inl first
      | inr (inr later) ↦ inr (insert_app-HasProcess a rest (inr later))
    ])
  ]

  sort_apps-HasProcess : (apps : List App) → HasProcess pid apps → HasProcess pid (sort_apps apps)
  unfolding sort_apps
  sort_apps-HasProcess [] h = h
  sort_apps-HasProcess (a ∷ rest) h =
      insert_app-HasProcess a (sort_apps rest)
        (elim h [ inl own ↦ inl own | inr later ↦ inr (sort_apps-HasProcess rest later) ])

  append-HasProcess : (xs ys : List App) → HasProcess pid xs → HasProcess pid (xs ++ ys)
  append-HasProcess [] ys h = absurd h
  append-HasProcess (x ∷ xs) ys (inl h) = inl h
  append-HasProcess (x ∷ xs) ys (inr h) = inr (append-HasProcess xs ys h)

  keep_app-HasProcess :
      (icons : String → Option ℕ) (a : App) (o : Option AppDescription) (kept : List App)
      → HasProcess pid (a ∷ kept)
      → HasProcess pid (keep_app icons a o kept)
  unfolding keep_app update_description
  keep_app-HasProcess icons a (some d) kept h = h
  keep_app-HasProcess icons a none kept (inl own) = rw (runs a own) (inl own)
  keep_app-HasProcess icons a none kept (inr other) = elim (Bool-cases (is_running a)) [
    | inl e ↦ rw e (inr other)
    | inr e ↦ rw e other
  ]

  update_known-HasProcess :
      (icons : String → Option ℕ) (apps : List App) (ds : List AppDescription)
      → HasProcess pid apps
      → HasProcess pid (update_known icons apps ds).0
  unfolding update_known
  update_known-HasProcess icons [] ds h = h
  update_known-HasProcess icons (a ∷ rest) ds h =
      let ds' = erase_found a.desc.path (find_desc a.desc.path ds) ds in
      keep_app-HasProcess icons a (find_desc a.desc.path ds) (update_known icons rest ds').0
        (elim h [
          | inl own ↦ inl own
          | inr later ↦ inr (update_known-HasProcess icons rest ds' later)
        ])

  -- No process is lost: whatever the files on the disk are, a process of one of the known
  -- applications is a process of one of the applications after `readApps`.
  pub merge_apps-HasProcess :
      (icons : String → Option ℕ) (apps : List App) (ds : List AppDescription)
      → HasProcess pid apps
      → HasProcess pid (merge_apps icons apps ds)
  unfolding merge_apps
  merge_apps-HasProcess icons apps ds h = sort_apps-HasProcess _ (
      append-HasProcess _ (map (new_app icons) (update_known icons apps ds).1)
        (update_known-HasProcess icons apps ds h))
