-- ===== src/Launcher/Merge.antt =====
-- `readApps` seen through the paths: the applications stay distinct, and none becomes active.
use r_m2_stuff_rocket.Base.{
  ℕ, String, false, Option, none, some, List, [], ◌∷◌, ◌++◌, map, ◌≡◌, refl, ap, ◌⊎◌, inl, inr,
  arith, All, All-append, Bool-cases, Option-cases,
}
use r_m2_stuff_rocket.Launcher.Apps.{App, AppDescription, is_running, new_app, update_description}
use r_m2_stuff_rocket.Launcher.ReadApps.{find_desc, erase_found, keep_app, update_known, merge_apps}
use r_m2_stuff_rocket.Launcher.Paths.{paths, Fresh, Distinct, NoneActive, is_active}
use r_m2_stuff_rocket.Launcher.Descriptions.{
  desc_paths, find_desc-path, Fresh-erase_found, Distinct-erase_found, Fresh-found,
}
use r_m2_stuff_rocket.Launcher.Sorting.{
  All-sort_apps, paths-append, Fresh-sort_apps, Distinct-sort_apps,
}

module _ (icons : String → Option ℕ) where
  abbrev kept : List App → List AppDescription → List App
  kept apps ds = (update_known icons apps ds).0

  abbrev left : List App → List AppDescription → List AppDescription
  left apps ds = (update_known icons apps ds).1

  keep_app-NoneActive :
      (a : App) (o : Option AppDescription) (ks : List App)
      → is_active a ≡ false
      → NoneActive ks
      → NoneActive (keep_app icons a o ks)
  unfolding keep_app update_description
  keep_app-NoneActive a none ks h n = elim (Bool-cases (is_running a)) [
    | inl r ↦ rw r (ground arith, n)
    | inr r ↦ rw r n
  ]
  keep_app-NoneActive a (some d) ks h n = (h, n)

  NoneActive-kept :
      (apps : List App) (ds : List AppDescription) → NoneActive apps → NoneActive (kept apps ds)
  unfolding update_known
  NoneActive-kept [] ds n = tt
  NoneActive-kept (a ∷ rest) ds n =
      keep_app-NoneActive a (find_desc a.desc.path ds) _ n.0
        (NoneActive-kept rest (erase_found a.desc.path (find_desc a.desc.path ds) ds) n.1)

  -- An application is dropped or keeps its path.
  paths-keep_app :
      (a : App) (ds : List AppDescription) (ks : List App)
      → let ps = paths (keep_app icons a (find_desc a.desc.path ds) ks) in
        (ps ≡ paths ks) ⊎ (ps ≡ a.desc.path ∷ paths ks)
  unfolding keep_app update_description
  paths-keep_app a ds ks = elim (Option-cases (find_desc a.desc.path ds)) [
    | inl e ↦ elim (Bool-cases (is_running a)) [
      | inl r ↦ inr (rw (e, keep_app) (rw r))
      | inr r ↦ inl (rw (e, keep_app) (rw r))
    ]
    | inr (d, e) ↦ inr (rw (e, keep_app) (ap (λ q. q ∷ paths ks) (find_desc-path _ ds d e)))
  ]

  Fresh-kept :
      (p : String) (apps : List App) (ds : List AppDescription)
      → Fresh p (paths apps)
      → Fresh p (paths (kept apps ds))
  unfolding update_known
  Fresh-kept p [] ds f = tt
  Fresh-kept p (a ∷ rest) ds f =
      let ds' = erase_found a.desc.path (find_desc a.desc.path ds) ds in
      let ih = Fresh-kept p rest ds' f.1 in
      elim (paths-keep_app a ds (kept rest ds')) [ inl e ↦ rw e ih | inr e ↦ rw e (f.0, ih) ]

  Fresh-left :
      (p : String) (apps : List App) (ds : List AppDescription)
      → Fresh p (desc_paths ds)
      → Fresh p (desc_paths (left apps ds))
  unfolding update_known
  Fresh-left p [] ds f = f
  Fresh-left p (a ∷ rest) ds f =
      Fresh-left p rest (erase_found a.desc.path (find_desc a.desc.path ds) ds)
        (Fresh-erase_found p a.desc.path (find_desc a.desc.path ds) ds f)

  abbrev Apart : List App → List AppDescription → Type 0
  Apart ks ls =
      Distinct (paths ks) × Distinct (desc_paths ls) × All (λ q. Fresh q (desc_paths ls)) (paths ks)

  update_known-Apart :
      (apps : List App) (ds : List AppDescription)
      → Distinct (paths apps)
      → Distinct (desc_paths ds)
      → Apart (kept apps ds) (left apps ds)
  unfolding update_known
  update_known-Apart [] ds h k = (tt, k, tt)
  update_known-Apart (a ∷ rest) ds h k =
      let ds' = erase_found a.desc.path (find_desc a.desc.path ds) ds in
      let ih =
        update_known-Apart rest ds' h.1
          (Distinct-erase_found a.desc.path (find_desc a.desc.path ds) ds k) in
      elim (paths-keep_app a ds (kept rest ds')) [
        | inl e ↦ rw e ih
        | inr e ↦ rw e (
          (Fresh-kept a.desc.path rest ds' h.0, ih.0),
          ih.1,
          (Fresh-left a.desc.path rest ds' (Fresh-found a.desc.path ds k), ih.2),
        )
      ]

  paths-new_apps : (ds : List AppDescription) → paths (map (new_app icons) ds) ≡ desc_paths ds
  unfolding new_app
  paths-new_apps [] = refl
  paths-new_apps (d ∷ ds) = ap (◌∷◌ d.path) (paths-new_apps ds)

  NoneActive-new_apps : (ds : List AppDescription) → NoneActive (map (new_app icons) ds)
  unfolding new_app
  NoneActive-new_apps [] = tt
  NoneActive-new_apps (d ∷ ds) = (refl, NoneActive-new_apps ds)

Distinct-append :
    (ps qs : List String)
    → Distinct ps
    → Distinct qs
    → All (λ p. Fresh p qs) ps
    → Distinct (ps ++ qs)
Distinct-append [] qs d e f = e
Distinct-append (p ∷ ps) qs d e f = (All-append _ ps qs d.0 f.0, Distinct-append ps qs d.1 e f.1)

-- When the known applications have distinct paths, and the descriptions found on the disk too, so
-- have the applications after `readApps`.
pub merge_apps-Distinct :
    (icons : String → Option ℕ) (apps : List App) (ds : List AppDescription)
    → Distinct (paths apps)
    → Distinct (desc_paths ds)
    → Distinct (paths (merge_apps icons apps ds))
unfolding merge_apps
merge_apps-Distinct icons apps ds h k =
    let apart = update_known-Apart icons apps ds h k in
    Distinct-sort_apps _ (
      rw (paths-append (kept icons apps ds), paths-new_apps icons (left icons apps ds))
        (Distinct-append _ _ apart.0 apart.1 apart.2))

pub merge_apps-Fresh :
    (icons : String → Option ℕ) (p : String) (apps : List App) (ds : List AppDescription)
    → Fresh p (paths apps)
    → Fresh p (desc_paths ds)
    → Fresh p (paths (merge_apps icons apps ds))
unfolding merge_apps
merge_apps-Fresh icons p apps ds h k = Fresh-sort_apps p _ (
    rw (paths-append (kept icons apps ds), paths-new_apps icons (left icons apps ds))
      (All-append _ _ _ (Fresh-kept icons p apps ds h) (Fresh-left icons p apps ds k)))

pub merge_apps-NoneActive :
    (icons : String → Option ℕ) (apps : List App) (ds : List AppDescription)
    → NoneActive apps
    → NoneActive (merge_apps icons apps ds)
unfolding merge_apps
merge_apps-NoneActive icons apps ds n = All-sort_apps _ _ (
    All-append _ _ _ (NoneActive-kept icons apps ds n)
      (NoneActive-new_apps icons (left icons apps ds)))
