-- ===== src/Launcher/Sorting.antt =====
-- `readApps`, its last step: sorting keeps the applications and their paths.
use r_m2_stuff_rocket.Base.{
  String, List, [], ◌∷◌, ◌++◌, ◌≡◌, refl, sym, ap, ◌≢◌, inl, inr, All, text_lt, Bool-cases,
}
use r_m2_stuff_rocket.Launcher.Apps.{App}
use r_m2_stuff_rocket.Launcher.ReadApps.{insert_app, sort_apps}
use r_m2_stuff_rocket.Launcher.Paths.{paths, Fresh, Distinct}

pub All-sort_apps : (P : App → Type 0) (apps : List App) → All P apps → All P (sort_apps apps)
unfolding sort_apps insert_app
All-sort_apps P [] h = tt
All-sort_apps P (a ∷ rest) h = insert a (sort_apps rest) h.0 (All-sort_apps P rest h.1)
  where
    insert : (b : App) (bs : List App) → P b → All P bs → All P (insert_app b bs)
    insert b [] q hs = (q, tt)
    insert b (c ∷ bs) q hs = elim (Bool-cases (text_lt b.desc.path c.desc.path)) [
      | inl e ↦ rw e (q, hs)
      | inr e ↦ rw e (hs.0, insert b bs q hs.1)
    ]

pub paths-append : (xs ys : List App) → paths (xs ++ ys) ≡ paths xs ++ paths ys
paths-append [] ys = refl
paths-append (x ∷ xs) ys = ap (◌∷◌ x.desc.path) (paths-append xs ys)

-- `Fresh` and `Distinct` through insertion and sorting.
Fresh-All : (p : String) (apps : List App) → Fresh p (paths apps) → All (λ a. a.desc.path ≢ p) apps
Fresh-All p [] f = tt
Fresh-All p (a ∷ rest) f = (f.0, Fresh-All p rest f.1)

All-Fresh : (p : String) (apps : List App) → All (λ a. a.desc.path ≢ p) apps → Fresh p (paths apps)
All-Fresh p [] f = tt
All-Fresh p (a ∷ rest) f = (f.0, All-Fresh p rest f.1)

pub Fresh-sort_apps :
    (p : String) (apps : List App) → Fresh p (paths apps) → Fresh p (paths (sort_apps apps))
Fresh-sort_apps p apps f = All-Fresh p _ (All-sort_apps _ apps (Fresh-All p apps f))

Fresh-insert_app :
    (p : String) (a : App) (apps : List App)
    → a.desc.path ≢ p
    → Fresh p (paths apps)
    → Fresh p (paths (insert_app a apps))
unfolding insert_app
Fresh-insert_app p a [] n f = (n, tt)
Fresh-insert_app p a (b ∷ rest) n f = elim (Bool-cases (text_lt a.desc.path b.desc.path)) [
  | inl e ↦ rw e (n, f)
  | inr e ↦ rw e (f.0, Fresh-insert_app p a rest n f.1)
]

Distinct-insert_app :
    (a : App) (apps : List App)
    → Fresh a.desc.path (paths apps)
    → Distinct (paths apps)
    → Distinct (paths (insert_app a apps))
unfolding insert_app
Distinct-insert_app a [] f d = (tt, tt)
Distinct-insert_app a (b ∷ rest) f d = elim (Bool-cases (text_lt a.desc.path b.desc.path)) [
  | inl e ↦ rw e (f, d)
  | inr e ↦ rw e (
    Fresh-insert_app b.desc.path a rest (λ q. f.0 (sym q)) d.0,
    Distinct-insert_app a rest f.1 d.1,
  )
]

pub Distinct-sort_apps :
    (apps : List App) → Distinct (paths apps) → Distinct (paths (sort_apps apps))
unfolding sort_apps
Distinct-sort_apps [] d = tt
Distinct-sort_apps (a ∷ rest) d =
    Distinct-insert_app a (sort_apps rest) (Fresh-sort_apps a.desc.path rest d.0)
      (Distinct-sort_apps rest d.1)
