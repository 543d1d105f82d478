-- ===== src/Launcher/Paths.antt =====
-- The list of applications seen through its paths: lookups, writes and exits.
use r_m2_stuff_rocket.Base.{
  ℕ, String, Bool, true, false, not, ◌&&◌, some, List, [], ◌∷◌, ◌≡◌, refl, ap, ◌∙◌, ◌≢◌, inl, inr,
  arith, All, All-map, same_text, same_text_iff, Bool-cases,
}
use r_m2_stuff_rocket.Launcher.Apps.{App, is_running, is_paused, find, put, reap, update, drop_info}
use r_m2_stuff_rocket.Launcher.Events.{remove_exited}

abbrev pub paths : List App → List String
paths [] = []
paths (a ∷ rest) = a.desc.path ∷ paths rest

abbrev pub Fresh : String → List String → Type 0
Fresh p = All (λ q. q ≢ p)

abbrev pub Distinct : List String → Type 0
Distinct [] = Unit {0}
Distinct (p ∷ rest) = Fresh p rest × Distinct rest

-- A process that runs and is not stopped.
abbrev pub is_active : App → Bool
is_active a = is_running a && not (is_paused a)

abbrev pub NoneActive : List App → Type 0
NoneActive = All (λ a. is_active a ≡ false)

-- Nothing is active but the application with path `p`.
abbrev pub OnlyActive : String → List App → Type 0
OnlyActive p = All (λ a. is_active a ≡ true → a.desc.path ≡ p)

pub find-path : (p : String) (apps : List App) (a : App) → find p apps ≡ some a → a.desc.path ≡ p
unfolding find
find-path p [] a h = cc
find-path p (b ∷ rest) a h = ground (arith, same_text_iff b.desc.path p, find-path p rest a)

pub find-All :
    (P : App → Type 0) (p : String) (apps : List App) {a : App}
    → All P apps
    → find p apps ≡ some a
    → P a
unfolding find
find-All P p [] all h = cc
find-All P p (b ∷ rest) {a = a} all h = elim (Bool-cases (same_text b.desc.path p)) [
  | inl e ↦ rw (some-inj b a (rw e at h)) at all.0
  | inr e ↦ find-All P p rest all.1 (rw e at h)
]
  where
    some-inj : (x y : App) → some x ≡ some y → x ≡ y
    some-inj x y q = cc

pub paths-put :
    (p : String) (b : App) (apps : List App) → b.desc.path ≡ p → paths (put p b apps) ≡ paths apps
unfolding put
paths-put p b [] h = refl
paths-put p b (a ∷ rest) h = ground (arith, same_text_iff a.desc.path p, paths-put p b rest h)

pub find-put :
    (p : String) (b : App) (apps : List App) (a : App)
    → b.desc.path ≡ p
    → find p apps ≡ some a
    → find p (put p b apps) ≡ some b
unfolding find put
find-put p b [] a h e = cc
find-put p b (x ∷ rest) a h e =
    ground (arith, same_text_iff x.desc.path p, same_text_iff b.desc.path p, find-put p b rest a h)

NoneActive-Fresh :
    (p : String) (apps : List App) → OnlyActive p apps → Fresh p (paths apps) → NoneActive apps
NoneActive-Fresh p [] o f = tt
NoneActive-Fresh p (a ∷ rest) o f = (ground arith, NoneActive-Fresh p rest o.1 f.1)

-- Once the only active application is inactive, none is active.
pub put-NoneActive :
    (p : String) (b : App) (apps : List App)
    → is_active b ≡ false
    → Distinct (paths apps)
    → OnlyActive p apps
    → NoneActive (put p b apps)
unfolding put
put-NoneActive p b [] q d o = tt
put-NoneActive p b (a ∷ rest) q d o = elim (Bool-cases (same_text a.desc.path p)) [
  | inl e ↦
      let same : a.desc.path ≡ p = (same_text_iff a.desc.path p).0 e in
      rw e (q, NoneActive-Fresh p rest o.1 (rw same at d.0))
  | inr e ↦ rw e (ground (arith, same_text_iff a.desc.path p), put-NoneActive p b rest q d.1 o.1)
]

pub put-OnlyActive :
    (p : String) (b : App) (apps : List App)
    → b.desc.path ≡ p
    → NoneActive apps
    → OnlyActive p (put p b apps)
unfolding put
put-OnlyActive p b [] h n = tt
put-OnlyActive p b (a ∷ rest) h n = elim (Bool-cases (same_text a.desc.path p)) [
  | inl e ↦ rw e ((λ _. h), All-map _ _ (λ x q r. absurd (cc)) rest n.1)
  | inr e ↦ rw e ((λ r. absurd (cc)), put-OnlyActive p b rest h n.1)
]

pub paths-update : (pids : List ℕ) (apps : List App) → paths (update pids apps).0 ≡ paths apps
unfolding update reap
paths-update [] apps = refl
paths-update (pid ∷ pids) apps = paths-update pids (reap pid apps) ∙ paths-reap apps
  where
    paths-reap : (bs : List App) → paths (reap pid bs) ≡ paths bs
    paths-reap [] = refl
    paths-reap (a ∷ rest) = ap (◌∷◌ a.desc.path) (paths-reap rest)

NoneActive-reap : (pid : ℕ) (apps : List App) → NoneActive apps → NoneActive (reap pid apps)
unfolding reap
NoneActive-reap pid [] n = tt
NoneActive-reap pid (a ∷ rest) n = (ground arith, NoneActive-reap pid rest n.1)

pub NoneActive-update :
    (pids : List ℕ) (apps : List App) → NoneActive apps → NoneActive (update pids apps).0
unfolding update
NoneActive-update [] apps n = n
NoneActive-update (pid ∷ pids) apps n =
    NoneActive-update pids (reap pid apps) (NoneActive-reap pid apps n)

OnlyActive-reap :
    (p : String) (pid : ℕ) (apps : List App) → OnlyActive p apps → OnlyActive p (reap pid apps)
unfolding reap
OnlyActive-reap p pid [] o = tt
OnlyActive-reap p pid (a ∷ rest) o = (ground arith, OnlyActive-reap p pid rest o.1)

pub OnlyActive-update :
    (p : String) (pids : List ℕ) (apps : List App)
    → OnlyActive p apps
    → OnlyActive p (update pids apps).0
unfolding update
OnlyActive-update p [] apps o = o
OnlyActive-update p (pid ∷ pids) apps o =
    OnlyActive-update p pids (reap pid apps) (OnlyActive-reap p pid apps o)

-- The application with path `p` is there, and active while it runs.
pub record Holds (p : String) (apps : List App) : Type 0 where
  pub app : App
  pub found : find p apps ≡ some app
  pub live : is_running app ≡ true → is_active app ≡ true

Holds-reap : (p : String) (pid : ℕ) (apps : List App) → Holds p apps → Holds p (reap pid apps)
unfolding find reap
Holds-reap p pid [] h = absurd (cc (h.found))
Holds-reap p pid (a ∷ rest) h = elim (Bool-cases (same_text a.desc.path p)) [
  | inl e ↦ record {
    app = record a { run_info = drop_info pid a.run_info };
    found = rw e;
    live = ground (arith, rw e at h.found, h.live);
  }
  | inr e ↦
      let rec =
        Holds-reap p pid rest (record { app = h.app; found = rw e at h.found; live = h.live }) in
      record { app = rec.app; found = rw e rec.found; live = rec.live }
]

pub Holds-update :
    (p : String) (pids : List ℕ) (apps : List App) → Holds p apps → Holds p (update pids apps).0
unfolding update
Holds-update p [] apps h = h
Holds-update p (pid ∷ pids) apps h = Holds-update p pids (reap pid apps) (Holds-reap p pid apps h)

-- If the only application that may be active is not, none is.
pub NoneActive-of_find :
    (p : String) (apps : List App) (a : App)
    → Distinct (paths apps)
    → OnlyActive p apps
    → find p apps ≡ some a
    → is_active a ≡ false
    → NoneActive apps
unfolding find
NoneActive-of_find p [] a d o e n = tt
NoneActive-of_find p (b ∷ rest) a d o e n = elim (Bool-cases (same_text b.desc.path p)) [
  | inl t ↦
      let same : b.desc.path ≡ p = (same_text_iff b.desc.path p).0 t in
      (ground arith, NoneActive-Fresh p rest o.1 (rw same at d.0))
  | inr t ↦ (
    ground (arith, same_text_iff b.desc.path p),
    NoneActive-of_find p rest a d.1 o.1 (rw t at e) n,
  )
]

pub All-remove_exited :
    (P : App → Type 0) (apps : List App) → All P apps → All P (remove_exited apps)
unfolding remove_exited
All-remove_exited P [] h = tt
All-remove_exited P (a ∷ rest) h = elim (Bool-cases (a.should_remove && not (is_running a))) [
  | inl e ↦ rw e (All-remove_exited P rest h.1)
  | inr e ↦ rw e (h.0, All-remove_exited P rest h.1)
]

pub Fresh-remove_exited :
    (p : String) (apps : List App) → Fresh p (paths apps) → Fresh p (paths (remove_exited apps))
unfolding remove_exited
Fresh-remove_exited p [] h = tt
Fresh-remove_exited p (a ∷ rest) h = elim (Bool-cases (a.should_remove && not (is_running a))) [
  | inl e ↦ rw e (Fresh-remove_exited p rest h.1)
  | inr e ↦ rw e (h.0, Fresh-remove_exited p rest h.1)
]

pub Distinct-remove_exited :
    (apps : List App) → Distinct (paths apps) → Distinct (paths (remove_exited apps))
unfolding remove_exited
Distinct-remove_exited [] h = tt
Distinct-remove_exited (a ∷ rest) h = elim (Bool-cases (a.should_remove && not (is_running a))) [
  | inl e ↦ rw e (Distinct-remove_exited rest h.1)
  | inr e ↦ rw e (Fresh-remove_exited a.desc.path rest h.0, Distinct-remove_exited rest h.1)
]

-- An application that runs is not removed.
pub find-remove_exited :
    (p : String) (apps : List App) (a : App)
    → find p apps ≡ some a
    → is_running a ≡ true
    → find p (remove_exited apps) ≡ some a
unfolding find remove_exited
find-remove_exited p [] a e r = e
find-remove_exited p (b ∷ rest) a e r = ground (arith, find-remove_exited p rest a)
