-- ===== src/Launcher/Select.antt =====
-- apps/rocket/Launcher.cpp: what a long press of the power key selects.
use r_m2_stuff_rocket.Base.{
  String, Bool, true, false, Option, none, some, List, [], ◌∷◌, ◌≡◌, refl, arith, same_text,
  if◌then◌else◌,
}
use r_m2_stuff_rocket.Launcher.Apps.{App, is_running}
use r_m2_stuff_rocket.Launcher.Events.{select_next}

-- The path of the first application that runs.
pub first_running : List App → Option String
first_running [] = none
first_running (a ∷ rest) = if is_running a then some a.desc.path else first_running rest

-- What follows the application with path `p` in the list.
pub after_path : String → List App → List App
after_path p [] = []
after_path p (a ∷ rest) = if same_text a.desc.path p then rest else after_path p rest

abbrev pub or_else : Option String → String → String
or_else none p = p
or_else (some q) p = q

select_next-past :
    (shown : String) (first : Bool) (previous : String) (apps : List App)
    → select_next shown first true previous apps ≡ or_else (first_running apps) previous
unfolding select_next first_running
select_next-past shown first previous [] = refl
select_next-past shown first previous (a ∷ rest) =
    ground (arith, select_next-past shown first previous rest)

select_next-seen :
    (shown previous : String) (apps : List App)
    → select_next shown true false previous apps
      ≡ or_else (first_running (after_path shown apps)) previous
unfolding select_next after_path first_running
select_next-seen shown previous [] = refl
select_next-seen shown previous (a ∷ rest) =
    ground (arith, select_next-seen shown previous rest, select_next-past shown true previous rest)

-- The loop of `long_press` selects the first application that runs after the highlighted one in
-- the list; if there is none, the first of the list that runs; if none runs, the previous path
-- stays.
pub select_next-cycles :
    (shown previous : String) (apps : List App)
    → select_next shown false false previous apps
      ≡ or_else (first_running (after_path shown apps)) (or_else (first_running apps) previous)
unfolding select_next after_path first_running
select_next-cycles shown previous [] = refl
select_next-cycles shown previous (a ∷ rest) = ground (
  arith,
  select_next-cycles shown previous rest,
  select_next-seen shown a.desc.path rest,
  select_next-past shown true a.desc.path rest,
  select_next-past shown false previous rest,
)
