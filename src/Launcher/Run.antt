-- ===== src/Launcher/Run.antt =====
-- apps/rocket/Launcher.cpp: sequences of events.
use r_m2_stuff_rocket.Base.{Option, some, List, [], ◌∷◌}
use r_m2_stuff_rocket.Launcher.State.{State, World, ◌>>=◌, reset_inactivity}
use r_m2_stuff_rocket.Launcher.Events.{Event, handle}
use r_m2_stuff_rocket.Launcher.Exclusive.{IsValid, IsUsual}

unfoldable pub run : List (World × Event) → State → Option State
run [] s = some s
run ((w, e) ∷ es) s = handle w e s >>= run es

module _ (w : World) (s : State) (u : IsUsual w) (v : IsValid s) where
  abbrev touched : State
  touched = reset_inactivity s
