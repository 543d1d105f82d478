-- ===== src/Launcher/Faultless.antt =====
-- apps/rocket/Launcher.cpp: every event keeps the launcher valid and fails no assertion.
use r_m2_stuff_rocket.Base.{
  Bool, true, false, Option, some, ◌≡◌, refl, sym, subst, not, ◌&&◌, inl, inr, arith, String, ◌++◌,
  Bool-cases, Option-cases,
}
use r_m2_stuff_rocket.Base.Int.{pos, negsuc, eqb_ℤ, ltb_ℤ}
use r_m2_stuff_rocket.Launcher.Apps.{App, find}
use r_m2_stuff_rocket.Launcher.State.{
  sleep_commands, State, World, show, hide, switch_app, toggle, tick, lock, woken, count_down,
  stop_timer, start_timer, get_current_app, get_previous_app,
}
use r_m2_stuff_rocket.Launcher.Events.{short_press, fall_asleep, less_active, inactivity_tick}
use r_m2_stuff_rocket.Launcher.Paths.{find-path}
use r_m2_stuff_rocket.Launcher.Exclusive.{
  IsValid, IsUsual, Succeeds, show-Succeeds, switch_app-Succeeds,
}

-- The invariant speaks of three fields only.
pub moved :
    (s t : State)
    → IsValid s
    → t.apps ≡ s.apps
    → t.visible ≡ s.visible
    → t.current_app_path ≡ s.current_app_path
    → IsValid t
moved s t v p q r = record {
  named = rw p v.named;
  distinct = rw p v.distinct;
  exclusive = rw (p, q, r) v.exclusive;
}

pub returned :
    (s t : State)
    → IsValid s
    → t.apps ≡ s.apps
    → t.visible ≡ s.visible
    → t.current_app_path ≡ s.current_app_path
    → Succeeds (some t)
returned s t v p q r = record { state = t; returns = refl; valid = moved s t v p q r }

pub becomes : (r q : Option State) → r ≡ q → Succeeds q → Succeeds r
becomes r q e h = subst Succeeds (sym e) h

get_previous_app-found :
    (s : State) (a : App) → get_previous_app s ≡ some a → find s.previous_app_path s.apps ≡ some a
unfolding get_previous_app
get_previous_app-found s a h = ground arith

module _ (w : World) (u : IsUsual w) where
  -- A switch to an application that a lookup returned.
  switch_found :
      (s : State) (p : String) (a : App)
      → IsValid s
      → s.visible ≡ true
      → find p s.apps ≡ some a
      → Succeeds (switch_app w a.desc.path s)
  switch_found s p a v h e = rw (find-path p s.apps a e) (switch_app-Succeeds w s p a e u v h)

  hide-Succeeds : (context : Bool) (s : State) → IsValid s → Succeeds (hide w context s)
  unfolding hide get_current_app
  hide-Succeeds context s v = elim (Bool-cases s.visible) [
    | inr h ↦ becomes _ (some s) (ground arith) (returned s s v refl refl refl)
    | inl h ↦ elim (Option-cases (get_previous_app s)) [
      | inr (a, e) ↦
          becomes _ (switch_app w a.desc.path s) (ground arith)
            (switch_found s s.previous_app_path a v h (get_previous_app-found s a e))
      | inl n ↦ elim (Option-cases (find s.current_app_path s.apps)) [
        | inr (a, e) ↦
            becomes _ (switch_app w a.desc.path s) (ground arith)
              (switch_found s s.current_app_path a v h e)
        | inl e ↦ elim context as (λ c. Succeeds (hide w c s)) [
          | true ↦
              becomes _ (some (start_timer 0 s)) (ground arith)
                (returned s (start_timer 0 s) v refl refl refl)
          | false ↦ becomes _ (some s) (ground arith) (returned s s v refl refl refl)
        ]
      ]
    ]
  ]

  toggle-Succeeds : (s : State) → IsValid s → Succeeds (toggle w s)
  unfolding toggle
  toggle-Succeeds s0 v0 =
      let s : State = record s0 { is_managing_power = false } in
      let v : IsValid s = moved s0 s v0 refl refl refl in
      elim (Bool-cases s.visible) [
        | inr h ↦
            becomes _ (show w (start_timer 10 s)) (ground arith)
              (show-Succeeds w (start_timer 10 s) u (moved s (start_timer 10 s) v refl refl refl))
        | inl h ↦ elim (Bool-cases s.is_unlocked) [
          | inr l ↦ becomes _ (some s) (ground arith) (returned s s v refl refl refl)
          | inl l ↦
              becomes _ (hide w (ltb_ℤ s.sleep_countdown (pos 1)) (stop_timer s)) (ground arith) (
                hide-Succeeds (ltb_ℤ s.sleep_countdown (pos 1)) (stop_timer s)
                  (moved s (stop_timer s) v refl refl refl))
        ]
      ]

  pub short_press-Succeeds : (s : State) → IsValid s → Succeeds (short_press w s)
  unfolding short_press
  short_press-Succeeds s v = elim (Bool-cases s.is_unlocked) [
    | inr l ↦ becomes _ (some s) (ground arith) (returned s s v refl refl refl)
    | inl l ↦ elim (Bool-cases s.is_viewing_screenshot) [
      | inl h ↦
          becomes _ (some (record s { is_viewing_screenshot = false })) (ground arith)
            (returned s (record s { is_viewing_screenshot = false }) v refl refl refl)
      | inr h ↦ becomes _ (toggle w s) (ground arith) (toggle-Succeeds s v)
    ]
  ]

  pub tick-Succeeds : (s : State) → IsValid s → Succeeds (tick w s)
  unfolding tick
  tick-Succeeds s v = elim (Bool-cases (eqb_ℤ (count_down s).sleep_countdown (negsuc 0))) [
    | inr e ↦
        becomes _ (some (count_down s)) (ground arith) (returned s (count_down s) v refl refl refl)
    | inl e ↦ elim (Bool-cases (w.slept && not w.wakeup_irq)) [
      | inl b ↦
          let t : State = woken (record (lock (count_down s)) { log = sleep_commands ++ s.log }) in
          becomes _ (show w t) (ground arith) (show-Succeeds w t u (moved s t v refl refl refl))
      | inr b ↦
          let t : State = record (lock (count_down s)) {
            sleep_countdown = pos 8;
            log = sleep_commands ++ s.log;
          } in
          becomes _ (some t) (ground arith) (returned s t v refl refl refl)
    ]
  ]

  pub inactivity_tick-Succeeds : (s : State) → IsValid s → Succeeds (inactivity_tick w s)
  unfolding inactivity_tick
  inactivity_tick-Succeeds s v =
      elim (Bool-cases (eqb_ℤ (less_active s).inactivity_countdown (pos 0))) [
        | inr e ↦
            becomes _ (some (less_active s)) (ground arith)
              (returned s (less_active s) v refl refl refl)
        | inl e ↦
            let t : State = fall_asleep (less_active s) in
            becomes _ (show w t) (ground arith) (show-Succeeds w t u (moved s t v refl refl refl))
      ]
