-- ===== src/Ui/Timers.antt =====
-- libs/rMlib/include/UI/Timer.h and AppContext.h: the timers of an application. Times are numbers of
-- microseconds. A timer has the number `id`, which its handle shares; the queue is the list of
-- its timers, the next one to trigger first. What a callback does with timers is a parameter.
use r_m2_stuff_rocket.Base.{
  ℕ, zero, suc, Bool, true, false, Option, none, some, List, [], ◌∷◌, ◌+◌, ◌-◌, ◌==◌, ltb, leb,
  if◌then◌else◌, map,
}

pub record Timer : Type 0 where
  pub id : ℕ
  pub repeat : Option ℕ
  pub trigger_time : ℕ
  pub callback : ℕ
  pub enabled : Bool

-- `timers.emplace`: before the first timer that triggers later, as `TimerCmp` says.
unfoldable pub emplace : Timer → List Timer → List Timer
emplace t [] = t ∷ []
emplace t (u ∷ us) = if ltb t.trigger_time u.trigger_time then t ∷ u ∷ us else u ∷ emplace t us

-- What a callback may do: `addTimer`, and `disable` on the handle of a timer.
pub data TimerOp : Type 0 where
  add_timer : ℕ → ℕ → ℕ → Option ℕ → TimerOp
  disable : ℕ → TimerOp

abbrev pub disable_timer : ℕ → Timer → Timer
disable_timer i t = if t.id == i then record t { enabled = false; repeat = none } else t

-- `addTimer` with the number, the duration, the callback and the repeat, at this time.
unfoldable pub apply_op : ℕ → TimerOp → List Timer → List Timer
apply_op now (add_timer i duration c r) q =
    emplace
      (record { id = i; repeat = r; trigger_time = now + duration; callback = c; enabled = true }) q
apply_op now (disable i) q = map (disable_timer i) q

unfoldable pub apply_ops : ℕ → List TimerOp → List Timer → List Timer
apply_ops now [] q = q
apply_ops now (o ∷ os) q = apply_ops now os (apply_op now o q)

-- `getNextDuration`: a difference below zero is taken to be zero.
unfoldable get_next_duration : ℕ → List Timer → Option ℕ
get_next_duration now [] = none
get_next_duration now (t ∷ q) = some (t.trigger_time - now)

-- `timers.pop`, then `reset` and `emplace` when it still repeats; `top` is shared, hence the state
-- of the timer that the queue has.
abbrev pub requeue : ℕ → Timer → List Timer → List Timer
requeue now t q = elim t.repeat [
  | none ↦ q
  | some r ↦ emplace (record t { trigger_time = now + r }) q
]

abbrev pop_top : ℕ → List Timer → List Timer
pop_top now [] = []
pop_top now (t ∷ q) = requeue now t q

-- What is left in the queue, and the callbacks that ran, in order.
abbrev pub fires : ℕ → Option (List Timer × List ℕ) → Option (List Timer × List ℕ)
fires c none = none
fires c (some (q, cs)) = some (q, c ∷ cs)

-- `checkTimers`: `clock n` is the time at the n-th moment, and `ops c n` what the callback does with
-- timers when it is called at that moment, all of it at the next one.
module _ (clock : ℕ → ℕ) (ops : ℕ → ℕ → List TimerOp) where
  -- The timers after a timer was found to be disabled, or was called.
  abbrev pub after_check : ℕ → Timer → List Timer → List Timer
  after_check n t q =
      if t.enabled
      then pop_top (clock (n + 2)) (apply_ops (clock (n + 1)) (ops t.callback n) (t ∷ q))
      else requeue (clock (n + 2)) t q

  unfoldable pub check_timers : ℕ → ℕ → List Timer → Option (List Timer × List ℕ)
  check_timers fuel n [] = some ([], [])
  check_timers zero n (t ∷ q) = none
  check_timers (suc fuel) n (t ∷ q) =
      let rest = check_timers fuel (n + 3) (after_check n t q) in
      if t.enabled
      then if leb t.trigger_time (clock n) then fires t.callback rest else some (t ∷ q, [])
      else rest
