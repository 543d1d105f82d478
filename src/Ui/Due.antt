-- ===== src/Ui/Due.antt =====
-- libs/rMlib/include/UI/AppContext.h, `checkTimers`: the timers that are due run.
use r_m2_stuff_rocket.Base.{
  ℕ, List, [], ◌∷◌, ◌+◌, ◌≤◌, ◌≡◌, refl, ◌∙◌, arith, All, Bool-cases, inl, inr, ltb, ltb→lt, map,
}
use r_m2_stuff_rocket.Ui.Timers.{
  Timer, emplace, TimerOp, add_timer, disable, disable_timer, apply_op, apply_ops,
}

-- The timers in the order in which they trigger.
abbrev pub IsSorted : List Timer → Type 0
IsSorted [] = Unit {0}
IsSorted (t ∷ q) = All (λ u. t.trigger_time ≤ u.trigger_time) q × IsSorted q

-- The queue begins with this timer, whatever became of its state.
pub record HasTop (t : Timer) (q : List Timer) : Type 0 where
  pub top : Timer
  pub others : List Timer
  pub queue : q ≡ top ∷ others
  same_timer : top.id ≡ t.id
  same_time : top.trigger_time ≡ t.trigger_time

apply_op-HasTop :
    (now : ℕ) (o : TimerOp) (t : Timer) (q : List Timer)
    → t.trigger_time ≤ now
    → HasTop t (apply_op now o (t ∷ q))
unfolding apply_op emplace
apply_op-HasTop now (add_timer i d c r) t q h = elim (Bool-cases (ltb (now + d) t.trigger_time)) [
  | inl e ↦ absurd (omega (arith, ltb→lt (now + d) t.trigger_time e))
  | inr e ↦ record {
    top = t;
    others = apply_op now (add_timer i d c r) q;
    queue = rw e refl;
    same_timer = refl;
    same_time = refl;
  }
]
apply_op-HasTop now (disable i) t q h = record {
  top = disable_timer i t;
  others = map (disable_timer i) q;
  queue = refl;
  same_timer = ground arith;
  same_time = ground arith;
}

-- What a callback does with timers while its own timer, which is due, is the first of the queue leaves
-- that timer the first: the one that `checkTimers` then takes off the queue is the one that it
-- called, even when the callback adds timers without delay or disables any.
pub apply_ops-HasTop :
    (now : ℕ) (os : List TimerOp) (t : Timer) (q : List Timer)
    → t.trigger_time ≤ now
    → HasTop t (apply_ops now os (t ∷ q))
unfolding apply_ops
apply_ops-HasTop now [] t q h = record {
  top = t;
  others = q;
  queue = refl;
  same_timer = refl;
  same_time = refl;
}
apply_ops-HasTop now (o ∷ os) t q h =
    let k = apply_op-HasTop now o t q h in
    let r = apply_ops-HasTop now os k.top k.others (rw (k.same_time) h) in
    record {
      top = r.top;
      others = r.others;
      queue = rw (k.queue) r.queue;
      same_timer = r.same_timer ∙ k.same_timer;
      same_time = r.same_time ∙ k.same_time;
    }
