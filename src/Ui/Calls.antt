-- ===== src/Ui/Calls.antt =====
-- libs/rMlib/include/UI/AppContext.h, `checkTimers`: it ends, and every timer that is due is called.
use r_m2_stuff_rocket.Base.{ℕ, true, Option, some, List, ◌≤◌, ◌<◌, ◌≡◌, All}
use r_m2_stuff_rocket.Ui.Timers.{Timer}
use r_m2_stuff_rocket.Ui.Requeue.{Ran}

-- What is left triggers after the call began, and each timer that was then due has been called.
pub record Calls (now : ℕ) (q : List Timer) (result : Option (List Timer × List ℕ)) : Type 0 where
  pub queue : List Timer
  pub called : List ℕ
  pub returns : result ≡ some (queue, called)
  all_called : All (λ t. t.enabled ≡ true → t.trigger_time ≤ now → Ran t.callback called) q
  pub later : All (λ t. now < t.trigger_time) queue
