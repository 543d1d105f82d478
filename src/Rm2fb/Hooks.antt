-- ===== src/Rm2fb/Hooks.antt =====
-- libs/rm2fb/Client.cpp: the calls of an application that the library takes over. A call that is passed on to
-- the C library gets what that returns, a parameter of the call; `fb` is the file descriptor of the shared
-- memory, if it could be made.
use r_m2_stuff_rocket.Base.{
  ℕ, String, Bool, false, not, Option, none, some, List, [], ◌∷◌, ◌++◌, ◌==◌, ◌&&◌, if◌then◌else◌,
  same_text,
}
use r_m2_stuff_rocket.Base.Int.{ℤ, pos, eqb_ℤ}
use r_m2_stuff_rocket.Rm2fb.Updates.{Update}
use r_m2_stuff_rocket.Rm2fb.Ioctl.{UpdateData, Request, IoctlResult, handle_ioctl, handle_msg_send}

-- `sendto` succeeds or not, and what `recvfrom` then gives.
pub record Exchange : Type 0 where
  pub sent : Bool
  pub received : Option Bool

unfoldable pub send_update : Exchange → Bool
send_update e = if e.sent then elim e.received [ none ↦ false | some b ↦ b ] else false

-- The empty update of `waitForInit`.
abbrev init_check : Update
init_check = record {
  y1 = pos 0;
  x1 = pos 0;
  y2 = pos 0;
  x2 = pos 0;
  flags = 0;
  waveform = 0;
  temperature_override = 0;
  extra_mode = 0;
}

pub data Hooked : Type 0 where
  open_call : String → ℤ → Hooked
  close_call : ℤ → ℤ → Hooked
  ioctl_call : ℤ → Request → ℤ → Hooked
  msgget_call : ℕ → ℤ → Hooked
  msgsnd_call : ℤ → ℕ → UpdateData → ℤ → Hooked

-- `inXochitl` and `rm2fbMqid`
pub record Process : Type 0 where
  pub in_xochitl : Bool
  pub mqid : ℤ

-- What a call returns, the updates that it sends, and `rm2fbMqid` after it.
pub record Returned : Type 0 where
  pub result : ℤ
  pub updates : List Update
  pub mqid : ℤ

abbrev rm2fb_key : ℕ
rm2fb_key = 0x2257c

abbrev passed_on : Process → ℤ → Returned
passed_on p r = record { result = r; updates = []; mqid = p.mqid }

abbrev handled : Process → IoctlResult → Returned
handled p s = record { result = pos s.result; updates = s.updates; mqid = p.mqid }

abbrev is_fb : Option ℤ → ℤ → Bool
is_fb none fd = false
is_fb (some fb) fd = eqb_ℤ fd fb

-- `none`: the shared memory could not be made, and the process ends.
unfoldable pub open_fb : Option ℤ → Process → Option Returned
open_fb none p = none
open_fb (some fb) p = some (record { result = fb; updates = init_check ∷ []; mqid = p.mqid })

module _ (fb : Option ℤ) (exchange : Update → Exchange) where
  unfoldable pub hook : Process → Hooked → Option Returned
  hook p (open_call path r) =
      if not p.in_xochitl && same_text path "/dev/fb0" then open_fb fb p else some (passed_on p r)
  hook p (close_call fd r) = some (passed_on p (if is_fb fb fd then pos 0 else r))
  hook p (ioctl_call fd request r) =
      if not p.in_xochitl && is_fb fb fd
      then some (handled p (handle_ioctl (λ u. send_update (exchange u)) request))
      else some (passed_on p r)
  hook p (msgget_call key r) = some (record {
    result = r;
    updates = [];
    mqid = if not p.in_xochitl && key == rm2fb_key then r else p.mqid;
  })
  hook p (msgsnd_call msqid mtype d r) =
      if not p.in_xochitl && eqb_ℤ msqid p.mqid
      then some (handled p (handle_msg_send (λ u. send_update (exchange u)) mtype d))
      else some (passed_on p r)

  -- The calls of a process in their order: what it sends.
  unfoldable pub run_hooks : Process → List Hooked → Option (List Update)
  run_hooks p [] = some []
  run_hooks p (c ∷ calls) = elim (hook p c) [
    | none ↦ none
    | some r ↦ elim (run_hooks (record p { mqid = r.mqid }) calls) [
      | none ↦ none
      | some us ↦ some (r.updates ++ us)
    ]
  ]
