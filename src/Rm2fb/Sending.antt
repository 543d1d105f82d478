-- ===== src/Rm2fb/Sending.antt =====
-- libs/rm2fb: the updates of an application, from its `ioctl` to the server.
use r_m2_stuff_rocket.Base.{
  ℕ, Bool, true, false, none, some, List, [], ◌∷◌, ◌++◌, ◌+◌, ◌-◌, ◌≤◌, ◌<◌, ◌==◌, ◌&&◌,
  if◌then◌else◌,
}
use r_m2_stuff_rocket.Base.Int.{ℤ, pos}
use Prim.Native.Nat.{bit_or}
use r_m2_stuff_rocket.Rm2fb.Updates.{Update}
use r_m2_stuff_rocket.Rm2fb.Server.{Act, do_update, reply_to, Round}
use r_m2_stuff_rocket.Rm2fb.Ioctl.{UpdateData, send_update_request, flags_of, params_of}
use r_m2_stuff_rocket.Rm2fb.Hooks.{Exchange, Hooked, ioctl_call}

-- The region has a size and lies on the screen.
abbrev IsOnScreen : UpdateData → Type 0
IsOnScreen d =
    (0 < d.update_region.width)
    × (0 < d.update_region.height)
    × (d.update_region.left + d.update_region.width ≤ 1404)
    × (d.update_region.top + d.update_region.height ≤ 1872)

-- The update with the corners of the region.
abbrev asked : UpdateData → Update
asked d = record {
  y1 = pos d.update_region.top;
  x1 = pos d.update_region.left;
  y2 = pos (d.update_region.top + d.update_region.height - 1);
  x2 = pos (d.update_region.left + d.update_region.width - 1);
  flags = flags_of d;
  waveform = bit_or d.waveform_mode 0xf000;
  temperature_override = 0;
  extra_mode = 0;
}

-- The calls of an application on its frame buffer, and the messages that the server finds, a round each.
abbrev pub update_call : ℤ → UpdateData → Hooked
update_call fd d = ioctl_call fd (send_update_request d) (pos 0)

abbrev pub round_of : {S : Type 0} → (Update → Bool) → ℕ → Update → Round S
round_of result addr u = record {
  control = some (some (u, addr));
  update_result = result u;
  accept = none;
  can_read = λ i. true;
  fb = λ i. 0;
}

-- What a call asks for: a region of one pixel is taken for the message that checks the server.
abbrev pub expected : Bool → (Update → Bool) → ℕ → List UpdateData → List Act
expected in_qemu result addr [] = []
expected in_qemu result addr (d ∷ ds) =
    (if d.update_region.width == 1 && d.update_region.height == 1
      then reply_to true addr ∷ []
      else if in_qemu
      then reply_to false addr ∷ []
      else do_update (asked d) ∷ reply_to (result (asked d)) addr ∷ [])
    ++ expected in_qemu result addr ds

-- The messages that reach the server: those of the updates whose `sendto` succeeds, in their order, as on a
-- datagram socket of the device itself.
unfoldable pub delivered : (Update → Exchange) → List Update → List Update
delivered exchange [] = []
delivered exchange (u ∷ us) =
    let rest = delivered exchange us in if (exchange u).sent then u ∷ rest else rest

-- The calls whose `sendto` succeeds.
unfoldable pub sent_calls : (Update → Exchange) → List UpdateData → List UpdateData
sent_calls exchange [] = []
sent_calls exchange (d ∷ ds) =
    let rest = sent_calls exchange ds in if (exchange (params_of d)).sent then d ∷ rest else rest
