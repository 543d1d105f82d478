-- ===== src/Rm2fb/Ioctl.antt =====
-- libs/rm2fb/IOCTL.cpp: what an application asks of the frame buffer, turned into updates for the server. A
-- `__u32` and the bits of an `int` are words below 2^32; the constants are those of the kernel's mxcfb.h.
use r_m2_stuff_rocket.Base.{
  ℕ, Bool, List, [], ◌∷◌, ◌+◌, ◌-◌, ◌*◌, ◌%◌, ◌^◌, ◌==◌, ◌&&◌, ◌||◌, ltb, if◌then◌else◌,
}
use Prim.Native.Nat.{bit_or}
use r_m2_stuff_rocket.Base.Int.{ℤ, pos, negsuc}
use r_m2_stuff_rocket.Rm2fb.Message.{flag}
use r_m2_stuff_rocket.Rm2fb.Updates.{Update, fb_width, fb_height}

-- `mxcfb_rect`
pub record Region : Type 0 where
  pub top : ℕ
  pub left : ℕ
  pub width : ℕ
  pub height : ℕ

-- `mxcfb_update_data`, as far as it is read.
pub record UpdateData : Type 0 where
  pub update_region : Region
  pub waveform_mode : ℕ
  pub update_mode : ℕ
  pub flags : ℕ

pub data Request : Type 0 where
  send_update_request : UpdateData → Request
  set_auto_update_mode wait_for_update_complete : Request
  get_vscreeninfo put_vscreeninfo get_fscreeninfo : Request
  other_request : ℕ → Request

-- The members of `fb_var_screeninfo` that are set, with the offset and the length of each color.
pub record VarInfo : Type 0 where
  xres : ℕ
  yres : ℕ
  grayscale : ℕ
  bits_per_pixel : ℕ
  xres_virtual : ℕ
  yres_virtual : ℕ
  red : ℕ × ℕ
  green : ℕ × ℕ
  blue : ℕ × ℕ

pub data Info : Type 0 where
  no_info : Info
  var_info : VarInfo → Info
  -- `smem_len`, `smem_start` and `line_length`
  fix_info : ℕ → ℕ → ℕ → Info

-- The value returned, the updates sent, and what is stored through the pointer.
pub record IoctlResult : Type 0 where
  pub result : ℕ
  pub updates : List Update
  pub info : Info

abbrev ioctl_result : ℕ → List Update → IoctlResult
ioctl_result n us = record { result = n; updates = us; info = no_info }

-- A word as an `int`.
abbrev pub to_int : ℕ → ℤ
to_int n = if ltb n (2 ^ 31) then pos n else negsuc (2 ^ 32 - 1 - n)

-- `start + length - 1`
abbrev pub last_of : ℕ → ℕ → ℕ
last_of start length = (start + length + (2 ^ 32 - 1)) % 2 ^ 32

abbrev full_mode : ℕ
full_mode = 1

abbrev partial_mode : ℕ
partial_mode = 0

abbrev rm2_mode : ℕ
rm2_mode = 0x42

abbrev is_raw : UpdateData → Bool
is_raw d = d.update_mode == rm2_mode

-- The flags of the server, for waveforms INIT, DU, GC16 and GL16 from 0 to 3.
unfoldable pub sync_flags : UpdateData → ℕ → ℕ
sync_flags d f =
    if d.waveform_mode == 0 && d.update_mode == full_mode
    then bit_or f 2
    else if d.update_region.left == 0
        && ltb 1800 d.update_region.top
        && (d.waveform_mode == 3 || d.waveform_mode == 2)
        && d.update_mode == full_mode
    then bit_or f 2
    else f

unfoldable pub draw_flags : UpdateData → ℕ → ℕ
draw_flags d f = if d.waveform_mode == 1 && d.update_mode == partial_mode then bit_or f 4 else f

abbrev pub flags_of : UpdateData → ℕ
flags_of d =
    if is_raw d
    then d.flags
    else draw_flags d (sync_flags d (if d.update_mode == full_mode then 1 else 0))

unfoldable pub params_of : UpdateData → Update
params_of d = record {
  y1 = to_int d.update_region.top;
  x1 = to_int d.update_region.left;
  y2 = to_int (last_of d.update_region.top d.update_region.height);
  x2 = to_int (last_of d.update_region.left d.update_region.width);
  flags = flags_of d;
  waveform = bit_or d.waveform_mode 0xf000;
  temperature_override = 0;
  extra_mode = 0;
}

-- `send` is `sendUpdate`.
module _ (send : Update → Bool) where
  unfoldable pub handle_update : UpdateData → IoctlResult
  handle_update d =
      ioctl_result (if is_raw d then flag (send (params_of d)) else 0) (params_of d ∷ [])

  unfoldable pub handle_ioctl : Request → IoctlResult
  handle_ioctl (send_update_request d) = handle_update d
  handle_ioctl set_auto_update_mode = ioctl_result 0 []
  handle_ioctl wait_for_update_complete = ioctl_result 0 []
  handle_ioctl get_vscreeninfo = record {
    result = 0;
    updates = [];
    info = var_info (record {
      xres = fb_width;
      yres = fb_height;
      grayscale = 0;
      bits_per_pixel = 16;
      xres_virtual = fb_width;
      yres_virtual = fb_height;
      red = (11, 5);
      green = (5, 6);
      blue = (0, 5);
    });
  }
  handle_ioctl put_vscreeninfo = ioctl_result 0 []
  handle_ioctl get_fscreeninfo = record {
    result = 0;
    updates = [];
    info = fix_info (fb_width * fb_height * 2) 0x1000 (fb_width * 2);
  }
  handle_ioctl (other_request n) = ioctl_result 0 []

  -- `handleMsgSend`, of a message with its type.
  unfoldable pub handle_msg_send : ℕ → UpdateData → IoctlResult
  handle_msg_send mtype d =
      if mtype == 2 then record (handle_update d) { result = 0 } else ioctl_result 0 []
