-- ===== src/Rm2fb/Examples.antt =====
-- libs/rm2fb: a touch is sent through a pipe that takes three bytes at a time, and is read by twos.
use r_m2_stuff_rocket.Base.Int.{pos}
use r_m2_stuff_rocket.Base.{
  ℕ, true, false, some, List, length, min, none, [], ◌∷◌, ◌++◌, refl, arith,
}
use r_m2_stuff_rocket.Unistdpp.WriteAll.{Reply, wrote, Outcome, Delivers, write_all}
use r_m2_stuff_rocket.Unistdpp.ReadAll.{Gives}
use r_m2_stuff_rocket.Unistdpp.Pipes.{
  three_bytes, three_bytes-Progresses, by_twos, by_twos-IsStream,
}
use r_m2_stuff_rocket.Rm2fb.Message.{ClientMsg, input, send_message, recv_message}
use r_m2_stuff_rocket.Rm2fb.RoundTrip.{encoding, send_message-Delivers, recv_message-send_message}
use r_m2_stuff_rocket.Rm2fb.Updates.{Update}
use r_m2_stuff_rocket.Rm2fb.Server.{Round, Devices}
use r_m2_stuff_rocket.Rm2fb.Ioctl.{UpdateData}

abbrev touch_message : ClientMsg
touch_message = input (record { x = 700; y = 70000; action = 1; touch = true })

abbrev zero_pad : ℕ → ℕ
zero_pad i = 0

send_message-Delivers_example :
    Delivers []
      (encoding zero_pad touch_message)
      (send_message three_bytes zero_pad 0 touch_message)
send_message-Delivers_example =
    send_message-Delivers three_bytes zero_pad three_bytes-Progresses 0 touch_message

abbrev sent_touch : Outcome ℕ
sent_touch = record { error = none; sent = encoding zero_pad touch_message; state = 8 }

recv_message-send_message_example :
    Gives by_twos
      (λ s. s)
      (encoding zero_pad touch_message ++ 5 ∷ [])
      touch_message
      (5 ∷ [])
      (recv_message by_twos (encoding zero_pad touch_message ++ 5 ∷ []))
unfolding send_message write_all
recv_message-send_message_example =
    recv_message-send_message three_bytes by_twos (λ s. s) zero_pad three_bytes-Progresses
      by_twos-IsStream 0 (encoding zero_pad touch_message ++ 5 ∷ []) touch_message (5 ∷ [])
      sent_touch (omega arith, omega arith, omega arith) refl refl refl

-- A socket of which three bytes at a time are taken.
abbrev takes_three : List ℕ → List ℕ → Reply × List ℕ
takes_three s buf = (wrote (min 3 (length buf)), s)

abbrev two_pixels : Update
two_pixels = record {
  y1 = pos 5;
  x1 = pos 7;
  y2 = pos 5;
  x2 = pos 8;
  flags = 0;
  waveform = 2;
  temperature_override = 0;
  extra_mode = 0;
}

-- A client comes, an update is forwarded to it, and it sends one byte and no more.
abbrev rounds : List (Round (List ℕ))
rounds =
    record {
      control = none;
      update_result = false;
      accept = some (some (2 ∷ []));
      can_read = λ i. false;
      fb = λ i. 0xffff;
    }
    ∷ record {
      control = some (some (two_pixels, 3));
      update_result = true;
      accept = none;
      can_read = λ i. true;
      fb = λ i. 0xffff;
    }
    ∷ []

abbrev all_devices : Devices
all_devices = record { wacom = true; touch = true; button = true }

-- A line of text, and one pixel.
abbrev drawn_regions : List UpdateData
drawn_regions =
    record {
      update_region = record { top = 40; left = 0; width = 1404; height = 48 };
      waveform_mode = 1;
      update_mode = 0;
      flags = 0;
    }
    ∷ record {
      update_region = record { top = 1871; left = 1403; width = 1; height = 1 };
      waveform_mode = 2;
      update_mode = 1;
      flags = 0;
    }
    ∷ []
