-- ===== src/Rm2fb/Updates.antt =====
-- libs/rm2fb/Server.cpp: the sockets of the TCP clients, and `doTCPUpdate`, which sends them an update with its
-- pixels. The system calls on the stream of a client are parameters. Coordinates are integers; the other members
-- of an update are the words that stand for them.
use r_m2_stuff_rocket.Base.{
  ℕ, zero, suc, Bool, false, Option, none, some, List, [], ◌∷◌, ◌++◌, ◌+◌, ◌-◌, ◌*◌, ◌/◌, ◌%◌, ◌^◌,
  ◌==◌, ◌&&◌, not, if◌then◌else◌, length, replicate,
}
use r_m2_stuff_rocket.Base.Int.{ℤ, pos, negsuc, pos_part, ◌+ℤ◌, ◌-ℤ◌, ltb_ℤ}
use r_m2_stuff_rocket.Unistdpp.WriteAll.{Reply, failed, Outcome, write_all}
use r_m2_stuff_rocket.Unistdpp.ReadAll.{ReadReply, read_failed}
use r_m2_stuff_rocket.Rm2fb.Message.{word}

-- `UpdateParams`
pub record Update : Type 0 where
  pub y1 : ℤ
  pub x1 : ℤ
  pub y2 : ℤ
  pub x2 : ℤ
  pub flags : ℕ
  pub waveform : ℕ
  pub temperature_override : ℕ
  pub extra_mode : ℕ

-- A client and its socket, which is `invalid_fd` when it is not open.
pub record Client (S : Type 0) : Type 0 where
  pub stream : S
  pub is_open : Bool

abbrev pub close : {S : Type 0} → Client S → Client S
close c = record c { is_open = false }

-- A call that does not return or the end of the fuel, an exception or an access outside of the frame buffer, the
-- end by SIGPIPE, or a result.
pub data Ran (A : Type 0) : Type 0 where
  out_of_fuel : Ran A
  crashed : Ran A
  killed : Ran A
  done : A → Ran A

abbrev pub and_then : {A B : Type 0} → Ran A → (A → Ran B) → Ran B
and_then out_of_fuel k = out_of_fuel
and_then crashed k = crashed
and_then killed k = killed
and_then (done a) k = k a

abbrev pub fb_width : ℕ
fb_width = 1404

abbrev pub fb_height : ℕ
fb_height = 1872

abbrev pub width : Update → ℤ
width msg = msg.x2 -ℤ msg.x1 +ℤ pos 1

abbrev pub height : Update → ℤ
height msg = msg.y2 -ℤ msg.y1 +ℤ pos 1

abbrev pub in_fb : Update → Bool
in_fb msg =
    not (ltb_ℤ msg.x1 (pos 0))
    && not (ltb_ℤ msg.y1 (pos 0))
    && ltb_ℤ msg.x2 (pos fb_width)
    && ltb_ℤ msg.y2 (pos fb_height)

-- The memory of an `int`, of a pixel and of an update.
abbrev int_bytes : ℤ → List ℕ
int_bytes (pos n) = word (n % 2 ^ 32)
int_bytes (negsuc n) = word (2 ^ 32 - 1 - n % 2 ^ 32)

abbrev pixel_bytes : ℕ → List ℕ
pixel_bytes p = p % 256 ∷ p / 256 % 256 ∷ []

abbrev pub update_bytes : Update → List ℕ
update_bytes msg =
    int_bytes msg.y1
    ++ (int_bytes msg.x1
        ++ (int_bytes msg.y2
            ++ (int_bytes msg.x2
                ++ (word msg.flags
                    ++ (word msg.waveform
                        ++ (word msg.temperature_override ++ word msg.extra_mode))))))

-- The `memcpy` of a row, and of the rows that are left.
unfoldable pub copy_row : (ℕ → ℕ) → ℕ → ℕ → List ℕ
copy_row fb at_ zero = []
copy_row fb at_ (suc n) = pixel_bytes (fb at_) ++ copy_row fb (at_ + 1) n

unfoldable pub copy_rows : (ℕ → ℕ) → Update → ℕ → ℕ → ℕ → List ℕ
copy_rows fb msg w row zero = []
copy_rows fb msg w row (suc left) =
    copy_row fb ((row + pos_part msg.y1) * fb_width + pos_part msg.x1) w
    ++ copy_rows fb msg w (row + 1) left

-- `buffer`: a negative size throws; with two negative sides the pixels stay zero.
unfoldable pub tcp_pixels : (ℕ → ℕ) → Update → ℤ → ℤ → Option (List ℕ)
tcp_pixels fb msg (pos w) (pos h) = if in_fb msg then some (copy_rows fb msg w 0 h) else none
tcp_pixels fb msg (pos w) (negsuc h) = if w == 0 then some [] else none
tcp_pixels fb msg (negsuc w) (pos h) = if h == 0 then some [] else none
tcp_pixels fb msg (negsuc w) (negsuc h) = some (replicate ((w + 1) * (h + 1) * 2) 0)

-- What `GetUpdate` is answered with.
abbrev pub whole_screen : Update
whole_screen = record {
  y1 = pos 0;
  x1 = pos 0;
  y2 = pos fb_height -ℤ pos 1;
  x2 = pos fb_width -ℤ pos 1;
  flags = 0;
  waveform = 0;
  temperature_override = 0;
  extra_mode = 0;
}

-- `EBADF`
abbrev bad_fd : ℕ
bad_fd = 9

-- `EPIPE`
abbrev pub broken_pipe : ℕ
broken_pipe = 32

-- After a write that failed: with EPIPE the signal SIGPIPE was raised, which the server neither handles nor
-- ignores.
abbrev pub write_error : {S : Type 0} → ℕ → Client S → Ran (Client S)
write_error e c = if e == broken_pipe then killed else done (close c)

module _ {S : Type 0} (write : S → List ℕ → Reply × S) (read : S → ℕ → ReadReply × S) where
  -- The system calls on the file descriptor of a client.
  abbrev pub write_fd : Client S → List ℕ → Reply × Client S
  write_fd c buf =
      if c.is_open
      then ((write c.stream buf).0, record c { stream = (write c.stream buf).1 })
      else (failed bad_fd, c)

  abbrev pub read_fd : Client S → ℕ → ReadReply × Client S
  read_fd c n =
      if c.is_open
      then ((read c.stream n).0, record c { stream = (read c.stream n).1 })
      else (read_failed bad_fd, c)

  abbrev pub close_failed : Outcome (Client S) → Ran (Client S)
  close_failed o = elim o.error [ some e ↦ write_error e o.state | none ↦ done o.state ]

  abbrev pub send_pixels : Option (List ℕ) → Client S → Ran (Client S)
  send_pixels none c = crashed
  send_pixels (some bs) c = elim (write_all write_fd (length bs) c bs []) [
    | none ↦ out_of_fuel
    | some o ↦ close_failed o
  ]

  abbrev pub after_params : (ℕ → ℕ) → Update → Outcome (Client S) → Ran (Client S)
  after_params fb msg o = elim o.error [
    | some e ↦ write_error e o.state
    | none ↦ send_pixels (tcp_pixels fb msg (width msg) (height msg)) o.state
  ]

  -- `doTCPUpdate`
  unfoldable pub do_tcp_update : (ℕ → ℕ) → Update → Client S → Ran (Client S)
  do_tcp_update fb msg c =
      elim (write_all write_fd (length (update_bytes msg)) c (update_bytes msg) []) [
        | none ↦ out_of_fuel
        | some o ↦ after_params fb msg o
      ]
