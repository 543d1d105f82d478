-- ===== src/Rm2fb/Server.antt =====
-- libs/rm2fb/Server.cpp: the handlers of messages, and the loop of `serverMain`. The answers of the system in a
-- round are a parameter; a poll that fails, or a signal, ends the rounds.
use r_m2_stuff_rocket.Base.{
  ℕ, zero, suc, Bool, true, false, Option, none, some, List, [], ◌∷◌, ◌++◌, ◌+◌, ◌&&◌, not,
  if◌then◌else◌, inl, inr, ◌⊎◌, length,
}
use r_m2_stuff_rocket.Base.Int.{eqb_ℤ}
use r_m2_stuff_rocket.Unistdpp.WriteAll.{Reply}
use r_m2_stuff_rocket.Unistdpp.ReadAll.{ReadReply, Error, errno, eof_error, bad_message}
use r_m2_stuff_rocket.Rm2fb.Message.{
  Input, ClientMsg, input, get_update, power_button, recv_message,
}
use r_m2_stuff_rocket.Rm2fb.Updates.{
  Update, Client, close, Ran, out_of_fuel, done, and_then, whole_screen, read_fd, do_tcp_update,
}

-- What the server does, but for the traffic with its clients: `doUpdate`, the answers on the control socket
-- with their address, and the input events of the three devices.
pub data Act : Type 0 where
  do_update : Update → Act
  reply_to : Bool → ℕ → Act
  send_pen send_touch : Input → Act
  send_button : Bool → Act

pub record Devices : Type 0 where
  pub wacom : Bool
  pub touch : Bool
  pub button : Bool

-- What the system answers in a round: the message on the control socket with its address, if it is
-- readable and `recvfrom` does not fail; what `doUpdate` returns; the stream of a new client; and which
-- entries of `pollfds` are readable. `fb` is the memory of the frame buffer.
pub record Round (S : Type 0) : Type 0 where
  pub control : Option (Option (Update × ℕ))
  pub update_result : Bool
  pub accept : Option (Option S)
  pub can_read : ℕ → Bool
  pub fb : ℕ → ℕ

-- The empty message, which checks that the server runs.
abbrev pub is_check : Update → Bool
is_check msg = eqb_ℤ msg.x1 msg.x2 && eqb_ℤ msg.y1 msg.y2

abbrev pub is_eof : Error → Bool
is_eof (errno e) = false
is_eof eof_error = true
is_eof bad_message = false

abbrev pub accepted : {S : Type 0} → Option (Option S) → List (Client S)
accepted none = []
accepted (some none) = []
accepted (some (some s)) = record { stream = s; is_open = true } ∷ []

abbrev pub remove_closed : {S : Type 0} → List (Client S) → List (Client S)
remove_closed [] = []
remove_closed (c ∷ cs) = if c.is_open then c ∷ remove_closed cs else remove_closed cs

module _ {S : Type 0} (write : S → List ℕ → Reply × S) (read : S → ℕ → ReadReply × S) where
  unfoldable pub forward : (ℕ → ℕ) → Update → List (Client S) → Ran (List (Client S))
  forward fb msg [] = done []
  forward fb msg (c ∷ cs) =
      and_then (do_tcp_update write read fb msg c)
        (λ d. and_then (forward fb msg cs) (λ ds. done (d ∷ ds)))

  module _ (devs : Devices) (in_qemu has_tcp : Bool) where
    -- The `handleMsg` of each message.
    unfoldable pub handle_msg : (ℕ → ℕ) → Client S → ClientMsg → Ran (Client S × List Act)
    handle_msg fb c get_update =
        and_then (do_tcp_update write read fb whole_screen c) (λ d. done (d, []))
    handle_msg fb c (input m) = done (
      c,
      (if not m.touch && devs.wacom then send_pen m ∷ [] else [])
          ++ (if m.touch && devs.touch then send_touch m ∷ [] else []),
    )
    handle_msg fb c (power_button down) =
        done (c, if devs.button then send_button down ∷ [] else [])

    abbrev update_done : Bool → Bool
    update_done result = if in_qemu then false else result

    -- The handler of the control socket.
    unfoldable pub read_control :
        Round S → Option (Option (Update × ℕ)) → List (Client S) → Ran (List (Client S) × List Act)
    read_control r none cs = done (cs, [])
    read_control r (some none) cs = done (cs, [])
    read_control r (some (some (msg, addr))) cs =
        if is_check msg
        then done (cs, reply_to true addr ∷ [])
        else and_then (forward r.fb msg cs) (λ ds. done (
          ds,
          (if in_qemu then [] else do_update msg ∷ [])
              ++ reply_to (update_done r.update_result) addr ∷ [],
        ))

    abbrev pub received :
        (ℕ → ℕ) → Option ((Error ⊎ ClientMsg) × Client S) → Ran (Client S × List Act)
    received fb none = out_of_fuel
    received fb (some (inl e, c)) = done (if is_eof e then close c else c, [])
    received fb (some (inr msg, c)) = handle_msg fb c msg

    unfoldable pub read_client : (ℕ → ℕ) → Bool → Client S → Ran (Client S × List Act)
    read_client fb ready c =
        if ready then received fb (recv_message (read_fd write read) c) else done (c, [])

    -- The loop over the entries of `pollfds` from this index, with the number that is left.
    unfoldable pub read_clients :
        Round S → ℕ → ℕ → List (Client S) → Ran (List (Client S) × List Act)
    read_clients r idx zero cs = done (cs, [])
    read_clients r idx (suc left) [] = done ([], [])
    read_clients r idx (suc left) (c ∷ cs) =
        and_then (read_client r.fb (r.can_read idx) c)
          (λ d. and_then (read_clients r (idx + 1) left cs) (λ ds. done (d.0 ∷ ds.0, d.1 ++ ds.1)))

    -- A round of the loop; entry 1 of `pollfds` is the TCP socket.
    unfoldable pub serve : Round S → List (Client S) → Ran (List (Client S) × List Act)
    serve r cs = and_then (read_control r r.control cs) (λ d.
        if has_tcp
        then and_then (read_clients r 2 (length cs) (d.0 ++ accepted r.accept))
            (λ e. done (remove_closed e.0, d.1 ++ e.1))
        else done d)

    unfoldable pub run_server : List (Round S) → List (Client S) → Ran (List (Client S) × List Act)
    run_server [] cs = done (cs, [])
    run_server (r ∷ rs) cs =
        and_then (serve r cs) (λ d. and_then (run_server rs d.0) (λ e. done (e.0, d.1 ++ e.1)))
