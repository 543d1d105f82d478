-- ===== src/Rm2fb/Message.antt =====
-- libs/rm2fb/Message.h: the messages of a client, as they are sent and received. An `int` is the
-- word below 2^32 that stands for it, lowest byte first; `pad` gives the bytes that the language
-- leaves open, those between the members of a struct and that of an empty one.
use r_m2_stuff_rocket.Base.{
  ℕ, Bool, true, false, Option, none, some, List, [], ◌∷◌, ◌++◌, ◌+◌, ◌*◌, ◌/◌, ◌%◌, ◌==◌, not,
  drop, get_or, inl, inr, ◌⊎◌, if◌then◌else◌,
}
use r_m2_stuff_rocket.Unistdpp.WriteAll.{Reply, Outcome, write_all}
use r_m2_stuff_rocket.Unistdpp.ReadAll.{ReadReply, Error, bad_message, read_exactly}

-- `action` is the number of `Move`, `Down` or `Up`.
pub record Input : Type 0 where
  pub x : ℕ
  pub y : ℕ
  pub action : ℕ
  pub touch : Bool

pub data ClientMsg : Type 0 where
  input : Input → ClientMsg
  get_update : ClientMsg
  power_button : Bool → ClientMsg

abbrev pub word : ℕ → List ℕ
word n = n % 256 ∷ n / 256 % 256 ∷ n / 65536 % 256 ∷ n / 16777216 % 256 ∷ []

abbrev pub to_word : List ℕ → ℕ
to_word bs = get_or bs 0 0 + get_or bs 1 0 * 256 + get_or bs 2 0 * 65536 + get_or bs 3 0 * 16777216

abbrev pub flag : Bool → ℕ
flag false = 0
flag true = 1

abbrev pub to_flag : List ℕ → Bool
to_flag bs = not (get_or bs 0 0 == 0)

abbrev pub index : ClientMsg → ℕ
index (input m) = 0
index get_update = 1
index (power_button b) = 2

-- The bytes of the alternative in memory.
abbrev pub bytes : (ℕ → ℕ) → ClientMsg → List ℕ
bytes pad (input m) =
    word m.x ++ (word m.y ++ (word m.action ++ flag m.touch ∷ pad 0 ∷ pad 1 ∷ pad 2 ∷ []))
bytes pad get_update = pad 0 ∷ []
bytes pad (power_button b) = flag b ∷ []

abbrev pub size_of : ClientMsg → ℕ
size_of (input m) = 16
size_of get_update = 1
size_of (power_button b) = 1

abbrev pub to_input : List ℕ → ClientMsg
to_input bs = input (record {
  x = to_word bs;
  y = to_word (drop 4 bs);
  action = to_word (drop 8 bs);
  touch = to_flag (drop 12 bs);
})

module _ {S : Type 0} (write : S → List ℕ → Reply × S) (pad : ℕ → ℕ) where
  abbrev pub send_body : ClientMsg → Outcome S → Option (Outcome S)
  send_body msg o = elim o.error [
    | some e ↦ some o
    | none ↦ write_all write (size_of msg) o.state (bytes pad msg) o.sent
  ]

  unfoldable pub send_message : S → ClientMsg → Option (Outcome S)
  send_message s msg = elim (write_all write 4 s (word (index msg)) []) [
    | none ↦ none
    | some o ↦ send_body msg o
  ]

module _ {S : Type 0} (read : S → ℕ → ReadReply × S) where
  abbrev pub converted : {A B : Type 0} → (A → B) → (Error ⊎ A) × S → (Error ⊎ B) × S
  converted f (inl e, s) = (inl e, s)
  converted f (inr a, s) = (inr (f a), s)

  -- `readAll<T>` of an alternative, by its size and the meaning of its bytes.
  unfoldable pub read_as : (List ℕ → ClientMsg) → ℕ → S → Option ((Error ⊎ ClientMsg) × S)
  read_as f size s = elim (read_exactly read s size) [ none ↦ none | some r ↦ some (converted f r) ]

  -- `details::read`
  abbrev read_message : ℕ → S → Option ((Error ⊎ ClientMsg) × S)
  read_message idx s =
      if idx == 0
      then read_as to_input 16 s
      else if idx == 1
      then read_as (λ bs. get_update) 1 s
      else if idx == 2
      then read_as (λ bs. power_button (to_flag bs)) 1 s
      else some (inl bad_message, s)

  abbrev pub after_index : (Error ⊎ List ℕ) × S → Option ((Error ⊎ ClientMsg) × S)
  after_index (inl e, s) = some (inl e, s)
  after_index (inr bs, s) = read_message (to_word bs) s

  unfoldable pub recv_message : S → Option ((Error ⊎ ClientMsg) × S)
  recv_message s = elim (read_exactly read s 4) [ none ↦ none | some r ↦ after_index r ]
