-- ===== src/Rm2fb/Receiving.antt =====
-- libs/rm2fb/Message.h: `recvMessage` returns, whatever it reads.
use r_m2_stuff_rocket.Base.{ℕ, some, List, [], ◌≡◌, refl, arith, inl, inr, ◌⊎◌, Bool-cases, ◌==◌}
use r_m2_stuff_rocket.Unistdpp.ReadAll.{
  ReadReply, Error, IsStream, exactly, read_exactly, read_all-Fetches,
}
use r_m2_stuff_rocket.Rm2fb.Message.{
  ClientMsg, get_update, power_button, to_word, to_input, to_flag, converted, read_as, after_index,
  recv_message,
}

module _ {S : Type 0} (read : S → ℕ → ReadReply × S) (content : S → List ℕ)
    (law : IsStream read content) where
  read_exactly-some :
      (s : S) (size : ℕ) → (r : (Error ⊎ List ℕ) × S) × (read_exactly read s size ≡ some r)
  unfolding read_exactly
  read_exactly-some s size =
      let f = read_all-Fetches read content law size s size [] (omega arith) in
      (exactly read size f.outcome, rw (f.returns, read_exactly) refl)

  read_as-some :
      (f : List ℕ → ClientMsg) (size : ℕ) (s : S)
      → (r : (Error ⊎ ClientMsg) × S) × (read_as read f size s ≡ some r)
  unfolding read_as
  read_as-some f size s =
      let (o, q) = read_exactly-some s size in (converted read f o, rw (q, read_as) refl)

  after_index-some :
      (o : (Error ⊎ List ℕ) × S) → (r : (Error ⊎ ClientMsg) × S) × (after_index read o ≡ some r)
  after_index-some (inl e, s) = ((inl e, s), refl)
  after_index-some (inr bs, s) = elim (Bool-cases (to_word bs == 0)) [
    | inl e ↦ rw e (read_as-some to_input 16 s)
    | inr e ↦ elim (Bool-cases (to_word bs == 1)) [
      | inl f ↦ rw (e, f) (read_as-some (λ bs. get_update) 1 s)
      | inr f ↦ elim (Bool-cases (to_word bs == 2)) [
        | inl g ↦ rw (e, f, g) (read_as-some (λ bs. power_button (to_flag bs)) 1 s)
        | inr g ↦ rw (e, f, g) (_, refl)
      ]
    ]
  ]

  pub recv_message-some : (s : S) → (r : (Error ⊎ ClientMsg) × S) × (recv_message read s ≡ some r)
  unfolding recv_message
  recv_message-some s =
      let (o, q) = read_exactly-some s 4 in
      let (r, e) = after_index-some o in (r, rw (q, recv_message) e)
