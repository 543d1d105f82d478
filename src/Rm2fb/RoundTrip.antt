-- ===== src/Rm2fb/RoundTrip.antt =====
-- libs/rm2fb/Message.h: what a client sends is what the server receives.
use r_m2_stuff_rocket.Base.{
  ℕ, Bool, true, false, Option, ◌⊎◌, none, some, List, [], ◌∷◌, ◌++◌, ◌<◌, ◌^◌, ◌≡◌, refl, sym, ap,
  ◌∙◌, arith, length, Option-cases, inl, inr, append-append, append-nil,
}
use r_m2_stuff_rocket.Unistdpp.WriteAll.{
  Reply, Outcome, Progresses, Delivers, write_all, write_all-Delivers,
}
use r_m2_stuff_rocket.Unistdpp.ReadAll.{
  ReadReply, Error, IsStream, Gives, Leads, Leads-Fails, Leads-trans, read_exactly-Gives,
}
use r_m2_stuff_rocket.Rm2fb.Message.{
  ClientMsg, input, get_update, power_button, word, to_word, flag, to_flag, index, bytes, size_of,
  to_input, send_message, send_body, read_as, after_index, recv_message,
}

abbrev pub encoding : (ℕ → ℕ) → ClientMsg → List ℕ
encoding pad msg = word (index msg) ++ bytes pad msg

-- The members of an input are words.
abbrev pub IsValid : ClientMsg → Type 0
IsValid (input m) = (m.x < 2 ^ 32) × (m.y < 2 ^ 32) × (m.action < 2 ^ 32)
IsValid get_update = Unit {0}
IsValid (power_button b) = Unit {0}

length-bytes : (pad : ℕ → ℕ) (msg : ClientMsg) → length (bytes pad msg) ≡ size_of msg
length-bytes pad (input m) = refl
length-bytes pad get_update = refl
length-bytes pad (power_button b) = refl

to_word-word : (n : ℕ) → n < 2 ^ 32 → to_word (word n) ≡ n
to_word-word n h = omega arith

to_flag-flag : (b : Bool) (bs : List ℕ) → to_flag (flag b ∷ bs) ≡ b
to_flag-flag false bs = refl
to_flag-flag true bs = refl

module _ {S : Type 0} (write : S → List ℕ → Reply × S) (pad : ℕ → ℕ) (msg : ClientMsg) where
  send_body-none :
      (o : Outcome S)
      → o.error ≡ none
      → send_body write pad msg o ≡ write_all write (size_of msg) o.state (bytes pad msg) o.sent
  send_body-none o q = rw q refl

  send_body-some : (o : Outcome S) (e : ℕ) → o.error ≡ some e → send_body write pad msg o ≡ some o
  send_body-some o e q = rw q refl

-- When each call of `write` that does not fail takes some of what it is given, `sendMessage` returns:
-- a first part of the index of the message and its bytes has then been sent, and all of it if no
-- error is returned.
pub send_message-Delivers :
    {S : Type 0} (write : S → List ℕ → Reply × S) (pad : ℕ → ℕ)
    → ((s : S) (b : ℕ) (bs : List ℕ) → Progresses (write s (b ∷ bs)).0 (b ∷ bs))
    → (s : S) (msg : ClientMsg) → Delivers [] (encoding pad msg) (send_message write pad s msg)
unfolding send_message
send_message-Delivers write pad p s msg =
    let d = write_all-Delivers write p 4 s (word (index msg)) [] (omega arith) in
    elim (Option-cases d.outcome.error) [
      | inl q ↦
          let e =
            write_all-Delivers write p (size_of msg) d.outcome.state (bytes pad msg) d.outcome.sent
              (omega (arith, length-bytes pad msg)) in
          record {
            outcome = e.outcome;
            returns =
                rw (d.returns, send_message) (send_body-none write pad msg d.outcome q ∙ e.returns);
            unsent = e.unsent;
            first_part =
                e.first_part
                ∙ ap (λ x. x ++ bytes pad msg)
                    (sym (append-nil d.outcome.sent)
                      ∙ ap (λ x. d.outcome.sent ++ x) (sym (d.all_sent q))
                      ∙ d.first_part);
            all_sent = e.all_sent;
          }
      | inr (c, q) ↦ record {
        outcome = d.outcome;
        returns = rw (d.returns, send_message) (send_body-some write pad msg d.outcome c q);
        unsent = d.unsent ++ bytes pad msg;
        first_part =
            sym (append-append d.outcome.sent d.unsent (bytes pad msg))
            ∙ ap (λ x. x ++ bytes pad msg) d.first_part;
        all_sent = λ f. absurd (cc);
      }
    ]

module _ {S : Type 0} (read : S → ℕ → ReadReply × S) (content : S → List ℕ)
    (law : IsStream read content) where
  read_as-Gives :
      (f : List ℕ → ClientMsg) (s : S) (bs rest : List ℕ) (msg : ClientMsg)
      → content s ≡ bs ++ rest
      → f bs ≡ msg
      → Gives read content s msg rest (read_as read f (length bs) s)
  unfolding read_as
  read_as-Gives f s bs rest msg h k =
      elim (read_exactly-Gives read content law s bs rest (length bs) h refl) [
        | inl (e, s', q, f) ↦ inl (e, s', rw (q, read_as) refl, f)
        | inr (s', q, c, l) ↦ inr (s', rw (q, read_as) (ap (λ m. some (inr m, s')) k), c, l)
      ]

  after_index-Gives :
      (pad : ℕ → ℕ) (msg : ClientMsg) (s : S) (rest : List ℕ)
      → IsValid msg
      → content s ≡ bytes pad msg ++ rest
      → Gives read content s msg rest (after_index read (inr (word (index msg)), s))
  after_index-Gives pad (input m) s rest v h =
      read_as-Gives to_input s (bytes pad (input m)) rest (input m) h (λ i. input (record {
        x = to_word-word m.x v.0 i;
        y = to_word-word m.y v.1 i;
        action = to_word-word m.action v.2 i;
        touch = to_flag-flag m.touch (pad 0 ∷ pad 1 ∷ pad 2 ∷ []) i;
      }))
  after_index-Gives pad get_update s rest v h =
      read_as-Gives (λ bs. get_update) s (bytes pad get_update) rest get_update h refl
  after_index-Gives pad (power_button b) s rest v h =
      read_as-Gives (λ bs. power_button (to_flag bs)) s (bytes pad (power_button b)) rest
        (power_button b) h (ap power_button (to_flag-flag b []))

  -- What is read after some calls.
  Gives-after :
      (s t : S) (msg : ClientMsg) (rest : List ℕ) (o : Option ((Error ⊎ ClientMsg) × S))
      → Leads read s t
      → Gives read content t msg rest o
      → Gives read content s msg rest o
  Gives-after s t msg rest o l (inl (e, s', q, f)) = inl (e, s', q, Leads-Fails read s t s' e l f)
  Gives-after s t msg rest o l (inr (s', q, c, k)) = inr (s', q, c, Leads-trans read s t s' l k)

  recv_message-Gives :
      (pad : ℕ → ℕ) (msg : ClientMsg) (s : S) (rest : List ℕ)
      → IsValid msg
      → content s ≡ encoding pad msg ++ rest
      → Gives read content s msg rest (recv_message read s)
  unfolding recv_message
  recv_message-Gives pad msg s rest v h =
      elim (read_exactly-Gives read content law s (word (index msg)) (bytes pad msg ++ rest) 4 h
        refl) [
          | inl (e, s', q, f) ↦ inl (e, s', rw (q, recv_message) refl, f)
          | inr (s', q, c, l) ↦
              rw (q, recv_message)
                (Gives-after s s' msg rest (after_index read (inr (word (index msg)), s')) l
                  (after_index-Gives pad msg s' rest v c))
        ]

-- What `sendMessage` has sent without an error, and then anything, on the stream that the other side
-- reads: `recvMessage` returns the message that was sent, whatever parts the bytes come in, and leaves what
-- came after it, unless one of its calls of `read` fails, the last one; then it returns the error number
-- of that call.
pub recv_message-send_message :
    {W R : Type 0} (write : W → List ℕ → Reply × W) (read : R → ℕ → ReadReply × R)
    (content : R → List ℕ) (pad : ℕ → ℕ)
    → ((s : W) (b : ℕ) (bs : List ℕ) → Progresses (write s (b ∷ bs)).0 (b ∷ bs))
    → IsStream read content
    → (w : W) (r : R) (msg : ClientMsg) (rest : List ℕ) (o : Outcome W) → IsValid msg
    → send_message write pad w msg ≡ some o
    → o.error ≡ none
    → content r ≡ o.sent ++ rest
    → Gives read content r msg rest (recv_message read r)
recv_message-send_message write read content pad p law w r msg rest o v sends ok h =
    let d = send_message-Delivers write pad p w msg in
    let same : d.outcome ≡ o = ground (arith, d.returns, sends) in
    let sent : o.sent ≡ encoding pad msg =
      sym (append-nil o.sent)
      ∙ ap (λ x. o.sent ++ x) (sym (d.all_sent (ap (λ o. o.error) same ∙ ok)))
      ∙ ap (λ o. o.sent ++ d.unsent) (sym same)
      ∙ d.first_part in
    recv_message-Gives read content law pad msg r rest v (h ∙ ap (λ x. x ++ rest) sent)
