-- ===== src/Rm2fb/Forwarding.antt =====
-- libs/rm2fb/Server.cpp: `doTCPUpdate` returns for an update within the frame buffer.
use r_m2_stuff_rocket.Base.{
  ℕ, true, some, List, [], ◌∷◌, ◌≡◌, ◌≢◌, ◌==◌, false, refl, ap, ◌∙◌, arith, inl, inr, length,
  Bool-cases, Option-cases,
}
use r_m2_stuff_rocket.Base.Int.{pos, ◌+ℤ◌, ◌-ℤ◌}
use r_m2_stuff_rocket.Unistdpp.WriteAll.{
  Reply, failed, Progresses, Outcome, write_all, write_all-Delivers, write_all_error,
}
use r_m2_stuff_rocket.Unistdpp.ReadAll.{ReadReply}
use r_m2_stuff_rocket.Rm2fb.Updates.{
  Update, Client, Ran, done, and_then, width, height, in_fb, update_bytes, tcp_pixels, whole_screen,
  write_error, broken_pipe, write_fd, close_failed, send_pixels, after_params, do_tcp_update,
}
use r_m2_stuff_rocket.Rm2fb.Server.{forward}

-- The update has a size and lies in the frame buffer.
abbrev pub IsRegular : Update → Type 0
IsRegular msg = (w h : ℕ) × (width msg ≡ pos w) × (height msg ≡ pos h) × (in_fb msg ≡ true)

-- A result is returned.
abbrev Done : {A : Type 0} → Ran A → Type 0
Done {A} r = (a : A) × (r ≡ done a)

and_then-Done :
    {A B : Type 0} (r : Ran A) (k : A → Ran B)
    → Done r
    → ((a : A) → Done (k a))
    → Done (and_then r k)
and_then-Done r k (a, e) f = let (b, g) = f a in (b, ap (λ r. and_then r k) e ∙ g)

pub whole_screen-IsRegular : IsRegular whole_screen
unfolding ◌-ℤ◌ ◌+ℤ◌
whole_screen-IsRegular = (1404, 1872, refl, refl, refl)

-- The other side of the socket has not gone away: SIGPIPE is not raised.
abbrev pub Survives : Reply → Type 0
Survives r = r ≢ failed broken_pipe

module _ {S : Type 0} (write : S → List ℕ → Reply × S) (read : S → ℕ → ReadReply × S)
    (progress : (s : S) (b : ℕ) (bs : List ℕ) → Progresses (write s (b ∷ bs)).0 (b ∷ bs))
    (survives : (s : S) (b : ℕ) (bs : List ℕ) → Survives (write s (b ∷ bs)).0) where
  write_fd-Progresses :
      (c : Client S) (b : ℕ) (bs : List ℕ) → Progresses (write_fd write read c (b ∷ bs)).0 (b ∷ bs)
  write_fd-Progresses c b bs = elim (Bool-cases c.is_open) [
    | inl e ↦ rw e (progress c.stream b bs)
    | inr e ↦ rw e tt
  ]

  no_pipe_error :
      (c : Client S) (b : ℕ) (bs : List ℕ) (e : ℕ)
      → (write_fd write read c (b ∷ bs)).0 ≡ failed e
      → e == broken_pipe ≡ false
  no_pipe_error c b bs e h = elim (Bool-cases (e == broken_pipe)) [
    | inr f ↦ f
    | inl f ↦
        let same : e ≡ broken_pipe = ground (arith, f) in
        elim (Bool-cases c.is_open) [
          | inl o ↦ absurd (survives c.stream b bs ((rw o at h) ∙ ap failed same))
          | inr o ↦ absurd (ground (arith, rw o at h, same))
        ]
  ]

  -- The error of a `writeAll` to a client does not end the server.
  error-Done :
      (fuel : ℕ) (c : Client S) (buf : List ℕ) (o : Outcome (Client S)) (e : ℕ)
      → write_all (write_fd write read) fuel c buf [] ≡ some o
      → o.error ≡ some e
      → Done (write_error e o.state)
  error-Done fuel c buf o e q k =
      let f =
        write_all_error (write_fd write read) (λ e. e == broken_pipe ≡ false) no_pipe_error fuel c
          buf [] o q e k in
      rw f (_, refl)

  close_failed-Done :
      (fuel : ℕ) (c : Client S) (buf : List ℕ) (o : Outcome (Client S))
      → write_all (write_fd write read) fuel c buf [] ≡ some o
      → Done (close_failed write read o)
  close_failed-Done fuel c buf o q = elim (Option-cases o.error) [
    | inl e ↦ rw e (_, refl)
    | inr (n, e) ↦ rw e (error-Done fuel c buf o n q e)
  ]

  send_pixels-Done : (bs : List ℕ) (c : Client S) → Done (send_pixels write read (some bs) c)
  send_pixels-Done bs c =
      let d =
        write_all-Delivers (write_fd write read) write_fd-Progresses (length bs) c bs []
          (omega arith) in
      rw (d.returns, send_pixels) (close_failed-Done (length bs) c bs d.outcome d.returns)

  after_params-Done :
      (fb : ℕ → ℕ) (msg : Update) (fuel : ℕ) (c : Client S) (buf : List ℕ) (o : Outcome (Client S))
      → write_all (write_fd write read) fuel c buf [] ≡ some o
      → IsRegular msg
      → Done (after_params write read fb msg o)
  unfolding tcp_pixels
  after_params-Done fb msg fuel c buf o ret (w, h, p, q, b) = elim (Option-cases o.error) [
    | inl e ↦ rw (e, p, q, b) (send_pixels-Done _ o.state)
    | inr (n, e) ↦ rw e (error-Done fuel c buf o n ret e)
  ]

  pub do_tcp_update-Done :
      (fb : ℕ → ℕ) (msg : Update) (c : Client S)
      → IsRegular msg
      → Done (do_tcp_update write read fb msg c)
  unfolding do_tcp_update
  do_tcp_update-Done fb msg c k =
      let d =
        write_all-Delivers (write_fd write read) write_fd-Progresses (length (update_bytes msg)) c
          (update_bytes msg) [] (omega arith) in
      rw (d.returns, do_tcp_update)
        (after_params-Done fb msg (length (update_bytes msg)) c (update_bytes msg) d.outcome
          d.returns k)

  pub forward-Done :
      (fb : ℕ → ℕ) (msg : Update) (cs : List (Client S))
      → IsRegular msg
      → Done (forward write read fb msg cs)
  unfolding forward
  forward-Done fb msg [] k = ([], refl)
  forward-Done fb msg (c ∷ cs) k =
      and_then-Done (do_tcp_update write read fb msg c) _ (do_tcp_update-Done fb msg c k) (λ d.
        and_then-Done (forward write read fb msg cs) _ (forward-Done fb msg cs k) (λ ds. (_, refl)))
