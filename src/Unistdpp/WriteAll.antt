-- ===== src/Unistdpp/WriteAll.antt =====
-- libs/unistdpp/unistdpp.cpp, `FD::writeAll`. The system call is a parameter: given what it is asked
-- to write, it fails with an error number or takes a number of bytes, the first ones.
use r_m2_stuff_rocket.Base.{
  append-append, ℕ, zero, suc, Option, none, some, List, [], ◌∷◌, ◌++◌, ◌≤◌, ◌<◌, ◌≡◌, refl, ap,
  ◌∙◌, arith, length, take, drop, take-append-drop, length-drop, inl, inr, ◌⊎◌, subst,
}

pub data Reply : Type 0 where
  failed wrote : ℕ → Reply

-- The outcome: the error number, if any, everything that the file has taken, and the state of the
-- system.
pub record Outcome (S : Type 0) : Type 0 where
  pub error : Option ℕ
  pub sent : List ℕ
  pub state : S

module _ {S : Type 0} (write : S → List ℕ → Reply × S) where
  -- `buf` is what is left of the buffer, not empty in the body of the loop.
  unfoldable pub write_all : ℕ → S → List ℕ → List ℕ → Option (Outcome S)
  write_all fuel s [] sent = some (record { error = none; sent = sent; state = s })
  write_all zero s (b ∷ bs) sent = none
  write_all (suc fuel) s (b ∷ bs) sent = elim (write s (b ∷ bs)).0 [
    | failed e ↦ some (record { error = some e; sent = sent; state = (write s (b ∷ bs)).1 })
    | wrote n ↦ write_all fuel (write s (b ∷ bs)).1 (drop n (b ∷ bs)) (sent ++ take n (b ∷ bs))
  ]

-- What POSIX says of `write` to a file for a request that is not empty, when it does not fail.
abbrev pub Progresses : Reply → List ℕ → Type 0
Progresses (failed e) buf = Unit {0}
Progresses (wrote n) buf = (0 < n) × (n ≤ length buf)

-- The file has taken what it had and a first part of the buffer; all of it, unless a call failed.
pub record Delivers {S : Type 0} (sent buf : List ℕ) (result : Option (Outcome S)) : Type 0 where
  pub outcome : Outcome S
  pub returns : result ≡ some outcome
  pub unsent : List ℕ
  pub first_part : outcome.sent ++ unsent ≡ sent ++ buf
  pub all_sent : outcome.error ≡ none → unsent ≡ []

Reply-cases : (r : Reply) → ((e : ℕ) × (r ≡ failed e)) ⊎ ((n : ℕ) × (r ≡ wrote n))
Reply-cases (failed e) = inl (e, refl)
Reply-cases (wrote n) = inr (n, refl)

-- When each call of `write` that does not fail takes at least one byte and no more than it was
-- given, `writeAll` returns, within as many rounds as there are bytes: the file has then taken a
-- first part of the buffer after what it had, in order, and the whole buffer if no error is
-- returned.
pub write_all-Delivers :
    {S : Type 0} (write : S → List ℕ → Reply × S)
    → ((s : S) (b : ℕ) (bs : List ℕ) → Progresses (write s (b ∷ bs)).0 (b ∷ bs))
    → (fuel : ℕ) (s : S) (buf sent : List ℕ) → length buf ≤ fuel
    → Delivers sent buf (write_all write fuel s buf sent)
unfolding write_all
write_all-Delivers write p fuel s [] sent h = record {
  outcome = record { error = none; sent = sent; state = s };
  returns = refl;
  unsent = [];
  first_part = refl;
  all_sent = λ e. refl;
}
write_all-Delivers write p zero s (b ∷ bs) sent h = absurd (omega arith)
write_all-Delivers write p (suc fuel) s (b ∷ bs) sent h = elim (Reply-cases (write s (b ∷ bs)).0) [
  | inl (e, q) ↦ record {
    outcome = record { error = some e; sent = sent; state = (write s (b ∷ bs)).1 };
    returns = rw (q, write_all) refl;
    unsent = b ∷ bs;
    first_part = refl;
    all_sent = λ f. absurd (cc);
  }
  | inr (n, q) ↦
      let took : (0 < n) × (n ≤ length (b ∷ bs)) =
        subst (λ r. Progresses r (b ∷ bs)) q (p s b bs) in
      let rest =
        write_all-Delivers write p fuel (write s (b ∷ bs)).1 (drop n (b ∷ bs))
          (sent ++ take n (b ∷ bs)) (omega (arith, length-drop n (b ∷ bs))) in
      record {
        outcome = rest.outcome;
        returns = rw (q, write_all) rest.returns;
        unsent = rest.unsent;
        first_part =
            rest.first_part
            ∙ append-append sent (take n (b ∷ bs)) (drop n (b ∷ bs))
            ∙ ap (λ x. sent ++ x) (take-append-drop n (b ∷ bs));
        all_sent = rest.all_sent;
      }
]

-- An error that `writeAll` returns is one of a call that failed.
pub write_all_error :
    {S : Type 0} (write : S → List ℕ → Reply × S) (P : ℕ → Type 0)
    → ((s : S) (b : ℕ) (bs : List ℕ) (e : ℕ) → (write s (b ∷ bs)).0 ≡ failed e → P e)
    → (fuel : ℕ) (s : S) (buf sent : List ℕ) (o : Outcome S)
    → write_all write fuel s buf sent ≡ some o
    → (e : ℕ) → o.error ≡ some e
    → P e
unfolding write_all
write_all_error write P h fuel s [] sent o q e k = absurd (ground (arith, q, k))
write_all_error write P h zero s (b ∷ bs) sent o q e k = absurd (cc)
write_all_error write P h (suc fuel) s (b ∷ bs) sent o q e k =
    elim (Reply-cases (write s (b ∷ bs)).0) [
      | inl (n, f) ↦
          let same : n ≡ e = ground (arith, rw (f, write_all) at q, k) in
          subst P same (h s b bs n f)
      | inr (n, f) ↦
          write_all_error write P h fuel (write s (b ∷ bs)).1 (drop n (b ∷ bs))
            (sent ++ take n (b ∷ bs)) o (rw (f, write_all) at q) e k
    ]
