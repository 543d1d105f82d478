-- ===== src/Swtcon/Power.antt =====
-- libs/swtcon/fb.cpp: the power of the display, with requests that may fail.
use r_m2_stuff_rocket.Base.{
  [], ◌∷◌, ◌⊎◌, ap, subst, ℕ, zero, suc, Bool, true, false, not, List, length, ◌+◌, ◌≤◌, ◌≡◌, ◌≢◌,
  refl, sym, ◌∙◌, arith, Bool-cases, inl, inr, if◌then◌else◌,
}
use r_m2_stuff_rocket.Swtcon.PanBuffer.{
  FbRequest, set_offset, unblank_request, Power, ask, pan_offset, try_unblank, unblank,
}

module _ (answers : List FbRequest → FbRequest → Bool) where
  try_unblank-asks :
      (n : ℕ) (p : Power)
      → ((try_unblank answers n p).1.is_blanked ≡ p.is_blanked)
        × (length (try_unblank answers n p).1.asked ≤ length p.asked + n)
  unfolding try_unblank
  try_unblank-asks zero p = (refl, omega arith)
  try_unblank-asks (suc n) p =
      let k = try_unblank-asks n (ask unblank_request p) in
      elim (Bool-cases (answers p.asked unblank_request)) [
        | inl e ↦ rw e (refl, omega arith)
        | inr e ↦ rw e (k.0, omega (arith, k.1))
      ]

  -- So many requests to unblank are refused in a row, after those made before them.
  abbrev Refused : ℕ → List FbRequest → Type 0
  Refused zero asked = Unit {0}
  Refused (suc n) asked =
      (answers asked unblank_request ≡ false) × Refused n (unblank_request ∷ asked)

  -- The last of these requests, to unblank, was accepted.
  abbrev Accepted : List FbRequest → Type 0
  Accepted [] = ⊥
  Accepted (r ∷ rest) = (r ≡ unblank_request) × (answers rest unblank_request ≡ true)

  -- After a refusal the next round follows.
  tried :
      (p : Power) (n : ℕ)
      → answers p.asked unblank_request ≡ false
      → try_unblank answers (suc n) p ≡ try_unblank answers n (ask unblank_request p)
  unfolding try_unblank
  tried p n e = rw e refl

  try_unblank-answers :
      (n : ℕ) (p : Power)
      → ((try_unblank answers n p).0 ≡ true → Accepted (try_unblank answers n p).1.asked)
        × ((try_unblank answers n p).0 ≡ false → Refused n p.asked)
  unfolding try_unblank
  try_unblank-answers zero p = ((λ h. absurd (ground (arith, h))), λ h. tt)
  try_unblank-answers (suc n) p =
      let k = try_unblank-answers n (ask unblank_request p) in
      elim (Bool-cases (answers p.asked unblank_request)) [
        | inl e ↦ rw e ((λ h. (refl, e)), λ h. absurd (ground (arith, h)))
        | inr e ↦ (
          (λ h.
              subst Accepted (sym (ap (λ r. r.1.asked) (tried p n e)))
                (k.0 (sym (ap (λ r. r.0) (tried p n e)) ∙ h))),
          λ h. (e, k.1 (sym (ap (λ r. r.0) (tried p n e)) ∙ h)),
        )
      ]

-- What `unblank` returns and leaves.
pub record Unblanks (answers : List FbRequest → FbRequest → Bool) (offset : FbRequest) (p : Power)
    (r : ℕ × Power) : Type 0 where
  pub done :
      r.0 ≡ 0
      → (p.is_blanked ≡ true)
        × (r.1.is_blanked ≡ false)
        × (answers p.asked offset ≡ true)
        × Accepted answers r.1.asked
  pub failed : r.0 ≢ 0 → r.1.is_blanked ≡ p.is_blanked
  refused :
      r.0 ≢ 0
      → p.is_blanked ≡ true
      → (answers p.asked offset ≡ false) ⊎ Refused answers 5 (offset ∷ p.asked)
  needless : p.is_blanked ≡ false → r.1 ≡ p
  few : length r.1.asked ≤ length p.asked + 6

-- By the answers that `unblank` tests.
results :
    (answers : List FbRequest → FbRequest → Bool) (offset : FbRequest) (b a s : Bool)
    (p set q : Power)
    → p.is_blanked ≡ b
    → set.is_blanked ≡ b
    → q.is_blanked ≡ b
    → length set.asked ≤ length p.asked + 6
    → length q.asked ≤ length p.asked + 6
    → answers p.asked offset ≡ a
    → (s ≡ true → Accepted answers q.asked)
    → (s ≡ false → Refused answers 5 (offset ∷ p.asked))
    → Unblanks answers offset p (
        if not b
        then (1, p)
        else if not a
        then (1, set)
        else if not s
        then (1, q)
        else (0, record q { is_blanked = false }))
results answers offset false a s p set q e f g m n x y z = record {
  done = λ h. absurd (ground (arith, h));
  failed = λ h. refl;
  refused = λ h k. absurd (ground (arith, e, k));
  needless = λ h. refl;
  few = omega arith;
}
results answers offset true false s p set q e f g m n x y z = record {
  done = λ h. absurd (ground (arith, h));
  failed = λ h. f ∙ sym e;
  refused = λ h k. inl x;
  needless = λ h. absurd (ground (arith, e, h));
  few = m;
}
results answers offset true true false p set q e f g m n x y z = record {
  done = λ h. absurd (ground (arith, h));
  failed = λ h. g ∙ sym e;
  refused = λ h k. inr (z refl);
  needless = λ h. absurd (ground (arith, e, h));
  few = n;
}
results answers offset true true true p set q e f g m n x y z = record {
  done = λ h. (e, refl, x, y refl);
  failed = λ h. absurd (h refl);
  refused = λ h k. absurd (h refl);
  needless = λ h. absurd (ground (arith, e, h));
  few = n;
}

-- Whatever requests fail: `unblank` returns 0 only if the display was blanked, the offset was set and the last
-- request, to unblank, succeeded, and then the display is no longer blanked; if it returns something
-- else the display is as it was, and a display that is blanked has then refused the offset or five requests
-- to unblank in a row; a display that is not blanked is asked nothing, any other at most six times.
pub unblank-Unblanks :
    (answers : List FbRequest → FbRequest → Bool) (n : ℕ) (p : Power)
    → Unblanks answers (set_offset (pan_offset n)) p (unblank answers n p)
unfolding unblank
unblank-Unblanks answers n p =
    let offset = set_offset (pan_offset n) in
    let set = ask offset p in
    let (same, few) = try_unblank-asks answers 5 set in
    let (accepted, refused) = try_unblank-answers answers 5 set in
    results answers offset p.is_blanked (answers p.asked offset) (try_unblank answers 5 set).0 p set
      (try_unblank answers 5 set).1 refl refl same (omega arith) (omega (arith, few)) refl accepted
      refused
