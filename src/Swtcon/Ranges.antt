-- ===== src/Swtcon/Ranges.antt =====
-- libs/swtcon/Waveforms.cpp: a table of temperatures after a loop over a range of them.
use r_m2_stuff_rocket.Base.{
  ℕ, suc, true, false, Option, none, some, List, ◌+◌, ◌≡◌, ◌==◌, ◌&&◌, if◌then◌else◌, ltb, leb,
  refl, ap, ◌∙◌, arith, Bool-cases, inl, inr,
}
use r_m2_stuff_rocket.Swtcon.Loading.{set_at}

-- What a reading leaves where this was.
abbrev loaded : {A : Type 0} → (List ℕ → ℕ → A) → Option (Option (List ℕ × ℕ)) → Option A → Option A
loaded f none old = old
loaded f (some none) old = old
loaded f (some (some (tbl, size))) old = some (f tbl size)

in_range : (n t left : ℕ) → t == n ≡ true → leb n t && ltb t (n + suc left) ≡ true
in_range n t left e = ground arith

not_in_later : (n t left : ℕ) → t == n ≡ true → leb (n + 1) t && ltb t (n + 1 + left) ≡ false
not_in_later n t left e = ground arith

same_range :
    (n t left : ℕ)
    → t == n ≡ false
    → leb (n + 1) t && ltb t (n + 1 + left) ≡ leb n t && ltb t (n + suc left)
same_range n t left e = ground arith

empty_range : (n t : ℕ) → leb n t && ltb t (n + 0) ≡ false
empty_range n t = ground arith

-- A loop over temperatures, from one and for so many, has left this at each.
module _ {A : Type 0} (f : List ℕ → ℕ → A) (reading : ℕ → Option (Option (List ℕ × ℕ))) where
  abbrev pub after : ℕ → ℕ → (ℕ → Option A) → ℕ → Option A
  after n left old t = if leb n t && ltb t (n + left) then loaded f (reading t) (old t) else old t

  pub after-zero : (n : ℕ) (old : ℕ → Option A) (t : ℕ) → old t ≡ after n 0 old t
  after-zero n old t = rw (empty_range n t) refl

  pub skipped :
      (n left : ℕ) (old : ℕ → Option A) (t : ℕ)
      → reading n ≡ some none
      → after (n + 1) left old t ≡ after n (suc left) old t
  skipped n left old t e = elim (Bool-cases (t == n)) [
    | inl q ↦
        let same : t ≡ n = ground arith in
        rw (not_in_later n t left q, in_range n t left q, ap reading same ∙ e) refl
    | inr q ↦ rw (same_range n t left q) refl
  ]

  pub stored :
      (n left : ℕ) (old : ℕ → Option A) (tbl : List ℕ) (size t : ℕ)
      → reading n ≡ some (some (tbl, size))
      → after (n + 1) left (set_at n (some (f tbl size)) old) t ≡ after n (suc left) old t
  stored n left old tbl size t e = elim (Bool-cases (t == n)) [
    | inl q ↦
        let same : t ≡ n = ground arith in
        rw (q, not_in_later n t left q, in_range n t left q, ap reading same ∙ e) refl
    | inr q ↦ rw (q, same_range n t left q) refl
  ]
