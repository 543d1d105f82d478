-- ===== src/Swtcon/Transitions.antt =====
-- libs/swtcon/Waveforms.cpp, `readWaveformTable`: the transitions of a table, in its words.
use r_m2_stuff_rocket.Base.{
  ℕ, zero, suc, Bool, true, false, List, [], ◌∷◌, ◌+◌, ◌*◌, ◌/◌, ◌%◌, ◌==◌, ◌≡◌, ◌≤◌, ◌<◌,
  if◌then◌else◌, get_or, take, drop, refl, sym, ap, ◌∙◌, arith, ltb, ltb→lt, Bool-cases, inl, inr,
  ◌⊎◌,
}
use r_m2_stuff_rocket.Swtcon.Tables.{Words, pack}
use r_m2_stuff_rocket.Swtcon.Packing.{digits, weight, weight_pos, Packs, pack-Packs}

-- The elements without those that come first and do nothing.
abbrev pub skip_zeros : List ℕ → List ℕ
skip_zeros [] = []
skip_zeros (e ∷ es) = if e % 4 == 0 then skip_zeros es else e ∷ es

abbrev pub kept : Bool → List ℕ → List ℕ
kept skip es = if skip then skip_zeros es else es

drop_nil : (n : ℕ) → drop {A = ℕ} n [] ≡ []
drop_nil zero = refl
drop_nil (suc n) = refl

module _ (row : ℕ) (t : Words) (z : (j : ℕ) → t (row + j * 0x100) ≡ 0) where
  zeros : (j : ℕ) → t (row + (0 + j) * 0x100) ≡ 0
  zeros j = ap t (omega arith) ∙ z j

  none-Packs : Packs row 0 [] t t
  none-Packs = record {
    words = λ j. zeros j ∙ ap (λ xs. digits (take 8 xs)) (sym (drop_nil (8 * j)));
    others = λ i q. refl;
  }

  pack_none : (skip : Bool) → pack row skip true 0 0 [] t ≡ t
  unfolding pack
  pack_none skip = refl

  plain-Packs : (es : List ℕ) → Packs row 0 es t (pack row false true 0 0 es t)
  plain-Packs [] = rw (pack_none false) none-Packs
  plain-Packs (e ∷ es) =
      pack-Packs row false true 0 0 [] e es t (omega arith) (omega arith) refl zeros

  begin_init :
      (e : ℕ) (es : List ℕ)
      → e % 4 == 0 ≡ false
      → pack row true true 0 0 (e ∷ es) t ≡ pack row true false 0 0 (e ∷ es) t
  unfolding pack
  begin_init e es h = rw (h, pack) refl

  skip_init :
      (e : ℕ) (es : List ℕ)
      → e % 4 == 0 ≡ true
      → pack row true true 0 0 (e ∷ es) t ≡ pack row true true 0 0 es t
  unfolding pack
  skip_init e es h = rw (h, pack) refl

  skipping-Packs : (es : List ℕ) → Packs row 0 (skip_zeros es) t (pack row true true 0 0 es t)
  skipping-Packs [] = rw (pack_none true) none-Packs
  skipping-Packs (e ∷ es) = elim (Bool-cases (e % 4 == 0)) [
    | inl h ↦ rw (skip_init e es h) (rw h (skipping-Packs es))
    | inr h ↦
        rw (begin_init e es h)
          (rw h (pack-Packs row true false 0 0 [] e es t (omega arith) (omega arith) refl zeros))
  ]

  pub row-Packs :
      (skip : Bool) (es : List ℕ) → Packs row 0 (kept skip es) t (pack row skip true 0 0 es t)
  row-Packs false es = plain-Packs es
  row-Packs true es = skipping-Packs es

div_step : (x d w : ℕ) → x < 4 → 0 < w → (x + 4 * d) / (4 * w) ≡ d / w
div_step x d w h k = grind arith

zero_digits : (w : ℕ) → 0 < w → 0 / w % 4 ≡ 0
zero_digits w h = grind arith

digits-get_or : (xs : List ℕ) (i : ℕ) → digits xs / weight i % 4 ≡ get_or xs i 0 % 4
digits-get_or [] i = zero_digits (weight i) (weight_pos i)
digits-get_or (x ∷ xs) zero = omega arith
digits-get_or (x ∷ xs) (suc i) =
    ap (λ n. n % 4) (div_step (x % 4) (digits xs) (weight i) (omega arith) (weight_pos i))
    ∙ digits-get_or xs i

take-get_or : (n : ℕ) (xs : List ℕ) (i : ℕ) → i < n → get_or (take n xs) i 0 ≡ get_or xs i 0
take-get_or zero xs i h = absurd (omega arith)
take-get_or (suc n) [] i h = refl
take-get_or (suc n) (x ∷ xs) zero h = refl
take-get_or (suc n) (x ∷ xs) (suc i) h = take-get_or n xs i (omega arith)

drop-get_or : (n : ℕ) (xs : List ℕ) (i : ℕ) → get_or (drop n xs) i 0 ≡ get_or xs (n + i) 0
drop-get_or zero xs i = ap (λ k. get_or xs k 0) (omega arith)
drop-get_or (suc n) [] i = refl
drop-get_or (suc n) (x ∷ xs) i =
    let e : ◌≡◌ {A = ℕ} (suc n + i) (suc (n + i)) = omega arith in
    drop-get_or n xs i ∙ sym (ap (λ k. get_or (x ∷ xs) k 0) e)

-- The two bits of an element, in the word that holds it.
pub word-get_or :
    (xs : List ℕ) (i : ℕ)
    → digits (take 8 (drop (8 * (i / 8)) xs)) / weight (i % 8) % 4 ≡ get_or xs i 0 % 4
word-get_or xs i =
    digits-get_or (take 8 (drop (8 * (i / 8)) xs)) (i % 8)
    ∙ ap (λ n. n % 4)
        (take-get_or 8 (drop (8 * (i / 8)) xs) (i % 8) (omega arith)
          ∙ drop-get_or (8 * (i / 8)) xs (i % 8)
          ∙ ap (λ k. get_or xs k 0) (omega arith))

apart :
    (r row k j : ℕ)
    → r < 0x100
    → row < 0x100
    → (r < row) ⊎ (row + 1 ≤ r)
    → r + k * 0x100 ≡ row + j * 0x100
    → ⊥
apart r row k j h l (inl s) q = omega arith
apart r row k j h l (inr s) q = omega arith

-- The rows from `lo` to `hi` are packed, each from its elements, and the others are as before.
module _ (es : ℕ → List ℕ) where
  pub record Filled (lo hi : ℕ) (before after : Words) : Type 0 where
    pub words :
        (r k : ℕ) → lo ≤ r → r < hi → after (r + k * 0x100) ≡ digits (take 8 (drop (8 * k) (es r)))
    pub others :
        (r k : ℕ) → r < 0x100 → (r < lo) ⊎ (hi ≤ r) → after (r + k * 0x100) ≡ before (r + k * 0x100)

  pub Filled-refl : (lo : ℕ) (t : Words) → Filled lo lo t t
  Filled-refl lo t = record {
    words = λ r k g l. absurd (omega (arith, g, l));
    others = λ r k h s. refl;
  }

  pub Filled-trans :
      (lo mid hi : ℕ) (t u v : Words)
      → lo ≤ mid
      → mid ≤ hi
      → hi ≤ 0x100
      → Filled lo mid t u
      → Filled mid hi u v
      → Filled lo hi t v
  Filled-trans lo mid hi t u v le le2 top f g = record {
    words = λ r k h l. elim (Bool-cases (ltb r mid)) [
      | inl e ↦
          g.others r k (omega (arith, l)) (inl (ltb→lt r mid e)) ∙ f.words r k h (ltb→lt r mid e)
      | inr e ↦ g.words r k (ground arith) l
    ];
    others = λ r k h s. elim s [
      | inl e ↦ g.others r k h (inl (omega (arith, e))) ∙ f.others r k h (inl e)
      | inr e ↦ g.others r k h (inr e) ∙ f.others r k h (inr (omega (arith, e)))
    ];
  }

  -- One row, from its words.
  pub Filled-Packs :
      (row : ℕ) (t u : Words) → row < 0x100 → Packs row 0 (es row) t u → Filled row (row + 1) t u
  Filled-Packs row t u h p = record {
    words = λ r k g l.
        ap u (omega (arith, g, l))
        ∙ p.words k
        ∙ ap (λ x. digits (take 8 (drop (8 * k) (es x)))) (omega (arith, g, l));
    others = λ r k l s. p.others (r + k * 0x100) (λ j q. apart r row k (0 + j) l h s q);
  }
