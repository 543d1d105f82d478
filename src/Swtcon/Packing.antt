-- ===== src/Swtcon/Packing.antt =====
-- libs/swtcon/Waveforms.cpp, `readWaveformTable`: what the words of one transition hold.
use r_m2_stuff_rocket.Base.{
  ℕ, zero, suc, Bool, true, false, List, [], ◌∷◌, ◌++◌, ◌+◌, ◌*◌, ◌/◌, ◌%◌, ◌^◌, ◌==◌, ◌≡◌, ◌≢◌,
  ◌≤◌, ◌<◌, ◌&&◌, length, take, drop, refl, sym, ap, append-append, ◌∙◌, arith, Bool-cases, inl,
  inr,
}
use native.Mathlib.Nat.{pow-suc}
use r_m2_stuff_rocket.Swtcon.Tables.{Words, store, still_init, packed, pack}

-- The number whose digits to the base 4 are these, the lowest first.
abbrev pub digits : List ℕ → ℕ
digits [] = 0
digits (e ∷ es) = e % 4 + 4 * digits es

abbrev pub weight : ℕ → ℕ
weight zero = 1
weight (suc r) = 4 * weight r

weight-pow : (r : ℕ) → 2 ^ (r * 2) ≡ weight r
weight-pow zero = refl
weight-pow (suc r) =
    let e : ◌≡◌ {A = ℕ} (suc r * 2) (suc (suc (r * 2))) = omega arith in
    ap (λ n. 2 ^ n) e ∙ omega (arith, pow-suc 2 (suc (r * 2)), pow-suc 2 (r * 2), weight-pow r)

digits-snoc : (p : List ℕ) (e : ℕ) → digits (p ++ e ∷ []) ≡ digits p + e % 4 * weight (length p)
digits-snoc [] e = omega arith
digits-snoc (x ∷ p) e = grind (arith, digits-snoc p e)

digits-lt : (p : List ℕ) → digits p < weight (length p)
digits-lt [] = omega arith
digits-lt (x ∷ p) = omega (arith, digits-lt p)

pub weight_pos : (r : ℕ) → 0 < weight r
weight_pos zero = omega arith
weight_pos (suc r) = omega (arith, weight_pos r)

weight_mono : (r s : ℕ) → r ≤ s → weight r ≤ weight s
weight_mono zero s h = omega (arith, weight_pos s)
weight_mono (suc r) zero h = absurd (omega arith)
weight_mono (suc r) (suc s) h = omega (arith, weight_mono r s (omega arith))

weight_le : (r : ℕ) → r < 8 → weight r ≤ 16384
weight_le r h = weight_mono r 7 (omega arith)

length-snoc : (p : List ℕ) (e : ℕ) → length (p ++ e ∷ []) ≡ length p + 1
length-snoc [] e = refl
length-snoc (x ∷ p) e = omega (arith, length-snoc p e)

small_lem : (n : ℕ) → n < 65536 → n % 65536 ≡ n
small_lem n h = omega arith

small : (d e w : ℕ) → d < w → e < 4 → w ≤ 16384 → (d + e * w) % 65536 ≡ d + e * w
small d e w h k l = small_lem (d + e * w) (grind arith)

-- `packed` adds one more digit.
packed-digits :
    (k n : ℕ) (p : List ℕ) (e : ℕ)
    → n ≡ 8 * k + length p
    → length p < 8
    → packed n (digits p) e ≡ digits (p ++ e ∷ [])
packed-digits k n p e h l =
    let r : n % 8 ≡ length p = omega (arith, h, l) in
    rw r (
      rw (weight-pow (length p)) (
        rw (digits-snoc p e) (
          small (digits p) (e % 4) (weight (length p)) (digits-lt p) (omega arith)
            (weight_le (length p) l))))

take_all : (n : ℕ) (xs : List ℕ) → length xs ≤ n → take n xs ≡ xs
take_all zero [] h = refl
take_all zero (x ∷ xs) h = absurd (omega arith)
take_all (suc n) [] h = refl
take_all (suc n) (x ∷ xs) h = ap (◌∷◌ x) (take_all n xs (omega arith))

drop_all : (n : ℕ) (xs : List ℕ) → length xs ≤ n → drop n xs ≡ []
drop_all zero [] h = refl
drop_all zero (x ∷ xs) h = absurd (omega arith)
drop_all (suc n) [] h = refl
drop_all (suc n) (x ∷ xs) h = drop_all n xs (omega arith)

take_prefix : (xs ys : List ℕ) → take (length xs) (xs ++ ys) ≡ xs
take_prefix [] ys = refl
take_prefix (x ∷ xs) ys = ap (◌∷◌ x) (take_prefix xs ys)

drop_prefix : (xs ys : List ℕ) (n : ℕ) → drop (length xs + n) (xs ++ ys) ≡ drop n ys
drop_prefix [] ys n = ap (λ m. drop m ys) (omega arith)
drop_prefix (x ∷ xs) ys n =
    let e : ◌≡◌ {A = ℕ} (suc (length xs) + n) (suc (length xs + n)) = omega arith in
    ap (λ m. drop m (x ∷ xs ++ ys)) e ∙ drop_prefix xs ys n

-- From word `k` on, the transition's words hold eight elements each, in order, and no other word is
-- changed.
pub record Packs (row k : ℕ) (xs : List ℕ) (before after : Words) : Type 0 where
  pub words : (j : ℕ) → after (row + (k + j) * 0x100) ≡ digits (take 8 (drop (8 * j) xs))
  pub others : (i : ℕ) → ((j : ℕ) → i ≢ row + (k + j) * 0x100) → after i ≡ before i

pub store_same : (a v : ℕ) (t : Words) (i : ℕ) → i ≡ a → store a v t i ≡ v
store_same a v t i e = ground arith

pub store_other : (a v : ℕ) (t : Words) (i : ℕ) → i ≢ a → store a v t i ≡ t i
store_other a v t i e = ground arith

still_init_lem :
    (skip in_init : Bool) (e : ℕ)
    → skip && in_init ≡ false
    → skip && still_init skip in_init e ≡ false
still_init_lem skip in_init e h = ground arith

-- One round on an element that is not skipped.
module _ (row : ℕ) (skip in_init : Bool) (n acc e : ℕ) (t : Words)
    (h : skip && still_init skip in_init e ≡ false) where
  pack_last :
      pack row skip in_init n acc (e ∷ []) t ≡ store (row + n / 8 * 0x100) (packed n acc e) t
  unfolding pack
  pack_last = rw (h, pack) (ground arith)

  pack_waits :
      (e2 : ℕ) (es : List ℕ)
      → (n + 1) % 8 == 0 ≡ false
      → pack row skip in_init n acc (e ∷ e2 ∷ es) t
        ≡ pack row skip (still_init skip in_init e) (n + 1) (packed n acc e) (e2 ∷ es) t
  unfolding pack
  pack_waits e2 es f = rw (h, f, pack) refl

  pack_full :
      (es : List ℕ)
      → (n + 1) % 8 == 0 ≡ true
      → pack row skip in_init n acc (e ∷ es) t
        ≡ pack row skip
            (still_init skip in_init e)
            (n + 1)
            0
            es
            (store (row + n / 8 * 0x100) (packed n acc e) t)
  unfolding pack
  pack_full es f = rw (h, f, pack) refl

full : (n k l : ℕ) → (n + 1) % 8 == 0 ≡ true → n ≡ 8 * k + l → l < 8 → l ≡ 7
full n k l f h s = ground arith

not_full : (n k l : ℕ) → (n + 1) % 8 == 0 ≡ false → n ≡ 8 * k + l → l < 8 → l < 7
not_full n k l f h s = ground arith

-- A transition that ends in one word.
module _ (row k : ℕ) (xs : List ℕ) (t : Words) (h : length xs ≤ 8)
    (z : (j : ℕ) → t (row + (k + j) * 0x100) ≡ 0) where
  last_words :
      (j : ℕ)
      → store (row + k * 0x100) (digits xs) t (row + (k + j) * 0x100)
        ≡ digits (take 8 (drop (8 * j) xs))
  last_words zero =
      store_same (row + k * 0x100) (digits xs) t (row + (k + 0) * 0x100) (omega arith)
      ∙ ap digits (sym (take_all 8 xs h))
  last_words (suc i) =
      store_other (row + k * 0x100) (digits xs) t (row + (k + suc i) * 0x100)
        (λ q. absurd (omega (arith, q)))
      ∙ z (suc i)
      ∙ ap (λ ys. digits (take 8 ys)) (sym (drop_all (8 * suc i) xs (omega (arith, h))))

  last-Packs : Packs row k xs t (store (row + k * 0x100) (digits xs) t)
  last-Packs = record {
    words = last_words;
    others = λ i q. store_other (row + k * 0x100) (digits xs) t i (λ r. q 0 (omega (arith, r)));
  }

-- A full word, and then the words of the elements after it.
module _ (row k : ℕ) (xs ys : List ℕ) (t after : Words) (h : length xs ≡ 8)
    (r : Packs row (k + 1) ys (store (row + k * 0x100) (digits xs) t) after) where
  full_words : (j : ℕ) → after (row + (k + j) * 0x100) ≡ digits (take 8 (drop (8 * j) (xs ++ ys)))
  full_words zero =
      r.others (row + (k + 0) * 0x100) (λ i q. absurd (omega (arith, q)))
      ∙ store_same (row + k * 0x100) (digits xs) t (row + (k + 0) * 0x100) (omega arith)
      ∙ ap digits (sym (take_prefix xs ys) ∙ ap (λ m. take m (xs ++ ys)) h)
  full_words (suc i) =
      ap after (omega arith)
      ∙ r.words i
      ∙ ap (λ ys. digits (take 8 ys))
          (sym (drop_prefix xs ys (8 * i)) ∙ ap (λ m. drop m (xs ++ ys)) (omega (arith, h)))

  full-Packs : Packs row k (xs ++ ys) t after
  full-Packs = record {
    words = full_words;
    others = λ i q.
        r.others i (λ j s. q (suc j) (omega (arith, s)))
        ∙ store_other (row + k * 0x100) (digits xs) t i (λ s. q 0 (omega (arith, s)));
  }

pub pack-Packs :
    (row : ℕ) (skip in_init : Bool) (k n : ℕ) (p : List ℕ) (e : ℕ) (es : List ℕ) (t : Words)
    → n ≡ 8 * k + length p
    → length p < 8
    → skip && in_init ≡ false
    → ((j : ℕ) → t (row + (k + j) * 0x100) ≡ 0)
    → Packs row k (p ++ e ∷ es) t (pack row skip in_init n (digits p) (e ∷ es) t)
pack-Packs row skip in_init k n p e [] t h l b z =
    let b' = still_init_lem skip in_init e b in
    let ks : n / 8 ≡ k = omega (arith, h, l) in
    rw (pack_last row skip in_init n (digits p) e t b') (
      rw (ks, packed-digits k n p e h l)
        (last-Packs row k (p ++ e ∷ []) t (omega (arith, length-snoc p e, l)) z))
pack-Packs row skip in_init k n p e (e2 ∷ es) t h l b z =
    let b' = still_init_lem skip in_init e b in
    let size = length-snoc p e in
    elim (Bool-cases ((n + 1) % 8 == 0)) [
      | inr f ↦
          let short : length p < 7 = not_full n k (length p) f h l in
          let r =
            pack-Packs row skip (still_init skip in_init e) k (n + 1) (p ++ e ∷ []) e2 es t
              (omega (arith, h, size)) (omega (arith, size, short)) b' z in
          rw (pack_waits row skip in_init n (digits p) e t b' e2 es f, packed-digits k n p e h l)
            (rw (append-append p (e ∷ []) (e2 ∷ es)) at r)
      | inl f ↦
          let seven : length p ≡ 7 = full n k (length p) f h l in
          let ks : n / 8 ≡ k = omega (arith, h, l) in
          let xs = p ++ e ∷ [] in
          let r =
            pack-Packs row skip (still_init skip in_init e) (k + 1) (n + 1) [] e2 es
              (store (row + k * 0x100) (digits xs) t) (omega (arith, h, seven)) (omega arith) b'
              (λ j.
                store_other (row + k * 0x100) (digits xs) t (row + (k + 1 + j) * 0x100)
                  (λ q. absurd (omega (arith, q)))
                ∙ ap t (omega arith)
                ∙ z (suc j)) in
          rw (pack_full row skip in_init n (digits p) e t b' (e2 ∷ es) f) (
            rw (ks, packed-digits k n p e h l)
              (rw (append-append p (e ∷ []) (e2 ∷ es)) at
                (full-Packs row k xs (e2 ∷ es) t _ (omega (arith, size, seven)) r)))
    ]
