-- ===== src/Swtcon/Filling.antt =====
-- libs/swtcon/Waveforms.cpp, `readWaveformTable`: the tables of one temperature.
use r_m2_stuff_rocket.Base.{
  ℕ, zero, suc, Bool, true, List, ◌+◌, ◌*◌, ◌/◌, ◌%◌, ◌≡◌, ◌≤◌, ◌<◌, refl, ◌∙◌, subst, arith, inr,
}
use r_m2_stuff_rocket.Swtcon.Tables.{Words, pack, Steps, elements, fill_row, fill_rows}
use r_m2_stuff_rocket.Swtcon.Transitions.{
  kept, row-Packs, Filled, Filled-refl, Filled-trans, Filled-Packs,
}

module _ (steps : Steps) (skip : Bool) (tbl : List ℕ) (count : ℕ) where
  abbrev of_row : ℕ → List ℕ
  of_row r = kept skip (elements steps skip tbl count (r / 0x10) (r % 0x10))

  -- The rows from here on are empty.
  abbrev Clear : ℕ → Words → Type 0
  Clear lo t = (r k : ℕ) → lo ≤ r → r < 0x100 → t (r + k * 0x100) ≡ 0

  Filled-Clear :
      (lo hi : ℕ) (t u : Words) → lo ≤ hi → Filled of_row lo hi t u → Clear lo t → Clear hi u
  Filled-Clear lo hi t u h f z r k g l = f.others r k l (inr g) ∙ z r k (omega (arith, g, h)) l

  one-Filled :
      (a b : ℕ) (t : Words)
      → a < 0x10
      → b < 0x10
      → Clear (a * 0x10 + b) t
      → Filled of_row
          (a * 0x10 + b)
          (a * 0x10 + b + 1)
          t
          (pack (a * 0x10 + b) skip true 0 0 (elements steps skip tbl count a b) t)
  one-Filled a b t h l z =
      let row : ℕ = a * 0x10 + b in
      let high : row / 0x10 ≡ a = omega (arith, l) in
      let low : row % 0x10 ≡ b = omega (arith, l) in
      Filled-Packs of_row row t _ (omega (arith, h, l)) (
        rw (high, low)
          (row-Packs row t (λ j. z row j (omega arith) (omega (arith, h, l))) skip
            (elements steps skip tbl count a b)))

  fill_row-Filled :
      (a left b : ℕ) (t : Words)
      → a < 0x10
      → b + left ≡ 0x10
      → Clear (a * 0x10 + b) t
      → Filled of_row (a * 0x10 + b) (a * 0x10 + 0x10) t (fill_row steps skip tbl count a left b t)
  unfolding fill_row
  fill_row-Filled a zero b t h e z =
      subst (λ n. Filled of_row (a * 0x10 + b) n t t) (omega (arith, e))
        (Filled-refl of_row (a * 0x10 + b) t)
  fill_row-Filled a (suc left) b t h e z =
      let u = pack (a * 0x10 + b) skip true 0 0 (elements steps skip tbl count a b) t in
      let f = one-Filled a b t h (omega (arith, e)) z in
      let next : ◌≡◌ {A = ℕ} (a * 0x10 + b + 1) (a * 0x10 + (b + 1)) = omega arith in
      let f' = subst (λ n. Filled of_row (a * 0x10 + b) n t u) next f in
      Filled-trans of_row (a * 0x10 + b) (a * 0x10 + (b + 1)) (a * 0x10 + 0x10) t u _ (omega arith)
        (omega (arith, e)) (omega (arith, h)) f'
        (fill_row-Filled a left (b + 1) u h (omega (arith, e))
          (Filled-Clear (a * 0x10 + b) (a * 0x10 + (b + 1)) t u (omega arith) f' z))

  pub fill_rows-Filled :
      (left a : ℕ) (t : Words)
      → a + left ≡ 0x10
      → Clear (a * 0x10) t
      → Filled of_row (a * 0x10) 0x100 t (fill_rows steps skip tbl count left a t)
  unfolding fill_rows
  fill_rows-Filled zero a t e z =
      subst (λ n. Filled of_row (a * 0x10) n t t) (omega (arith, e))
        (Filled-refl of_row (a * 0x10) t)
  fill_rows-Filled (suc left) a t e z =
      let u = fill_row steps skip tbl count a 0x10 0 t in
      let same : ◌≡◌ {A = ℕ} (a * 0x10 + 0) (a * 0x10) = omega arith in
      let next : ◌≡◌ {A = ℕ} (a * 0x10 + 0x10) ((a + 1) * 0x10) = omega arith in
      let f : Filled of_row (a * 0x10) ((a + 1) * 0x10) t u =
        subst (λ n. Filled of_row (a * 0x10) n t u) next
          (subst (λ n. Filled of_row n (a * 0x10 + 0x10) t u) same
            (fill_row-Filled a 0x10 0 t (omega (arith, e)) refl
              (λ r k g l. z r k (omega (arith, g)) l))) in
      Filled-trans of_row (a * 0x10) ((a + 1) * 0x10) 0x100 t u _ (omega arith) (omega (arith, e))
        (omega arith) f
        (fill_rows-Filled left (a + 1) u (omega (arith, e))
          (Filled-Clear (a * 0x10) ((a + 1) * 0x10) t u (omega arith) f z))
