-- ===== src/Yaft/Tables.antt =====
-- apps/yaft/keyboard.cpp and layout.cpp: the key under a finger.
use r_m2_stuff_rocket.Base.{
  ℕ, ◌+◌, ◌≤◌, ◌<◌, some, List, [], ◌∷◌, ◌≡◌, refl, arith, All, All-map, length, leb, ltb, ◌&&◌,
  Bool-cases, inl, inr,
}
use r_m2_stuff_rocket.Yaft.Layout.{KeyInfo, row_width, num_cols, qwerty_layout}
use r_m2_stuff_rocket.Yaft.Keyboard.{find_column}

-- A key of the row was found for the column, by its index from `i`.
record Found (column : ℕ) (row : List KeyInfo) (i counter : ℕ) : Type 0 where
  index : ℕ
  pub found : find_column column row i counter ≡ some index
  lower : i ≤ index
  upper : index < i + length row

find_column-Found :
    (column : ℕ) (row : List KeyInfo) (i counter : ℕ)
    → counter ≤ column
    → column < counter + row_width row
    → Found column row i counter
unfolding find_column
find_column-Found column [] i counter lo hi = absurd (omega arith)
find_column-Found column (k ∷ row) i counter lo hi =
    elim (Bool-cases (leb counter column && ltb column (counter + k.width))) [
      | inl e ↦ record { index = i; found = ground arith; lower = omega arith; upper = omega arith }
      | inr e ↦
          let rest =
            find_column-Found column row (i + 1) (counter + k.width) (ground arith) (omega arith) in
          record {
            index = rest.index;
            found = ground (arith, rest.found);
            lower = omega (arith, rest.lower);
            upper = omega (arith, rest.upper);
          }
    ]

-- The assertion of `numCols`: the rows of the layout are equally wide.
qwerty-widths : All (λ row. row_width row ≡ num_cols qwerty_layout) qwerty_layout
unfolding qwerty_layout num_cols
qwerty-widths = (refl, (refl, (refl, (refl, (refl, (refl, tt))))))

-- For every column below the number of columns of the qwerty layout and each of its rows, the loop
-- of `getKey` finds a key, whose index lies in the row.
qwerty-Found :
    (column : ℕ) → column < num_cols qwerty_layout → All (λ row. Found column row 0 0) qwerty_layout
qwerty-Found column h =
    All-map _ _ (λ row e. find_column-Found column row 0 0 (omega arith) (omega arith))
      qwerty_layout qwerty-widths
