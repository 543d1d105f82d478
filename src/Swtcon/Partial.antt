-- ===== src/Swtcon/Partial.antt =====
-- libs/swtcon/Waveforms.cpp, `readWaveformTable`: the table for partial updates.
use r_m2_stuff_rocket.Base.{
  ℕ, zero, suc, Bool, true, false, List, [], ◌∷◌, ◌+◌, ◌*◌, ◌/◌, ◌%◌, ◌==◌, ◌≡◌, ◌≢◌, ◌≤◌, ◌<◌,
  ◌&&◌, if◌then◌else◌, get_or, length, take, drop, refl, ap, ◌∙◌, arith, Bool-cases, inl, inr,
}
use r_m2_stuff_rocket.Swtcon.Tables.{
  Words, store, Steps, column, elements, fill_rows, clear_row, clear_rows, make_entry,
}
use r_m2_stuff_rocket.Swtcon.Packing.{digits, weight, store_same, store_other}
use r_m2_stuff_rocket.Swtcon.Transitions.{kept, skip_zeros, word-get_or}
use r_m2_stuff_rocket.Swtcon.Filling.{fill_rows-Filled}

store_zero : (a : ℕ) (t : Words) (i : ℕ) → t i ≡ 0 → store a 0 t i ≡ 0
store_zero a t i h = ground arith

clear_row-zero : (left at_ : ℕ) (t : Words) (i : ℕ) → t i ≡ 0 → clear_row left at_ t i ≡ 0
unfolding clear_row
clear_row-zero zero at_ t i h = h
clear_row-zero (suc left) at_ t i h =
    clear_row-zero left (at_ + 0x11) (store at_ 0 t) i (store_zero at_ t i h)

clear_row-hit :
    (left at_ m : ℕ) (t : Words) (i : ℕ)
    → m < left
    → i ≡ at_ + m * 0x11
    → clear_row left at_ t i ≡ 0
unfolding clear_row
clear_row-hit zero at_ m t i h e = absurd (omega arith)
clear_row-hit (suc left) at_ zero t i h e =
    clear_row-zero left (at_ + 0x11) (store at_ 0 t) i (store_same at_ 0 t i (omega (arith, e)))
clear_row-hit (suc left) at_ (suc m) t i h e =
    clear_row-hit left (at_ + 0x11) m (store at_ 0 t) i (omega (arith, h)) (omega (arith, e))

clear_row-miss :
    (left at_ : ℕ) (t : Words) (i : ℕ)
    → ((m : ℕ) → m < left → i ≢ at_ + m * 0x11)
    → clear_row left at_ t i ≡ t i
unfolding clear_row
clear_row-miss zero at_ t i h = refl
clear_row-miss (suc left) at_ t i h =
    clear_row-miss left (at_ + 0x11) (store at_ 0 t) i
      (λ m l e. h (suc m) (omega (arith, l)) (omega (arith, e)))
    ∙ store_other at_ 0 t i (λ e. h 0 (omega arith) (omega (arith, e)))

clear_rows-zero : (left at_ : ℕ) (t : Words) (i : ℕ) → t i ≡ 0 → clear_rows left at_ t i ≡ 0
unfolding clear_rows
clear_rows-zero zero at_ t i h = h
clear_rows-zero (suc left) at_ t i h =
    clear_rows-zero left (at_ + 0x100) (clear_row 0x10 at_ t) i (clear_row-zero 0x10 at_ t i h)

clear_rows-hit :
    (left at_ k m : ℕ) (t : Words) (i : ℕ)
    → k < left
    → m < 0x10
    → i ≡ at_ + k * 0x100 + m * 0x11
    → clear_rows left at_ t i ≡ 0
unfolding clear_rows
clear_rows-hit zero at_ k m t i h l e = absurd (omega arith)
clear_rows-hit (suc left) at_ zero m t i h l e =
    clear_rows-zero left (at_ + 0x100) (clear_row 0x10 at_ t) i
      (clear_row-hit 0x10 at_ m t i l (omega (arith, e)))
clear_rows-hit (suc left) at_ (suc k) m t i h l e =
    clear_rows-hit left (at_ + 0x100) k m (clear_row 0x10 at_ t) i (omega (arith, h)) l
      (omega (arith, e))

clear_rows-miss :
    (left at_ : ℕ) (t : Words) (i : ℕ)
    → ((k m : ℕ) → k < left → m < 0x10 → i ≢ at_ + k * 0x100 + m * 0x11)
    → clear_rows left at_ t i ≡ t i
unfolding clear_rows
clear_rows-miss zero at_ t i h = refl
clear_rows-miss (suc left) at_ t i h =
    clear_rows-miss left (at_ + 0x100) (clear_row 0x10 at_ t) i
      (λ k m l g e. h (suc k) m (omega (arith, l)) g (omega (arith, e)))
    ∙ clear_row-miss 0x10 at_ t i (λ m l e. h 0 m (omega arith) l (omega (arith, e)))

length-column :
    (size : ℕ) (tbl : List ℕ) (at_ count : ℕ) → length (column size tbl at_ count) ≡ count
unfolding column
length-column size tbl at_ zero = refl
length-column size tbl at_ (suc count) = ap suc (length-column size tbl (at_ + size) count)

length-skip_zeros : (xs : List ℕ) → length (skip_zeros xs) ≤ length xs
length-skip_zeros [] = omega arith
length-skip_zeros (x ∷ xs) = elim (Bool-cases (x % 4 == 0)) [
  | inl e ↦ rw e (omega (arith, length-skip_zeros xs))
  | inr e ↦ rw e (omega arith)
]

length-kept : (skip : Bool) (xs : List ℕ) → length (kept skip xs) ≤ length xs
length-kept false xs = omega arith
length-kept true xs = length-skip_zeros xs

diagonal : (a b n : ℕ) → a == b ≡ true → a * 0x10 + b + n * 0x100 ≡ 0 + n * 0x100 + a * 0x11
diagonal a b n d = let e : a ≡ b = ground arith in omega (arith, e)

off_diagonal :
    (a b n k m : ℕ)
    → a < 0x10
    → b < 0x10
    → a == b ≡ false
    → m < 0x10
    → a * 0x10 + b + n * 0x100 ≡ 0 + k * 0x100 + m * 0x11
    → ⊥
off_diagonal a b n k m g l d h q =
    let e : a ≢ b = ground arith in
    let row : a * 0x10 + b ≡ m * 0x11 = omega (arith, g, l, h, q) in e (omega (arith, row, l, h))

-- In the table that `readWaveformTable` makes from a decoded table, the word of the transition from one
-- gray level to another that the element falls in has the element's two bits at its place, eight
-- elements to a word, for each element that is kept: all of them, or those from the first that does
-- something on. The partial table has the same words, but, where it is a table of its own, zeros for
-- the transitions from a level to itself.
pub make_entry-transitions :
    (steps : Steps) (separate skip : Bool) (tbl : List ℕ) (size a b i : ℕ)
    → a < 0x10
    → b < 0x10
    → i < length (kept skip (elements steps skip tbl (size / steps.size) a b))
    → ((make_entry steps separate skip tbl size).whole (a * 0x10 + b + i / 8 * 0x100)
          / weight (i % 8)
          % 4
        ≡ get_or (kept skip (elements steps skip tbl (size / steps.size) a b)) i 0 % 4)
      × ((make_entry steps separate skip tbl size).partial (a * 0x10 + b + i / 8 * 0x100) ≡ (
          if separate && a == b
          then 0
          else (make_entry steps separate skip tbl size).whole (a * 0x10 + b + i / 8 * 0x100)))
unfolding make_entry
make_entry-transitions steps separate skip tbl size a b i h l s =
    let count : ℕ = size / steps.size in
    let row : ℕ = a * 0x10 + b in
    let whole = fill_rows steps skip tbl count 0x10 0 (λ i. 0) in
    let f = fill_rows-Filled steps skip tbl count 0x10 0 (λ i. 0) refl (λ r k g l. refl) in
    let high : row / 0x10 ≡ a = omega (arith, l) in
    let low : row % 0x10 ≡ b = omega (arith, l) in
    let word = f.words row (i / 8) (omega arith) (omega (arith, h, l)) in
    let early : i < count = omega (
      arith,
      s,
      length-kept skip (elements steps skip tbl count a b),
      length-column steps.size tbl (a * steps.inc1 + b * steps.inc2) count,
    ) in
    (
      ap (λ n. n / weight (i % 8) % 4)
            (word
              ∙ ap (λ xs. digits (take 8 (drop (8 * (i / 8)) xs)))
                  (λ j. kept skip (elements steps skip tbl count (high j) (low j))))
          ∙ word-get_or (kept skip (elements steps skip tbl count a b)) i,
      elim (Bool-cases separate) [
        | inr e ↦ rw e refl
        | inl e ↦ elim (Bool-cases (a == b)) [
          | inl d ↦
              rw (e, d)
                (clear_rows-hit ((count + 7) / 8) 0 (i / 8) a whole (row + i / 8 * 0x100)
                  (omega (arith, early)) h (diagonal a b (i / 8) d))
          | inr d ↦
              rw (e, d)
                (clear_rows-miss ((count + 7) / 8) 0 whole (row + i / 8 * 0x100)
                  (λ k m g n q. off_diagonal a b (i / 8) k m h l d n q))
        ]
      ],
    )
