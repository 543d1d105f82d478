-- ===== src/Swtcon/Tables.antt =====
-- libs/swtcon/Waveforms.cpp, `readWaveformTable`: the elements of a table, two bits each, packed into
-- 16-bit words by the transition from one gray to another. A table in memory is a function from
-- indices to words.
use r_m2_stuff_rocket.Base.{
  ℕ, zero, suc, Bool, true, false, Option, none, some, List, [], ◌∷◌, ◌+◌, ◌*◌, ◌/◌, ◌%◌, ◌^◌, ◌==◌,
  ◌&&◌, not, if◌then◌else◌, get_or,
}
use r_m2_stuff_rocket.Swtcon.Waveforms.{Bytes, get_table_at}

abbrev pub Words : Type 0
Words = ℕ → ℕ

abbrev pub store : ℕ → ℕ → Words → Words
store at_ v t i = if i == at_ then v else t i

abbrev is_last : List ℕ → Bool
is_last [] = true
is_last (e ∷ es) = false

-- `inInit` after an element.
abbrev pub still_init : Bool → Bool → ℕ → Bool
still_init skip in_init e = if skip then (if e % 4 == 0 then in_init else false) else in_init

-- `uVar6` after an element; the bits of the two do not overlap, so that `|` is `+`.
abbrev pub packed : ℕ → ℕ → ℕ → ℕ
packed n acc e = (acc + e % 4 * 2 ^ (n % 8 * 2)) % 2 ^ 16

-- The innermost loop, over the elements of one transition: `n` is `uVar8`, `acc` is `uVar6`.
unfoldable pub pack : ℕ → Bool → Bool → ℕ → ℕ → List ℕ → Words → Words
pack row skip in_init n acc [] t = t
pack row skip in_init n acc (e ∷ es) t =
    let in_init' = still_init skip in_init e in
    let skips = skip && in_init' in
    let acc' = packed n acc e in
    let full = (n + 1) % 8 == 0 in
    let waits = not full && not (is_last es) in
    let n' = if skips then n else n + 1 in
    let acc'' = if skips then acc else if waits then acc' else 0 in
    let t' = if skips then t else if waits then t else store (row + n / 8 * 0x100) acc' t in
    pack row skip in_init' n' acc'' es t'

-- The element of a table that begins at this offset, and those that follow it at a distance.
unfoldable pub column : ℕ → List ℕ → ℕ → ℕ → List ℕ
column size tbl at_ zero = []
column size tbl at_ (suc count) = get_or tbl at_ 0 ∷ column size tbl (at_ + size) count

-- `ptr1Inc`, `ptr2Inc` and `elementSize`
pub record Steps : Type 0 where
  pub inc1 : ℕ
  pub inc2 : ℕ
  pub size : ℕ

abbrev pub narrow_steps : Steps
narrow_steps = record { inc1 = 1; inc2 = 0x10; size = 0x100 }

abbrev wide_steps : Steps
wide_steps = record { inc1 = 2; inc2 = 0x40; size = 0x400 }

-- `(data[0x24] & 0xc) == 4`: the third bit is set, the fourth is not.
unfoldable pub steps_of : Bytes → Steps
steps_of bytes = if bytes 0x24 / 4 % 4 == 1 then wide_steps else narrow_steps

module _ (steps : Steps) (skip : Bool) (tbl : List ℕ) (count : ℕ) where
  -- The elements of the transition at `idx1 / 0x10` and `idx2`.
  abbrev pub elements : ℕ → ℕ → List ℕ
  elements a b = column steps.size tbl (a * steps.inc1 + b * steps.inc2) count

  -- The loop over `idx2`, with the rounds that are left.
  unfoldable pub fill_row : ℕ → ℕ → ℕ → Words → Words
  fill_row a zero b t = t
  fill_row a (suc left) b t =
      fill_row a left (b + 1) (pack (a * 0x10 + b) skip true 0 0 (elements a b) t)

  -- The loop over `idx1`.
  unfoldable pub fill_rows : ℕ → ℕ → Words → Words
  fill_rows zero a t = t
  fill_rows (suc left) a t = fill_rows left (a + 1) (fill_row a 0x10 0 t)

-- The partial table: the words of the transitions that change nothing are cleared.
unfoldable pub clear_row : ℕ → ℕ → Words → Words
clear_row zero at_ t = t
clear_row (suc left) at_ t = clear_row left (at_ + 0x11) (store at_ 0 t)

unfoldable pub clear_rows : ℕ → ℕ → Words → Words
clear_rows zero at_ t = t
clear_rows (suc left) at_ t = clear_rows left (at_ + 0x100) (clear_row 0x10 at_ t)

-- The three values of a temperature and a waveform.
pub record Entry : Type 0 where
  pub count : ℕ
  pub whole : Words
  pub partial : Words

unfoldable pub make_entry : Steps → Bool → Bool → List ℕ → ℕ → Entry
make_entry steps separate skip tbl size =
    let count = size / steps.size in
    let whole = fill_rows steps skip tbl count 0x10 0 (λ i. 0) in
    record {
      count = count;
      whole = whole;
      partial = if separate then clear_rows ((count + 7) / 8) 0 whole else whole;
    }

-- The table in the file, read twice: `none` where the fuel ends, and where the code skips it.
unfoldable pub read_twice : ℕ → Bytes → ℕ → ℕ → Option (Option (List ℕ × ℕ))
read_twice fuel bytes mode temp = elim (get_table_at fuel bytes mode temp none) [
  | none ↦ none
  | some none ↦ some none
  | some (some (zero, o)) ↦ some none
  | some (some (suc size, o)) ↦ elim (get_table_at fuel bytes mode temp (some [])) [
    | none ↦ none
    | some none ↦ some none
    | some (some (size2, none)) ↦ some none
    | some (some (size2, some tbl)) ↦
        if suc size == size2 then some (some (tbl, size2)) else some none
  ]
]
