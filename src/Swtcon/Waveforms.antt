-- ===== src/Swtcon/Waveforms.antt =====
-- libs/swtcon/Waveforms.cpp: the tables of a waveform file. The file in memory is a function from
-- offsets to bytes; like the code, the model does not check that a read lies in the file.
use r_m2_stuff_rocket.Base.{
  ℕ, zero, suc, Bool, true, not, Option, none, some, List, [], ◌∷◌, ◌++◌, ◌+◌, ◌*◌, ◌/◌, ◌%◌, ◌^◌,
  ◌==◌, ltb, leb, if◌then◌else◌,
}

abbrev pub Bytes : Type 0
Bytes = ℕ → ℕ

-- `*(uint32_t*)(data + at) & 0xffffff`, little-endian: the three low bytes.
abbrev read_u24 : Bytes → ℕ → ℕ
read_u24 bytes at_ = bytes at_ + bytes (at_ + 1) * 2 ^ 8 + bytes (at_ + 2) * 2 ^ 16

-- `getTablePtr`, as an offset into the file; `none` for the null pointer.
unfoldable pub get_table_ptr : Bytes → ℕ → ℕ → Option ℕ
get_table_ptr bytes mode temp =
    let mode_offset = read_u24 bytes 0x20 in
    let temp_offset = read_u24 bytes (mode_offset + mode * 4) in
    if ltb (bytes 0x25) mode
    then none
    else if ltb (bytes 0x26) temp
    then none
    else some (read_u24 bytes (temp_offset + temp * 4))

-- The four two-bit values that one element stands for: the four writes through `out`.
abbrev pub quad : ℕ → List ℕ
quad elem =
    elem % 4
    ∷ ((elem * 2 ^ 0x1c) % 2 ^ 32 / 2 ^ 0x1e)
    ∷ ((elem * 2 ^ 0x1a) % 2 ^ 32 / 2 ^ 0x1e)
    ∷ (elem / 2 ^ 6)
    ∷ []

-- The inner loop without a buffer, which only counts: two elements a round. `fuel` bounds the
-- rounds.
unfoldable pub count_run : ℕ → ℕ → ℕ → ℕ → ℕ
count_run zero length idx2 last_size = last_size
count_run (suc fuel) length idx2 last_size =
    let more = count_run fuel length (idx2 + 2) (last_size + 8) in
    if leb length (idx2 + 1)
    then last_size + 4
    else if ltb (idx2 + 2) length
    then more
    else last_size + 8

-- The inner loop with a buffer: the size so far, and what was written so far.
unfoldable pub write_run : ℕ → ℕ → ℕ → ℕ → ℕ → List ℕ → ℕ × List ℕ
write_run zero elem length idx2 last_size out = (last_size, out)
write_run (suc fuel) elem length idx2 last_size out =
    let more = write_run fuel elem length (idx2 + 1) (last_size + 4) (out ++ quad elem) in
    if ltb (idx2 + 1) length then more else (last_size + 4, out ++ quad elem)

-- One run, by whether there is a buffer.
unfoldable pub emit : ℕ → ℕ → ℕ → Option (List ℕ) → ℕ × Option (List ℕ)
emit elem length size none = (count_run length length 0 size, none)
emit elem length size (some out) =
    let (size', out') = write_run length elem length 0 size out in (size', some out')

-- The outer loop at the table's index `idx`, whose element is not the end mark. `counted` is
-- `notAtRowEnd`: an element is followed by its number of repetitions. `none`: out of fuel.
module _ (bytes : Bytes) (table : ℕ) where
  unfoldable pub decode : ℕ → Bool → ℕ → ℕ → Option (List ℕ) → Option (ℕ × Option (List ℕ))
  decode zero counted idx size out = none
  decode (suc fuel) counted idx size out =
      let elem = bytes (table + idx) in
      let toggles = bytes 0x29 == elem in
      let length = if counted then bytes (table + (idx + 1)) + 1 else 1 in
      let next = if toggles then idx + 1 else if counted then idx + 2 else idx + 1 in
      let emitted = if toggles then (size, out) else emit elem length size out in
      let counted' = if toggles then not counted else counted in
      let more = decode fuel counted' next emitted.0 emitted.1 in
      if bytes 0x28 == bytes (table + next) then some emitted else more

-- `getTableAt`: the size, or `none` in place of -1, within the fuel; and what is in the buffer.
abbrev pub read_table :
    ℕ → Bytes → Option ℕ → Option (List ℕ) → Option (Option (ℕ × Option (List ℕ)))
read_table fuel bytes none out = some none
read_table fuel bytes (some table) out =
    if bytes 0x28 == bytes table
    then some (some (0, out))
    else elim (decode bytes table fuel true 0 0 out) [ none ↦ none | some r ↦ some (some r) ]

unfoldable pub get_table_at :
    ℕ → Bytes → ℕ → ℕ → Option (List ℕ) → Option (Option (ℕ × Option (List ℕ)))
get_table_at fuel bytes mode temp out = read_table fuel bytes (get_table_ptr bytes mode temp) out

-- `getTemperatureIdx`; `below i` is `temp < globalTempTable[i * 26 + 1]`.
unfoldable pub find_temperature : ℕ → ℕ → (ℕ → Bool) → ℕ
find_temperature zero i below = 13
find_temperature (suc left) i below = if below i then i else find_temperature left (i + 1) below

unfoldable pub get_temperature_idx : (ℕ → Bool) → ℕ
get_temperature_idx below = find_temperature 14 0 below
