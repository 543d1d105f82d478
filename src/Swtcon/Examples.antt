-- ===== src/Swtcon/Examples.antt =====
-- The theorems on the waveform files at a small file and at two serial numbers.
use r_m2_stuff_rocket.Base.{
  ℕ, Bool, true, Option, none, some, List, [], ◌∷◌, ◌++◌, ◌*◌, ◌&&◌, All, ◌≡◌, ◌<◌, ltb, refl,
  arith, get_or, replicate, length, ◌+◌, ◌/◌, ◌%◌, ◌==◌, if◌then◌else◌,
}
use r_m2_stuff_rocket.Swtcon.Barcode.{decode_barcode, decade, decode_barcode-inj}
use r_m2_stuff_rocket.Swtcon.Waveforms.{Bytes, get_table_at, get_table_ptr, get_temperature_idx}
use r_m2_stuff_rocket.Swtcon.Decoder.{SameTable, get_table_at-agrees}
use r_m2_stuff_rocket.Swtcon.Termination.{get_table_at-terminates}
use r_m2_stuff_rocket.Swtcon.Temperature.{IsFirst, get_temperature_idx-IsFirst}
use r_m2_stuff_rocket.Swtcon.Tables.{narrow_steps, make_entry, elements, column}
use r_m2_stuff_rocket.Swtcon.Transitions.{kept}
use r_m2_stuff_rocket.Swtcon.Packing.{weight}
use r_m2_stuff_rocket.Swtcon.Partial.{make_entry-transitions}
use r_m2_stuff_rocket.Swtcon.Loading.{Tables}
use r_m2_stuff_rocket.Swtcon.PanBuffer.{
  set_offset, pan_offset, fill_pan_buffer, screen_width, unblank, Power,
}
use r_m2_stuff_rocket.Swtcon.PanLines.{first_word, signals_word, line_word, fill_pan_buffer-word}
use r_m2_stuff_rocket.Swtcon.Power.{Unblanks, unblank-Unblanks}

-- The offsets of modes at 0x40, of temperatures at 0x44, and the table at 0x48: element 0x1b twice,
-- a row end, element 0xe4 once, and the end mark 0xff, twice. The row-end mark is 0xfe.
abbrev file : Bytes
file = get_or_zero (
    replicate 0x20 0
    ++ (0x40 ∷ 0 ∷ 0 ∷ 0 ∷ 0 ∷ 0 ∷ 0 ∷ 0 ∷ 0xff ∷ 0xfe ∷ [])
    ++ replicate 0x16 0
    ++ (0x44 ∷ 0 ∷ 0 ∷ 0 ∷ 0x48 ∷ 0 ∷ 0 ∷ 0 ∷ 0x1b ∷ 1 ∷ 0xfe ∷ 0xe4 ∷ 0xff ∷ 0xff ∷ []))
  where
    get_or_zero : List ℕ → ℕ → ℕ
    get_or_zero bytes i = get_or bytes i 0

table_found : get_table_ptr file 0 0 ≡ some 0x48
unfolding get_table_ptr
table_found = refl

get_table_at-agrees_example :
    SameTable (get_table_at 9 file 0 0 none) (get_table_at 9 file 0 0 (some []))
get_table_at-agrees_example = get_table_at-agrees 9 file 0 0

get_table_at-terminates_example :
    (r : ℕ × Option (List ℕ)) × (get_table_at 4 file 0 0 (some []) ≡ some (some r))
get_table_at-terminates_example =
    get_table_at-terminates 4 file 0 0 0x48 4 (some []) table_found refl refl (omega arith)

abbrev below : ℕ → Bool
below i = ltb 21 (3 * i)

get_temperature_idx-IsFirst_example : IsFirst below 0 (get_temperature_idx below)
get_temperature_idx-IsFirst_example = get_temperature_idx-IsFirst below

abbrev serial : List ℕ
serial = replicate 7 0x30 ++ (b'M' ∷ b'4' ∷ []) ++ replicate 16 0x31

abbrev other_serial : List ℕ
other_serial = replicate 7 0x39 ++ (b'M' ∷ b'4' ∷ []) ++ replicate 16 0x32

serial_lot : decode_barcode serial ≡ some 214
unfolding decode_barcode decade
serial_lot = refl

other_serial_lot : decode_barcode other_serial ≡ some 214
unfolding decode_barcode decade
other_serial_lot = refl

abbrev are_bytes : List ℕ → Bool
are_bytes [] = true
are_bytes (c ∷ cs) = ltb c 256 && are_bytes cs

of_are_bytes : (cs : List ℕ) → are_bytes cs ≡ true → All (λ c. c < 256) cs
of_are_bytes [] h = tt
of_are_bytes (c ∷ cs) h = (ground arith, of_are_bytes cs (ground arith))

decode_barcode-inj_example :
    (get_or serial 7 0 ≡ get_or other_serial 7 0)
    × (get_or serial 8 0 ≡ get_or other_serial 8 0)
    × (214 < 330)
decode_barcode-inj_example =
    decode_barcode-inj serial other_serial 214 (of_are_bytes serial refl)
      (of_are_bytes other_serial refl) serial_lot other_serial_lot

-- Two elements, each of which turns every gray level on.
abbrev small_table : List ℕ
small_table = replicate 0x200 2

small_kept : 1 < length (kept true (elements narrow_steps true small_table (0x200 / 0x100) 3 5))
unfolding column
small_kept = omega arith

make_entry-transitions_example :
    ((make_entry narrow_steps true true small_table 0x200).whole (3 * 0x10 + 5 + 1 / 8 * 0x100)
        / weight (1 % 8)
        % 4
      ≡ get_or (kept true (elements narrow_steps true small_table (0x200 / 0x100) 3 5)) 1 0 % 4)
    × ((make_entry narrow_steps true true small_table 0x200).partial (3 * 0x10 + 5 + 1 / 8 * 0x100)
        ≡ (if true && 3 == 5
            then 0
            else (make_entry narrow_steps true true small_table 0x200).whole
                (3 * 0x10 + 5 + 1 / 8 * 0x100)))
make_entry-transitions_example =
    make_entry-transitions narrow_steps true true small_table 0x200 3 5 1 (omega arith)
      (omega arith) small_kept

-- Two modes with the same table for their one temperature.
abbrev two_modes : Bytes
two_modes i =
    get_or
      (replicate 0x20 0
        ++ (0x40 ∷ 0 ∷ 0 ∷ 0 ∷ 0 ∷ 1 ∷ 0 ∷ 0 ∷ 0xff ∷ 0xfe ∷ [])
        ++ replicate 0x16 0
        ++ (0x48 ∷ 0 ∷ 0 ∷ 0 ∷ 0x48 ∷ 0 ∷ 0 ∷ 0 ∷ 0x4c ∷ 0 ∷ 0 ∷ 0 ∷ 0x1b ∷ 1 ∷ 0xfe ∷ 0xe4 ∷ 0xff
            ∷ 0xff ∷ []))
      i 0

abbrev no_tables : Tables
no_tables = record { init = λ t. none; entries = λ i t. none }

fill_pan_buffer-word_example : fill_pan_buffer (some 0x5555) (λ i j. 0) 700 30 ≡ (
    if 700 == 0
    then first_word 30
    else if ltb 700 3
    then signals_word 30
    else if ltb 700 (4 + screen_width)
    then line_word (some 0x5555) 30
    else 0)
fill_pan_buffer-word_example = fill_pan_buffer-word (some 0x5555) (λ i j. 0) 700 30 (omega arith)

abbrev blanked : Power
blanked = record { is_blanked = true; asked = [] }

-- The third request succeeds, and every one after it.
unblank-Unblanks_example :
    Unblanks
      (λ asked r. ltb 1 (length asked))
      (set_offset (pan_offset 16))
      blanked
      (unblank (λ asked r. ltb 1 (length asked)) 16 blanked)
unblank-Unblanks_example = unblank-Unblanks (λ asked r. ltb 1 (length asked)) 16 blanked
