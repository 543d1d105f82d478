-- ===== src/Swtcon/Barcode.antt =====
-- libs/swtcon/Waveforms.cpp, `decodeBarcode`: the lot of the display from its serial number.
use r_m2_stuff_rocket.Base.{
  ℕ, Bool, true, false, false, not, Option, none, some, List, ◌+◌, ◌-◌, ◌*◌, ◌%◌, ◌<◌, ◌≤◌, ◌==◌,
  ◌≡◌, refl, ◌∙◌, sym, arith, ltb, if◌then◌else◌, length, get_or, All, All-get_or, ap,
}

-- `(c - from) & 0xFF`, for a character `c`.
abbrev offset_from : ℕ → ℕ → ℕ
offset_from from c = (c + 256 - from) % 256

-- The decade of the lot, from the letter; `none` where the code returns -1.
unfoldable pub decade : ℕ → Option ℕ
decade master =
    if ltb (offset_from b'A' master) 8
    then some ((master - b'A') * 10 + 100)
    else if ltb (offset_from b'J' master) 5
    then some ((master - b'J') * 10 + 180)
    else if ltb (offset_from b'Q' master) 10
    then some ((master - b'Q') * 10 + 230)
    else if not (master == b'0')
    then none
    else some 0

abbrev add_digit : ℕ → Option ℕ → Option ℕ
add_digit second none = none
add_digit second (some result) =
    if not (ltb (offset_from b'0' second) 10) then none else some (result + (second - b'0'))

unfoldable pub decode_barcode : List ℕ → Option ℕ
decode_barcode epd_serial =
    if not (length epd_serial == 25)
    then none
    else add_digit (get_or epd_serial 8 0) (decade (get_or epd_serial 7 0))

decade-range : (a d : ℕ) → a < 256 → decade a ≡ some d → (d < 330) × (d % 10 ≡ 0)
unfolding decade
decade-range a d la h = ground arith

decade-inj : (a b d : ℕ) → a < 256 → b < 256 → decade a ≡ some d → decade b ≡ some d → a ≡ b
unfolding decade
decade-inj a b d la lb ha hb = ground arith

char_lt : (serial : List ℕ) (i : ℕ) → All (λ c. c < 256) serial → get_or serial i 0 < 256
char_lt serial i b = All-get_or (λ c. c < 256) serial i 0 (omega arith) b

-- The decade and the digit that a lot came from.
add_digit-inv :
    (second : ℕ) (d : Option ℕ) (lot : ℕ)
    → second < 256
    → add_digit second d ≡ some lot
    → (n : ℕ) × (d ≡ some n) × (lot ≡ n + (second - b'0')) × (b'0' ≤ second) × (second < b'0' + 10)
add_digit-inv second none lot l h = ground arith
add_digit-inv second (some n) lot l h = (n, refl, ground arith, ground arith, ground arith)

from_test :
    (t : Bool) (o : Option ℕ) (lot : ℕ) → (if not t then none else o) ≡ some lot → o ≡ some lot
from_test true o lot h = h
from_test false o lot h = ground arith

-- The lot of a serial number, by the two characters that stand for it.
decode_barcode-parts :
    (serial : List ℕ) (lot : ℕ)
    → decode_barcode serial ≡ some lot
    → add_digit (get_or serial 8 0) (decade (get_or serial 7 0)) ≡ some lot
unfolding decode_barcode
decode_barcode-parts serial lot h = from_test (length serial == 25) _ lot h

-- Two serial numbers whose characters are bytes and that `decodeBarcode` accepts with the same lot
-- have the same letter (character 7) and the same digit (character 8), and the lot is below 330.
pub decode_barcode-inj :
    (serial serial' : List ℕ) (lot : ℕ)
    → All (λ c. c < 256) serial
    → All (λ c. c < 256) serial'
    → decode_barcode serial ≡ some lot
    → decode_barcode serial' ≡ some lot
    → (get_or serial 7 0 ≡ get_or serial' 7 0)
      × (get_or serial 8 0 ≡ get_or serial' 8 0)
      × (lot < 330)
decode_barcode-inj serial serial' lot b b' h h' =
    let (d, e, l, ge, lt) =
      add_digit-inv _ _ lot (char_lt serial 8 b) (decode_barcode-parts serial lot h) in
    let (d', e', l', ge', lt') =
      add_digit-inv _ _ lot (char_lt serial' 8 b') (decode_barcode-parts serial' lot h') in
    let r = decade-range _ d (char_lt serial 7 b) e in
    let r' = decade-range _ d' (char_lt serial' 7 b') e' in
    let same : d ≡ d' = ground arith in
    (
      decade-inj _ _ d (char_lt serial 7 b) (char_lt serial' 7 b') e (e' ∙ ap some (sym same)),
      ground arith,
      ground arith,
    )
