-- ===== src/Swtcon/PanBuffer.antt =====
-- libs/swtcon/fb.cpp: the buffer that is panned to the display, filled with one value for all pixels, and the
-- power of the display. A buffer is a function from a line and a word of it to the word. What the system
-- answers to `ioctl` is a parameter.
use Prim.Native.Nat.{bit_or, bit_and}
use r_m2_stuff_rocket.Base.{
  ℕ, zero, suc, Bool, true, false, Option, none, some, List, ◌∷◌, ◌+◌, ◌*◌, ◌%◌, ◌==◌, not, ltb,
  if◌then◌else◌,
}

-- `pan_line_size / sizeof(uint32_t)`, and `SCREEN_WIDTH`.
abbrev pub line_words : ℕ
line_words = 260

abbrev pub screen_width : ℕ
screen_width = 1404

abbrev pub put : ℕ → ℕ → (ℕ → ℕ) → ℕ → ℕ
put i w line = λ j. if j == i then w else line j

-- The loop from 0 that sets each word.
unfoldable pub fill_words : ℕ → ℕ → (ℕ → ℕ) → ℕ → ℕ
fill_words zero w line = line
fill_words (suc n) w line = put n w (fill_words n w line)

-- The loops from `start` over that many words.
unfoldable pub or_in_range : ℕ → ℕ → ℕ → (ℕ → ℕ) → ℕ → ℕ
or_in_range value start zero line = line
or_in_range value start (suc n) line =
    or_in_range value (start + 1) n (put start (bit_or (line start) value) line)

unfoldable pub and_in_range : ℕ → ℕ → ℕ → (ℕ → ℕ) → ℕ → ℕ
and_in_range value start zero line = line
and_in_range value start (suc n) line =
    and_in_range value (start + 1) n (put start (bit_and (line start) value) line)

unfoldable pub fill_first_line : (ℕ → ℕ) → ℕ → ℕ
fill_first_line line =
    and_in_range 0xfffdffff 40 63 (or_in_range 0x40000 20 123 (fill_words line_words 0x430000 line))

-- `none` is a negative value.
unfoldable pub fill_line : Option ℕ → (ℕ → ℕ) → ℕ → ℕ
fill_line value line =
    let signals =
      or_in_range 0x20000 0x37 200
        (or_in_range 0x200000 8 0xb (fill_words line_words 0x410000 line)) in
    elim value [
      | none ↦ signals
      | some v ↦ or_in_range (v % 0x10000) 0x1a 0xea (or_in_range 0x100000 0x1a 0xea signals)
    ]

abbrev pub put_line : ℕ → (ℕ → ℕ) → (ℕ → ℕ → ℕ) → ℕ → ℕ → ℕ
put_line i line buffer = λ row. if row == i then line else buffer row

-- `memcpy` of the words of a line over those of another one.
abbrev copy_words : (ℕ → ℕ) → (ℕ → ℕ) → ℕ → ℕ
copy_words from line = λ j. if ltb j line_words then from j else line j

-- The loop that copies line 3 to the lines from 4 on.
unfoldable pub copy_lines : ℕ → (ℕ → ℕ → ℕ) → ℕ → ℕ → ℕ
copy_lines zero buffer = buffer
copy_lines (suc n) buffer =
    let b = copy_lines n buffer in put_line (4 + n) (copy_words (b 3) (b (4 + n))) b

unfoldable pub fill_pan_buffer : Option ℕ → (ℕ → ℕ → ℕ) → ℕ → ℕ → ℕ
fill_pan_buffer value b0 =
    let b1 = put_line 0 (fill_first_line (b0 0)) b0 in
    let b2 = put_line 1 (fill_line none (b1 1)) b1 in
    let b3 = put_line 2 (fill_line none (b2 2)) b2 in
    let b4 = put_line 3 (fill_line value (b3 3)) b3 in copy_lines screen_width b4

-- The display: `isBlanked`, and the requests made of it, newest first.
pub data FbRequest : Type 0 where
  set_offset pan_to : ℕ → FbRequest
  unblank_request blank_request : FbRequest

pub record Power : Type 0 where
  pub is_blanked : Bool
  pub asked : List FbRequest

abbrev pub ask : FbRequest → Power → Power
ask r p = record p { asked = r ∷ p.asked }

abbrev pub pan_offset : ℕ → ℕ
pan_offset n = n * 0x580

-- Whether the request succeeds, after those made before it.
module _ (answers : List FbRequest → FbRequest → Bool) where
  -- The loop of `unblank`, with the rounds that are left.
  unfoldable pub try_unblank : ℕ → Power → Bool × Power
  try_unblank zero p = (false, p)
  try_unblank (suc n) p =
      let rest = try_unblank n (ask unblank_request p) in
      if answers p.asked unblank_request then (true, ask unblank_request p) else rest

  unfoldable pub unblank : ℕ → Power → ℕ × Power
  unblank n p =
      let set = ask (set_offset (pan_offset n)) p in
      let (succeeded, q) = try_unblank 5 set in
      if not p.is_blanked
      then (1, p)
      else if not (answers p.asked (set_offset (pan_offset n)))
      then (1, set)
      else if not succeeded
      then (1, q)
      else (0, record q { is_blanked = false })

  unfoldable pan : ℕ → Power → ℕ × Power
  pan n p = let r = pan_to (pan_offset n) in (if answers p.asked r then 0 else 1, ask r p)

  unfoldable pub blank : Power → ℕ × Power
  blank p = (
    if answers p.asked blank_request then 0 else 1,
    ask blank_request (record p { is_blanked = true }),
  )
