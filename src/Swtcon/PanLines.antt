-- ===== src/Swtcon/PanLines.antt =====
-- libs/swtcon/fb.cpp: the words of the buffer that is panned to the display.
use Prim.Native.Nat.{bit_or, bit_and}
use r_m2_stuff_rocket.Base.{
  ℕ, zero, suc, Bool, true, false, Option, none, some, ◌+◌, ◌%◌, ◌==◌, ◌&&◌, ◌≡◌, ◌<◌, refl, ap,
  ◌∙◌, arith, ltb, leb, Bool-cases, inl, inr, if◌then◌else◌,
}
use r_m2_stuff_rocket.Swtcon.PanBuffer.{
  line_words, screen_width, put, fill_words, or_in_range, and_in_range, fill_first_line, fill_line,
  put_line, copy_lines, fill_pan_buffer,
}

abbrev is_between : ℕ → ℕ → ℕ → Bool
is_between a b j = leb a j && ltb j b

fill_words-word :
    (n w : ℕ) (line : ℕ → ℕ) (j : ℕ) → fill_words n w line j ≡ (if ltb j n then w else line j)
unfolding fill_words
fill_words-word zero w line j = ground arith
fill_words-word (suc n) w line j = ground (arith, fill_words-word n w line j)

-- One round of a loop, and those after it.
range_step :
    (op : ℕ → ℕ) (start n : ℕ) (line : ℕ → ℕ) (j : ℕ)
    → (if is_between (start + 1) (start + 1 + n) j
        then op (put start (op (line start)) line j)
        else put start (op (line start)) line j)
      ≡ (if is_between start (start + suc n) j then op (line j) else line j)
range_step op start n line j = elim (Bool-cases (j == start)) [
  | inl e ↦
      let p : start ≡ j = ground (arith, e) in
      let after : is_between (start + 1) (start + 1 + n) j ≡ false = ground (arith, p) in
      let now : is_between start (start + suc n) j ≡ true = ground (arith, p) in
      rw (e, after, now) (ap (λ i. op (line i)) p)
  | inr e ↦
      let same : is_between (start + 1) (start + 1 + n) j ≡ is_between start (start + suc n) j =
        ground (arith, e) in
      rw (e, same) refl
]

or_in_range-word :
    (value start n : ℕ) (line : ℕ → ℕ) (j : ℕ)
    → or_in_range value start n line j
      ≡ (if is_between start (start + n) j then bit_or (line j) value else line j)
unfolding or_in_range
or_in_range-word value start zero line j = ground arith
or_in_range-word value start (suc n) line j =
    or_in_range-word value (start + 1) n (put start (bit_or (line start) value) line) j
    ∙ range_step (λ w. bit_or w value) start n line j

and_in_range-word :
    (value start n : ℕ) (line : ℕ → ℕ) (j : ℕ)
    → and_in_range value start n line j
      ≡ (if is_between start (start + n) j then bit_and (line j) value else line j)
unfolding and_in_range
and_in_range-word value start zero line j = ground arith
and_in_range-word value start (suc n) line j =
    and_in_range-word value (start + 1) n (put start (bit_and (line start) value) line) j
    ∙ range_step (λ w. bit_and w value) start n line j

-- The signals of a line, each with the words in which it is on.
abbrev signal : ℕ → ℕ → ℕ → ℕ → ℕ
signal bit a b j = if is_between a b j then bit else 0

abbrev pub first_word : ℕ → ℕ
first_word j = 0x410000 + signal 0x40000 20 143 j + (if is_between 40 103 j then 0 else 0x20000)

abbrev pub signals_word : ℕ → ℕ
signals_word j = 0x410000 + signal 0x200000 8 19 j + signal 0x20000 55 255 j

-- The words of the lines of pixels, or of those without.
abbrev pub line_word : Option ℕ → ℕ → ℕ
line_word none j = signals_word j
line_word (some v) j =
    if is_between 26 260 j then bit_or (signals_word j + 0x100000) (v % 0x10000) else signals_word j

first_bits :
    (a b : Bool)
    → (if b
        then bit_and (if a then bit_or 0x430000 0x40000 else 0x430000) 0xfffdffff
        else (if a then bit_or 0x430000 0x40000 else 0x430000))
      ≡ 0x410000 + (if a then 0x40000 else 0) + (if b then 0 else 0x20000)
first_bits true true = refl
first_bits true false = refl
first_bits false true = refl
first_bits false false = refl

fill_first_line-word :
    (line : ℕ → ℕ) (j : ℕ) → ltb j line_words ≡ true → fill_first_line line j ≡ first_word j
unfolding fill_first_line
fill_first_line-word line j h =
    rw
      (
        and_in_range-word 0xfffdffff 40 63
            (or_in_range 0x40000 20 123 (fill_words line_words 0x430000 line)) j,
        or_in_range-word 0x40000 20 123 (fill_words line_words 0x430000 line) j,
        fill_words-word line_words 0x430000 line j,
        h,
      )
      (first_bits (is_between 20 143 j) (is_between 40 103 j))

signals_bits :
    (a b : Bool)
    → (if b
        then bit_or (if a then bit_or 0x410000 0x200000 else 0x410000) 0x20000
        else (if a then bit_or 0x410000 0x200000 else 0x410000))
      ≡ 0x410000 + (if a then 0x200000 else 0) + (if b then 0x20000 else 0)
signals_bits true true = refl
signals_bits true false = refl
signals_bits false true = refl
signals_bits false false = refl

signals-word :
    (line : ℕ → ℕ) (j : ℕ) → ltb j line_words ≡ true → fill_line none line j ≡ signals_word j
unfolding fill_line
signals-word line j h =
    rw
      (
        or_in_range-word 0x20000 0x37 200
            (or_in_range 0x200000 8 0xb (fill_words line_words 0x410000 line)) j,
        or_in_range-word 0x200000 8 0xb (fill_words line_words 0x410000 line) j,
        fill_words-word line_words 0x410000 line j,
        h,
      )
      (signals_bits (is_between 8 19 j) (is_between 55 255 j))

pixel_bits :
    (a b : Bool)
    → bit_or (0x410000 + (if a then 0x200000 else 0) + (if b then 0x20000 else 0)) 0x100000
      ≡ 0x410000 + (if a then 0x200000 else 0) + (if b then 0x20000 else 0) + 0x100000
pixel_bits true true = refl
pixel_bits true false = refl
pixel_bits false true = refl
pixel_bits false false = refl

if_twice :
    (c : Bool) (w v : ℕ)
    → (if c
        then bit_or (if c then bit_or w 0x100000 else w) v
        else (if c then bit_or w 0x100000 else w))
      ≡ (if c then bit_or (bit_or w 0x100000) v else w)
if_twice true w v = refl
if_twice false w v = refl

fill_line-word :
    (value : Option ℕ) (line : ℕ → ℕ) (j : ℕ)
    → ltb j line_words ≡ true
    → fill_line value line j ≡ line_word value j
unfolding fill_line
fill_line-word none line j h = signals-word line j h
fill_line-word (some v) line j h =
    or_in_range-word (v % 0x10000) 0x1a 0xea (or_in_range 0x100000 0x1a 0xea (fill_line none line))
      j
    ∙ rw (or_in_range-word 0x100000 0x1a 0xea (fill_line none line) j, signals-word line j h)
        (if_twice (is_between 26 260 j) (signals_word j) (v % 0x10000)
          ∙ ap (λ w. if is_between 26 260 j then bit_or w (v % 0x10000) else signals_word j)
              (pixel_bits (is_between 8 19 j) (is_between 55 255 j)))

put_line-word :
    (k : ℕ) (line : ℕ → ℕ) (b : ℕ → ℕ → ℕ) (i j : ℕ)
    → put_line k line b i j ≡ (if i == k then line j else b i j)
put_line-word k line b i j = elim (Bool-cases (i == k)) [ inl e ↦ rw e refl | inr e ↦ rw e refl ]

-- Which of the lines a word lies in.
choose_line :
    (i f s p w : ℕ)
    → (if is_between 4 (4 + screen_width) i
        then p
        else (if i == 3
            then p
            else (if i == 2 then s else (if i == 1 then s else (if i == 0 then f else w)))))
      ≡ (if i == 0 then f else if ltb i 3 then s else if ltb i (4 + screen_width) then p else w)
choose_line i f s p w = ground arith

copy_lines-word :
    (n : ℕ) (b : ℕ → ℕ → ℕ) (i j : ℕ)
    → ltb j line_words ≡ true
    → copy_lines n b i j ≡ (if is_between 4 (4 + n) i then b 3 j else b i j)
unfolding copy_lines
copy_lines-word zero b i j h = ground (arith, h)
copy_lines-word (suc n) b i j h = elim (Bool-cases (i == 4 + n)) [
  | inl e ↦
      let now : is_between 4 (4 + suc n) i ≡ true = ground (arith, e) in
      rw (e, h, now) (copy_lines-word n b 3 j h)
  | inr e ↦
      let same : is_between 4 (4 + n) i ≡ is_between 4 (4 + suc n) i = ground (arith, e) in
      rw e (copy_lines-word n b i j h ∙ ap (λ c. if c then b 3 j else b i j) same)
]

-- The buffer that is filled: its first line starts a frame, two more lines have no pixels, and the 1405 lines from
-- there on have those of the value; each word of a line is the sum of the signals that are on in it, with the low
-- 16 bits of the value in the words of the pixels. The lines after these are not written.
pub fill_pan_buffer-word :
    (value : Option ℕ) (buffer : ℕ → ℕ → ℕ) (i j : ℕ)
    → j < line_words
    → fill_pan_buffer value buffer i j ≡ (
        if i == 0
        then first_word j
        else if ltb i 3
        then signals_word j
        else if ltb i (4 + screen_width)
        then line_word value j
        else buffer i j)
unfolding fill_pan_buffer
fill_pan_buffer-word value b0 i j k =
    let h : ltb j line_words ≡ true = ground (arith, k) in
    let b1 = put_line 0 (fill_first_line (b0 0)) b0 in
    let b2 = put_line 1 (fill_line none (b1 1)) b1 in
    let b3 = put_line 2 (fill_line none (b2 2)) b2 in
    let b4 = put_line 3 (fill_line value (b3 3)) b3 in
    copy_lines-word screen_width b4 i j h
    ∙ rw
        (
          put_line-word 3 (fill_line value (b3 3)) b3 i j,
          put_line-word 2 (fill_line none (b2 2)) b2 i j,
          put_line-word 1 (fill_line none (b1 1)) b1 i j,
          put_line-word 0 (fill_first_line (b0 0)) b0 i j,
          fill_line-word value (b0 3) j h,
          fill_line-word none (b0 2) j h,
          fill_line-word none (b0 1) j h,
          fill_first_line-word (b0 0) j h,
        )
        (choose_line i (first_word j) (signals_word j) (line_word value j) (b0 i j))
