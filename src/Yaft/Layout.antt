-- ===== src/Yaft/Layout.antt =====
-- apps/yaft/layout.h and layout.cpp: the keys of the virtual keyboard.
use Prim.Native.Nat.{bit_and, bit_or}
use r_m2_stuff_rocket.Base.{ℕ, String, Bool, ◌+◌, ◌==◌, ◌||◌, List, [], ◌∷◌, ◌++◌}

pub record KeyInfo : Type 0 where
  pub name : String
  pub code : ℕ
  pub alt_name : String
  pub alt_code : ℕ
  pub width : ℕ
  pub long_press_code : ℕ

abbrev key_info : String → ℕ → String → ℕ → ℕ → ℕ → KeyInfo
key_info name code alt_name alt_code width long = record {
  name = name;
  code = code;
  alt_name = alt_name;
  alt_code = alt_code;
  width = width;
  long_press_code = long;
}

-- The defaults of the fields.
abbrev pub alt_key : String → ℕ → String → ℕ → KeyInfo
alt_key name code alt_name alt_code = key_info name code alt_name alt_code 1 0

abbrev pub key : String → ℕ → KeyInfo
key name code = alt_key name code "" 0

abbrev pub Layout : Type 0
Layout = List (List KeyInfo)

-- `SpecialKeys`
abbrev pub escape : ℕ
escape = 0x1000000

abbrev pub tab : ℕ
tab = 0x1000001

abbrev pub backspace : ℕ
backspace = 0x1000002

abbrev pub enter : ℕ
enter = 0x1000003

abbrev pub del : ℕ
del = 0x1000004

abbrev pub home : ℕ
home = 0x1000005

abbrev pub end : ℕ
end = 0x1000006

abbrev pub left : ℕ
left = 0x1000007

abbrev pub up : ℕ
up = 0x1000008

abbrev pub right : ℕ
right = 0x1000009

abbrev pub down : ℕ
down = 0x100000a

abbrev pub page_up : ℕ
page_up = 0x100000b

abbrev pub page_down : ℕ
page_down = 0x100000c

abbrev pub mod1 : ℕ
mod1 = 0x100000d

abbrev pub mod2 : ℕ
mod2 = 0x100000e

abbrev callback : ℕ
callback = 0x1100000

-- `ModifierKeys`
abbrev pub shift : ℕ
shift = 0x2000000

abbrev pub ctrl : ℕ
ctrl = 0x4000000

abbrev pub alt : ℕ
alt = 0x8000000

unfoldable pub is_callback : ℕ → Bool
is_callback code = bit_and code callback == callback

unfoldable pub get_callback : ℕ → ℕ
get_callback code = bit_and code 0x00fffff

abbrev make_callback : ℕ → ℕ
make_callback num = bit_or num callback

-- keyboard.cpp
abbrev pub is_modifier : ℕ → Bool
is_modifier code = code == shift || code == ctrl || code == alt

-- `numCols` adds up the widths of the first row.
abbrev pub row_width : List KeyInfo → ℕ
row_width [] = 0
row_width (k ∷ rest) = k.width + row_width rest

unfoldable pub num_cols : Layout → ℕ
num_cols [] = 0
num_cols (row ∷ rest) = row_width row

-- The flat list of the keys; a pointer to a key is its index here.
abbrev pub flat_keys : Layout → List KeyInfo
flat_keys [] = []
flat_keys (row ∷ rest) = row ++ flat_keys rest

unfoldable empty_layout : Layout
empty_layout = []

unfoldable pub qwerty_layout : Layout
qwerty_layout =
    (key_info "esc" escape "" 0 1 (make_callback 1)
      ∷ alt_key ">" 0x3e "<" 0x3c
      ∷ alt_key "|" 0x7c "&" 0x26
      ∷ alt_key "!" 0x21 "?" 0x3f
      ∷ alt_key "\"" 0x22 "$" 0x24
      ∷ alt_key "'" 0x27 "`" 0x60
      ∷ alt_key "_" 0x5f "@" 0x40
      ∷ alt_key "=" 0x3d "~" 0x7e
      ∷ alt_key "/" 0x2f "\\" 0x5c
      ∷ alt_key "*" 0x2a "del" del
      ∷ key ":backspace" backspace
      ∷ [])
    ∷ (key ":tab" tab
        ∷ alt_key "1" 0x31 "+" 0x2b
        ∷ alt_key "2" 0x32 "^" 0x5e
        ∷ alt_key "3" 0x33 "#" 0x23
        ∷ alt_key "4" 0x34 "%" 0x25
        ∷ alt_key "5" 0x35 "(" 0x28
        ∷ alt_key "6" 0x36 ")" 0x29
        ∷ alt_key "7" 0x37 "[" 0x5b
        ∷ alt_key "8" 0x38 "]" 0x5d
        ∷ alt_key "9" 0x39 "{" 0x7b
        ∷ alt_key "0" 0x30 "}" 0x7d
        ∷ [])
    ∷ (key "q" 0x51
        ∷ key "w" 0x57
        ∷ key "e" 0x45
        ∷ key "r" 0x52
        ∷ key "t" 0x54
        ∷ key "y" 0x59
        ∷ key "u" 0x55
        ∷ key "i" 0x49
        ∷ key "o" 0x4f
        ∷ key "p" 0x50
        ∷ key ":enter" enter
        ∷ [])
    ∷ (key "a" 0x41
        ∷ key "s" 0x53
        ∷ key "d" 0x44
        ∷ key "f" 0x46
        ∷ key "g" 0x47
        ∷ key "h" 0x48
        ∷ key "j" 0x4a
        ∷ key "k" 0x4b
        ∷ key "l" 0x4c
        ∷ key ":" 0x3a
        ∷ alt_key "pgup" page_up "home" home
        ∷ [])
    ∷ (key ":shift" shift
        ∷ key "z" 0x5a
        ∷ key "x" 0x58
        ∷ key "c" 0x43
        ∷ key "v" 0x56
        ∷ key "b" 0x42
        ∷ key "n" 0x4e
        ∷ key "m" 0x4d
        ∷ key ";" 0x3b
        ∷ key ":up" up
        ∷ alt_key "pgdn" page_down "end" end
        ∷ [])
    ∷ (key "ctrl" ctrl
        ∷ key "alt" alt
        ∷ key "-" 0x2d
        ∷ key "," 0x2c
        ∷ key_info " " 0x20 "" 0x0 3 0
        ∷ key "." 0x2e
        ∷ key ":left" left
        ∷ key ":down" down
        ∷ key ":right" right
        ∷ [])
    ∷ []

unfoldable hidden_layout : Layout
hidden_layout =
    (key_info "esc" escape "" 0 1 (make_callback 1)
      ∷ key "pgup" page_up
      ∷ key "pgdn" page_down
      ∷ key "home" home
      ∷ key "end" end
      ∷ key "<" left
      ∷ key "v" down
      ∷ key "^" up
      ∷ key ">" right
      ∷ key "ctrl-c" 0x3
      ∷ key "\\n" enter
      ∷ [])
    ∷ []
