-- ===== src/Yaft/KeyCodes.antt =====
-- apps/yaft/keyboard.cpp, `getKeyCodeStr`: the bytes that a key sends to the terminal. The C
-- locale's `isprint`, `isalpha` and `tolower` are written out.
use r_m2_stuff_rocket.Base.{
  ℕ, Bool, not, ◌&&◌, ◌||◌, Option, none, some, List, [], ◌∷◌, ◌+◌, ◌-◌, ◌==◌, ltb, leb,
  if◌then◌else◌,
}
use r_m2_stuff_rocket.Yaft.Layout.{
  escape, tab, backspace, enter, del, home, end, left, up, right, down, page_up, page_down,
}

abbrev esc_char : ℕ
esc_char = 0x1b

abbrev write_vt_code : ℕ → Option (List ℕ)
write_vt_code code = some (esc_char ∷ b'[' ∷ code ∷ b'~' ∷ [])

abbrev write_xt_code : ℕ → Bool → Option (List ℕ)
write_xt_code code app_cursor = some (esc_char ∷ (if app_cursor then b'O' else b'[') ∷ code ∷ [])

-- The `switch` on the special keys.
unfoldable pub special_code : ℕ → Bool → Option (List ℕ)
special_code code app_cursor =
    if code == escape
    then some (esc_char ∷ [])
    else if code == tab
    then some (0x09 ∷ [])
    else if code == backspace
    then some (0x7f ∷ [])
    else if code == enter
    then some (0x0d ∷ [])
    else if code == del
    then write_vt_code b'3'
    else if code == home
    then write_vt_code b'1'
    else if code == end
    then write_vt_code b'4'
    else if code == left
    then write_xt_code b'D' app_cursor
    else if code == up
    then write_xt_code b'A' app_cursor
    else if code == right
    then write_xt_code b'C' app_cursor
    else if code == down
    then write_xt_code b'B' app_cursor
    else if code == page_up
    then write_vt_code b'5'
    else if code == page_down
    then write_vt_code b'6'
    else none

abbrev isprint : ℕ → Bool
isprint c = leb 0x20 c && leb c 0x7e

abbrev is_upper : ℕ → Bool
is_upper c = leb b'A' c && leb c b'Z'

abbrev isalpha : ℕ → Bool
isalpha c = is_upper c || (leb b'a' c && leb c b'z')

abbrev tolower : ℕ → ℕ
tolower c = if is_upper c then c + 32 else c

abbrev lower_unless : Bool → ℕ → ℕ
lower_unless shift c = if isalpha c && not shift then tolower c else c

abbrev with_alt : Bool → ℕ → List ℕ
with_alt alt c = if alt then esc_char ∷ c ∷ [] else c ∷ []

unfoldable pub get_key_code_str : ℕ → Bool → Bool → Bool → Bool → Option (List ℕ)
get_key_code_str code shift alt ctrl app_cursor =
    if ltb 0xFF code
    then special_code code app_cursor
    else if isprint code
    then (if ctrl
        then (if leb 0x41 code && leb code 0x5f
            then some (with_alt alt (lower_unless shift (code - 0x40)))
            else none)
        else some (with_alt alt (lower_unless shift code)))
    else if code == 0x3
    then some (code ∷ [])
    else none
