-- ===== src/Yaft/Bytes.antt =====
-- apps/yaft/keyboard.cpp: what `getKeyCodeStr` returns.
use r_m2_stuff_rocket.Base.{
  ℕ, Bool, true, false, ◌<◌, ◌≡◌, subst, arith, Option, none, some, List, All, length, Bool-cases,
  inl, inr, ltb,
}
use r_m2_stuff_rocket.Yaft.KeyCodes.{get_key_code_str, special_code}

-- A C string of ASCII characters with a length from 1 to 4.
abbrev IsText : List ℕ → Type 0
IsText bytes = All (λ c. (0 < c) × (c < 128)) bytes × (0 < length bytes) × (length bytes < 5)

abbrev IsTextIf : Option (List ℕ) → Type 0
IsTextIf none = Unit {0}
IsTextIf (some bytes) = IsText bytes

of_some : (o : Option (List ℕ)) (bytes : List ℕ) → IsTextIf o → o ≡ some bytes → IsText bytes
of_some none bytes h e = absurd (cc)
of_some (some c) bytes h e = let same : c ≡ bytes = cc in subst IsText same h

special_code-IsText : (code : ℕ) (app : Bool) → IsTextIf (special_code code app)
unfolding special_code
special_code-IsText code app = ground arith

plain_code-IsText :
    (code : ℕ) (shift alt ctrl app : Bool)
    → ltb 0xFF code ≡ false
    → IsTextIf (get_key_code_str code shift alt ctrl app)
unfolding get_key_code_str
plain_code-IsText code true alt ctrl app h = ground arith
plain_code-IsText code false alt ctrl app h = ground arith

-- The bytes of every key that has a code are ASCII and none of them is the terminating NUL, so that
-- `strlen` finds them all; there is at least one, and at most four.
get_key_code_str-bytes :
    (code : ℕ) (shift alt ctrl app : Bool) (bytes : List ℕ)
    → get_key_code_str code shift alt ctrl app ≡ some bytes
    → IsText bytes
unfolding get_key_code_str
get_key_code_str-bytes code shift alt ctrl app bytes h = elim (Bool-cases (ltb 0xFF code)) [
  | inl e ↦ of_some (special_code code app) bytes (special_code-IsText code app) (rw e at h)
  | inr e ↦
      of_some (get_key_code_str code shift alt ctrl app) bytes
        (plain_code-IsText code shift alt ctrl app e) h
]
