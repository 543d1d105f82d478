-- ===== src/Swtcon/Temperature.antt =====
-- libs/swtcon/Waveforms.cpp, `getTemperatureIdx`: the range that a temperature falls in.
use r_m2_stuff_rocket.Base.{
  ℕ, zero, suc, Bool, true, false, ◌+◌, ◌<◌, ◌≤◌, ◌==◌, subst, ◌≡◌, ◌⊎◌, inl, inr, refl, arith,
  Bool-cases,
}
use r_m2_stuff_rocket.Swtcon.Waveforms.{find_temperature, get_temperature_idx}

-- `idx` is the first of the 14 ranges whose bound is above the temperature, or the last range.
abbrev pub IsFirst : (ℕ → Bool) → ℕ → ℕ → Type 0
IsFirst below i idx =
    (idx < 14) × ((j : ℕ) → i ≤ j → j < idx → below j ≡ false) × ((below idx ≡ true) ⊎ (idx ≡ 13))

earlier :
    (below : ℕ → Bool) (i j : ℕ)
    → below i ≡ false
    → i ≤ j
    → (i + 1 ≤ j → below j ≡ false)
    → below j ≡ false
earlier below i j t h later = elim (Bool-cases (i == j)) [
  | inl e ↦ subst (λ n. below n ≡ false) (ground arith) t
  | inr e ↦ later (ground arith)
]

find_temperature-IsFirst :
    (left i : ℕ) (below : ℕ → Bool)
    → i + left ≡ 14
    → IsFirst below i (find_temperature left i below)
unfolding find_temperature
find_temperature-IsFirst zero i below e = (omega arith, (λ j h h'. absurd (omega arith)), inr refl)
find_temperature-IsFirst (suc left) i below e = elim (Bool-cases (below i)) [
  | inl t ↦ rw t (omega arith, (λ j h h'. absurd (omega arith)), inl t)
  | inr t ↦
      let (lt, before, found) = find_temperature-IsFirst left (i + 1) below (omega arith) in
      rw t (lt, (λ j h h'. earlier below i j t h (λ h2. before j h2 h')), found)
]

-- Whatever the bounds are, `getTemperatureIdx` returns an index below 14, no earlier bound is
-- above the temperature, and the bound at the index is, unless the index is the last one.
pub get_temperature_idx-IsFirst : (below : ℕ → Bool) → IsFirst below 0 (get_temperature_idx below)
unfolding get_temperature_idx
get_temperature_idx-IsFirst below = find_temperature-IsFirst 14 0 below refl
