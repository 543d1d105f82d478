-- ===== src/Swtcon/Loads.antt =====
-- libs/swtcon/Waveforms.cpp: what the loops over waveforms and temperatures leave in the tables.
use r_m2_stuff_rocket.Base.{ℕ, Option, some, List, [], ◌∷◌, ◌+◌, ◌≡◌, ◌==◌, if◌then◌else◌}
use r_m2_stuff_rocket.Swtcon.Waveforms.{Bytes}
use r_m2_stuff_rocket.Swtcon.Tables.{Entry, read_twice}
use r_m2_stuff_rocket.Swtcon.Ranges.{after}
use r_m2_stuff_rocket.Swtcon.Loading.{Load, made, Tables}

-- The table of a mode and a temperature is read, or skipped, within the fuel.
abbrev pub IsRead : ℕ → Bytes → ℕ → ℕ → Type 0
IsRead fuel bytes mode temp = (r : Option (List ℕ × ℕ)) × (read_twice fuel bytes mode temp ≡ some r)

module _ (fuel : ℕ) (bytes : Bytes) where
  -- What a call of `readWaveformTable` leaves for its waveform.
  abbrev pub filled : Load → (ℕ → Option Entry) → ℕ → Option Entry
  filled l = after (made bytes l) (read_twice fuel bytes l.mode) 0 (bytes 0x26 + 1)

  -- The calls in their order: what is left for a waveform, by number.
  abbrev all_filled : List Load → ℕ → (ℕ → Option Entry) → ℕ → Option Entry
  all_filled [] i old = old
  all_filled (l ∷ ls) i old = all_filled ls i (if i == l.idx then filled l old else old)

module _ (fuel : ℕ) (bytes : Bytes) (reads : (mode temp : ℕ) → IsRead fuel bytes mode temp) where
  -- The loop has returned, and has left this at each temperature.
  abbrev Leaves : {A : Type 0} → (ℕ → Option A) → Option (ℕ → Option A) → Type 0
  Leaves {A} expected result = (g : ℕ → Option A) × (result ≡ some g) × ((t : ℕ) → g t ≡ expected t)
