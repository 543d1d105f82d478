-- ===== src/Swtcon/Loading.antt =====
-- libs/swtcon/Waveforms.cpp: `readInitTable`, `readWaveformTable` and the part of `initWaveforms` that
-- fills the global tables, which are functions here. `none`: out of fuel, or a loop
-- that never ends because its counter is a byte.
use r_m2_stuff_rocket.Base.{
  ℕ, zero, suc, Bool, true, false, Option, none, some, List, [], ◌∷◌, leb, ◌%◌, ◌+◌, ◌/◌, ◌==◌,
  if◌then◌else◌,
}
use r_m2_stuff_rocket.Swtcon.Waveforms.{Bytes}
use r_m2_stuff_rocket.Swtcon.Tables.{Steps, steps_of, column, Entry, make_entry, read_twice}

-- The init table of a temperature: the first byte of each element.
pub record InitEntry : Type 0 where
  pub count : ℕ
  pub elements : List ℕ

-- `globalInitTable`, and `globalTempTable` by waveform and temperature.
pub record Tables : Type 0 where
  pub init : ℕ → Option InitEntry
  pub entries : ℕ → ℕ → Option Entry

abbrev pub set_at {ℓ} : {A : Type ℓ} → ℕ → A → (ℕ → A) → ℕ → A
set_at i v f j = if j == i then v else f j

unfoldable pub make_init : Steps → List ℕ → ℕ → InitEntry
make_init steps tbl size = record {
  count = size / steps.size;
  elements = column steps.size tbl 0 (size / steps.size);
}

-- The next temperature, in a byte.
unfoldable pub next_temp : ℕ → ℕ
next_temp temp = (temp + 1) % 256

-- A loop over temperatures ends within so many rounds, or never.
abbrev pub temp_rounds : ℕ
temp_rounds = 256

-- The loop of `readInitTable`, with the rounds that are left.
unfoldable pub read_init :
    ℕ → Bytes → ℕ → ℕ → (ℕ → Option InitEntry) → Option (ℕ → Option InitEntry)
read_init fuel bytes zero temp f = if leb temp (bytes 0x26) then none else some f
read_init fuel bytes (suc left) temp f = elim (leb temp (bytes 0x26)) [
  | false ↦ some f
  | true ↦ elim (read_twice fuel bytes 0 temp) [
    | none ↦ none
    | some none ↦ read_init fuel bytes left (next_temp temp) f
    | some (some (tbl, size)) ↦
        read_init fuel bytes left (next_temp temp)
          (set_at temp (some (make_init (steps_of bytes) tbl size)) f)
  ]
]

-- What a call of `readWaveformTable` is given besides the file.
pub record Load : Type 0 where
  pub idx : ℕ
  pub mode : ℕ
  pub separate : Bool
  pub skip : Bool

abbrev pub made : Bytes → Load → List ℕ → ℕ → Entry
made bytes l tbl size = make_entry (steps_of bytes) l.separate l.skip tbl size

-- The loop of `readWaveformTable` over the temperatures, for one waveform, with the rounds that are left.
unfoldable pub read_temps :
    ℕ → Bytes → Load → ℕ → ℕ → (ℕ → Option Entry) → Option (ℕ → Option Entry)
read_temps fuel bytes l zero temp f = if leb temp (bytes 0x26) then none else some f
read_temps fuel bytes l (suc left) temp f = elim (leb temp (bytes 0x26)) [
  | false ↦ some f
  | true ↦ elim (read_twice fuel bytes l.mode temp) [
    | none ↦ none
    | some none ↦ read_temps fuel bytes l left (next_temp temp) f
    | some (some (tbl, size)) ↦
        read_temps fuel bytes l left (next_temp temp) (set_at temp (some (made bytes l tbl size)) f)
  ]
]

-- `readWaveformTable`
unfoldable pub read_waveform_table :
    ℕ → Bytes → Load → (ℕ → ℕ → Option Entry) → Option (ℕ → ℕ → Option Entry)
read_waveform_table fuel bytes l entries =
    elim (read_temps fuel bytes l temp_rounds 0 (entries l.idx)) [
      | none ↦ none
      | some f ↦ some (set_at l.idx f entries)
    ]

unfoldable pub read_loads :
    ℕ → Bytes → List Load → (ℕ → ℕ → Option Entry) → Option (ℕ → ℕ → Option Entry)
read_loads fuel bytes [] entries = some entries
read_loads fuel bytes (l ∷ ls) entries = elim (read_waveform_table fuel bytes l entries) [
  | none ↦ none
  | some entries' ↦ read_loads fuel bytes ls entries'
]

-- The calls of `initWaveforms`: DU, GC16, FAST, GLF and DU4, then DU, GC16 and DU4 without their
-- idle beginnings.
abbrev pub loads : List Load
loads =
    record { idx = 0; mode = 1; separate = false; skip = false }
    ∷ record { idx = 1; mode = 2; separate = true; skip = false }
    ∷ record { idx = 2; mode = 3; separate = true; skip = false }
    ∷ record { idx = 3; mode = 6; separate = false; skip = false }
    ∷ record { idx = 4; mode = 7; separate = false; skip = false }
    ∷ record { idx = 5; mode = 1; separate = false; skip = true }
    ∷ record { idx = 6; mode = 2; separate = true; skip = true }
    ∷ record { idx = 7; mode = 7; separate = false; skip = true }
    ∷ []

-- The range of temperatures at an index: its lower and its upper end.
unfoldable temperature_range : Bytes → ℕ → ℕ × ℕ
temperature_range bytes i =
    (bytes (0x30 + i), if i == bytes 0x26 then 100 else bytes (0x30 + i + 1))

unfoldable pub init_tables : ℕ → Bytes → Tables → Option Tables
init_tables fuel bytes tables = elim (read_init fuel bytes temp_rounds 0 tables.init) [
  | none ↦ none
  | some f ↦ elim (read_loads fuel bytes loads tables.entries) [
    | none ↦ none
    | some entries ↦ some (record { init = f; entries = entries })
  ]
]
