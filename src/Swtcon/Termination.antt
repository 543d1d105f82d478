-- ===== src/Swtcon/Termination.antt =====
-- libs/swtcon/Waveforms.cpp, `getTableAt`: the decoder stops at the end of a table.
use r_m2_stuff_rocket.Base.{
  ℕ, zero, suc, Bool, true, false, Option, some, List, ◌+◌, ◌<◌, ◌≤◌, ◌==◌, ◌≡◌, refl, subst, inl,
  inr, arith, if◌then◌else◌, Bool-cases,
}
use r_m2_stuff_rocket.Swtcon.Waveforms.{Bytes, decode, get_table_at, get_table_ptr, read_table}

test_same : (a b : ℕ) → b ≡ a → a == b ≡ true
test_same a b e = ground arith

-- A pass that is at an index before the end marks `k` and `k + 1` of the table.
module _ (bytes : Bytes) (table k : ℕ) (first : bytes (table + k) ≡ bytes 0x28)
    (second : bytes (table + (k + 1)) ≡ bytes 0x28) where
  not_end : (i : ℕ) → i ≤ k + 1 → bytes 0x28 == bytes (table + i) ≡ false → i < k
  not_end i h e = ground arith

  go_on :
      (next : ℕ) (r : ℕ × Option (List ℕ)) (more : Option (ℕ × Option (List ℕ)))
      → next ≤ k + 1
      → (next < k → (r' : ℕ × Option (List ℕ)) × (more ≡ some r'))
      → (r' : ℕ × Option (List ℕ)) × ((if bytes 0x28 == bytes (table + next) then some r else more)
          ≡ some r')
  go_on next r more h rest = elim (Bool-cases (bytes 0x28 == bytes (table + next))) [
    | inl t ↦ (r, rw t refl)
    | inr t ↦ rw t (rest (not_end next h t))
  ]

  decode-terminates :
      (fuel : ℕ) (counted : Bool) (idx size : ℕ) (out : Option (List ℕ))
      → idx < k
      → k ≤ idx + fuel
      → (r : ℕ × Option (List ℕ)) × (decode bytes table fuel counted idx size out ≡ some r)
  unfolding decode
  decode-terminates zero counted idx size out h f = absurd (omega arith)
  decode-terminates (suc fuel) counted idx size out h f =
      go_on _ _ _ (ground arith) (λ lt. decode-terminates fuel _ _ _ _ lt (ground arith))

read_table-terminates :
    (fuel : ℕ) (bytes : Bytes) (table k : ℕ) (out : Option (List ℕ))
    → bytes (table + k) ≡ bytes 0x28
    → bytes (table + (k + 1)) ≡ bytes 0x28
    → k ≤ fuel
    → (r : ℕ × Option (List ℕ)) × (read_table fuel bytes (some table) out ≡ some (some r))
read_table-terminates fuel bytes table zero out first second f = (
  (0, out),
  rw (test_same (bytes 0x28) (bytes table) (subst (λ n. bytes n ≡ bytes 0x28) (omega arith) first))
      refl,
)
read_table-terminates fuel bytes table (suc k) out first second f =
    elim (Bool-cases (bytes 0x28 == bytes table)) [
      | inl t ↦ ((0, out), rw t refl)
      | inr t ↦
          let (r, e) =
            decode-terminates bytes table (suc k) first second fuel true 0 0 out (omega arith)
              (omega arith) in
          (r, rw (t, e) refl)
    ]

-- For a mode and a temperature that the file has, when the end mark of the file stands at two
-- consecutive offsets `k` and `k + 1` of the table, `getTableAt` returns a size, with or without
-- a buffer, after at most `k` rounds of its outer loop.
pub get_table_at-terminates :
    (fuel : ℕ) (bytes : Bytes) (mode temp table k : ℕ) (out : Option (List ℕ))
    → get_table_ptr bytes mode temp ≡ some table
    → bytes (table + k) ≡ bytes 0x28
    → bytes (table + (k + 1)) ≡ bytes 0x28
    → k ≤ fuel
    → (r : ℕ × Option (List ℕ)) × (get_table_at fuel bytes mode temp out ≡ some (some r))
unfolding get_table_at
get_table_at-terminates fuel bytes mode temp table k out e first second f =
    rw e (read_table-terminates fuel bytes table k out first second f)
