-- ===== src/Swtcon/Decoder.antt =====
-- libs/swtcon/Waveforms.cpp, `getTableAt`: counting and decoding agree, and the decoder stops.
use r_m2_stuff_rocket.Base.{
  ℕ, zero, suc, Bool, true, false, Option, none, some, List, [], ◌++◌, ◌+◌, ◌-◌, ◌*◌, ◌<◌, ◌≤◌,
  ◌==◌, ◌≡◌, refl, sym, ap, ◌∙◌, inl, inr, arith, ltb, Bool-cases, length, length-append,
}
use r_m2_stuff_rocket.Swtcon.Waveforms.{
  Bytes, quad, count_run, write_run, emit, decode, get_table_at, get_table_ptr, read_table,
}

count_run-eq :
    (fuel len idx2 size : ℕ)
    → idx2 < len
    → len ≤ idx2 + fuel
    → count_run fuel len idx2 size ≡ size + 4 * (len - idx2)
unfolding count_run
count_run-eq zero len idx2 size h f = absurd (omega arith)
count_run-eq (suc fuel) len idx2 size h f =
    ground (arith, count_run-eq fuel len (idx2 + 2) (size + 8))

write_run-size :
    (fuel elem len idx2 size : ℕ) (out : List ℕ)
    → idx2 < len
    → len ≤ idx2 + fuel
    → (write_run fuel elem len idx2 size out).0 ≡ size + 4 * (len - idx2)
unfolding write_run
write_run-size zero elem len idx2 size out h f = absurd (omega arith)
write_run-size (suc fuel) elem len idx2 size out h f =
    ground (arith, write_run-size fuel elem len (idx2 + 1) (size + 4) (out ++ quad elem))

write_run-length :
    (fuel elem len idx2 size : ℕ) (out : List ℕ)
    → size ≡ length out
    → (write_run fuel elem len idx2 size out).0 ≡ length (write_run fuel elem len idx2 size out).1
unfolding write_run
write_run-length zero elem len idx2 size out e = e
write_run-length (suc fuel) elem len idx2 size out e = elim (Bool-cases (ltb (idx2 + 1) len)) [
  | inl t ↦ rw t (
      write_run-length fuel elem len (idx2 + 1) (size + 4) (out ++ quad elem)
        (omega (arith, length-append out (quad elem))))
  | inr t ↦ rw t (omega (arith, length-append out (quad elem)))
]

-- A run with a buffer, and one without.
emit-fills :
    (elem len size : ℕ) (out : List ℕ)
    → emit elem (len + 1) size (some out) ≡ (
      (write_run (len + 1) elem (len + 1) 0 size out).0,
      some (write_run (len + 1) elem (len + 1) 0 size out).1,
    )
unfolding emit
emit-fills elem len size out = refl

emit-counts :
    (elem len size : ℕ) (out : List ℕ)
    → emit elem (len + 1) size none ≡ ((write_run (len + 1) elem (len + 1) 0 size out).0, none)
unfolding emit
emit-counts elem len size out =
    ap (λ n. (n, none))
      (count_run-eq (len + 1) (len + 1) 0 size (omega arith) (omega arith)
        ∙ sym (write_run-size (len + 1) elem (len + 1) 0 size out (omega arith) (omega arith)))

-- The pass that counts and the pass that writes end alike: both out of fuel, or both with the
-- same size, which is the number of elements written.
abbrev Agrees : Option (ℕ × Option (List ℕ)) → Option (ℕ × Option (List ℕ)) → Type 0
Agrees none none = Unit
Agrees none (some _) = ⊥
Agrees (some _) none = ⊥
Agrees (some (n, none)) (some (m, some out)) = (n ≡ m) × (m ≡ length out)
Agrees (some (n, some _)) (some _) = ⊥
Agrees (some (n, none)) (some (m, none)) = ⊥

module _ (bytes : Bytes) (table : ℕ) where
  decode-Agrees :
      (fuel : ℕ) (counted : Bool) (idx size : ℕ) (out : List ℕ)
      → size ≡ length out
      → Agrees
          (decode bytes table fuel counted idx size none)
          (decode bytes table fuel counted idx size (some out))
  unfolding decode
  decode-Agrees zero counted idx size out e = tt
  decode-Agrees (suc fuel) true idx size out e =
      elim (Bool-cases (bytes 0x29 == bytes (table + idx))) [
        | inl t ↦ rw t (elim (Bool-cases (bytes 0x28 == bytes (table + (idx + 1)))) [
          | inl s ↦ rw s (refl, e)
          | inr s ↦ rw s (decode-Agrees fuel false (idx + 1) size out e)
        ])
        | inr t ↦ rw t (
            rw
              (
                emit-counts (bytes (table + idx)) (bytes (table + (idx + 1))) size out,
                emit-fills (bytes (table + idx)) (bytes (table + (idx + 1))) size out,
              )
              (elim (Bool-cases (bytes 0x28 == bytes (table + (idx + 2)))) [
                | inl s ↦ rw s (
                  refl,
                  (write_run-length ((bytes (table + (idx + 1))) + 1) (bytes (table + idx))
                      ((bytes (table + (idx + 1))) + 1) 0 size out e),
                )
                | inr s ↦ rw s (
                    decode-Agrees fuel true (idx + 2)
                      (write_run ((bytes (table + (idx + 1))) + 1) (bytes (table + idx))
                        ((bytes (table + (idx + 1))) + 1) 0 size out).0
                      (write_run ((bytes (table + (idx + 1))) + 1) (bytes (table + idx))
                        ((bytes (table + (idx + 1))) + 1) 0 size out).1
                      (write_run-length ((bytes (table + (idx + 1))) + 1) (bytes (table + idx))
                        ((bytes (table + (idx + 1))) + 1) 0 size out e))
              ]))
      ]
  decode-Agrees (suc fuel) false idx size out e =
      elim (Bool-cases (bytes 0x29 == bytes (table + idx))) [
        | inl t ↦ rw t (elim (Bool-cases (bytes 0x28 == bytes (table + (idx + 1)))) [
          | inl s ↦ rw s (refl, e)
          | inr s ↦ rw s (decode-Agrees fuel true (idx + 1) size out e)
        ])
        | inr t ↦ rw t (
            rw
              (
                emit-counts (bytes (table + idx)) 0 size out,
                emit-fills (bytes (table + idx)) 0 size out,
              )
              (elim (Bool-cases (bytes 0x28 == bytes (table + (idx + 1)))) [
                | inl s ↦
                    rw s
                      (refl, (write_run-length (0 + 1) (bytes (table + idx)) (0 + 1) 0 size out e))
                | inr s ↦ rw s (
                    decode-Agrees fuel false (idx + 1)
                      (write_run (0 + 1) (bytes (table + idx)) (0 + 1) 0 size out).0
                      (write_run (0 + 1) (bytes (table + idx)) (0 + 1) 0 size out).1
                      (write_run-length (0 + 1) (bytes (table + idx)) (0 + 1) 0 size out e))
              ]))
      ]

-- The same for `get_table_at`: both out of fuel, both refused, or the sizes agree.
abbrev pub SameTable :
    Option (Option (ℕ × Option (List ℕ))) → Option (Option (ℕ × Option (List ℕ))) → Type 0
SameTable none none = Unit
SameTable none (some _) = ⊥
SameTable (some _) none = ⊥
SameTable (some none) (some none) = Unit
SameTable (some (some _)) (some none) = ⊥
SameTable (some none) (some (some _)) = ⊥
SameTable (some (some r)) (some (some r')) = Agrees (some r) (some r')

abbrev lift_result : Option (ℕ × Option (List ℕ)) → Option (Option (ℕ × Option (List ℕ)))
lift_result r = elim r [ none ↦ none | some r ↦ some (some r) ]

lift_result-SameTable :
    (r r' : Option (ℕ × Option (List ℕ))) → Agrees r r' → SameTable (lift_result r) (lift_result r')
lift_result-SameTable none none a = tt
lift_result-SameTable none (some r') a = absurd a
lift_result-SameTable (some r) none a = absurd a
lift_result-SameTable (some r) (some r') a = a

read_table-SameTable :
    (fuel : ℕ) (bytes : Bytes) (p : Option ℕ)
    → SameTable (read_table fuel bytes p none) (read_table fuel bytes p (some []))
read_table-SameTable fuel bytes none = tt
read_table-SameTable fuel bytes (some table) = elim (Bool-cases (bytes 0x28 == bytes table)) [
  | inl t ↦ rw t (refl, refl)
  | inr t ↦ rw t (lift_result-SameTable _ _ (decode-Agrees bytes table fuel true 0 0 [] refl))
]

-- For any fuel, file, mode and temperature, `getTableAt` called to count and called with an empty
-- buffer end alike: both run out of fuel, both refuse, or both return the same size and the
-- buffer then holds exactly that many elements.
pub get_table_at-agrees :
    (fuel : ℕ) (bytes : Bytes) (mode temp : ℕ)
    → SameTable
        (get_table_at fuel bytes mode temp none)
        (get_table_at fuel bytes mode temp (some []))
unfolding get_table_at
get_table_at-agrees fuel bytes mode temp =
    read_table-SameTable fuel bytes (get_table_ptr bytes mode temp)
