-- ===== src/Unistdpp/Pipes.antt =====
-- Two pipes, as the system calls see them: one takes three bytes at a time, the other gives two.
use r_m2_stuff_rocket.Base.{
  ℕ, zero, suc, List, [], ◌∷◌, ◌<◌, ◌≡◌, refl, arith, length, min, take, drop, take-append-drop,
  length-take, sym,
}
use r_m2_stuff_rocket.Unistdpp.WriteAll.{Reply, wrote, Progresses}
use r_m2_stuff_rocket.Unistdpp.ReadAll.{ReadReply, got, IsStream}

abbrev pub three_bytes : ℕ → List ℕ → Reply × ℕ
three_bytes calls buf = (wrote (min 3 (length buf)), suc calls)

pub three_bytes-Progresses :
    (calls b : ℕ) (bs : List ℕ) → Progresses (three_bytes calls (b ∷ bs)).0 (b ∷ bs)
three_bytes-Progresses calls b bs = (omega arith, omega arith)

-- The state is what is still to come.
abbrev pub by_twos : List ℕ → ℕ → ReadReply × List ℕ
by_twos s size = (got (take (min 2 size) s), drop (min 2 size) s)

take-nil : (n : ℕ) (s : List ℕ) → 0 < n → take n s ≡ [] → s ≡ []
take-nil zero s h e = absurd (omega arith)
take-nil (suc n) [] h e = refl
take-nil (suc n) (b ∷ bs) h e = absurd (ground arith)

pub by_twos-IsStream : IsStream by_twos (λ s. s)
by_twos-IsStream s size = (
  sym (take-append-drop (min 2 (suc size)) s),
  omega (arith, length-take (min 2 (suc size)) s),
  take-nil (min 2 (suc size)) s (omega arith),
)
