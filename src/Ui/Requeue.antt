-- ===== src/Ui/Requeue.antt =====
-- libs/rMlib/include/UI/AppContext.h, the queue of timers when one of them is put back.
use r_m2_stuff_rocket.Base.{
  All-map, ℕ, suc, false, none, some, List, [], ◌∷◌, ◌+◌, ◌-◌, ◌≤◌, ◌<◌, ◌≡◌, refl, arith, All,
  Bool-cases, Option-cases, inl, inr, ◌⊎◌, ltb, ltb→lt,
}
use r_m2_stuff_rocket.Ui.Timers.{Timer, emplace, requeue}
use r_m2_stuff_rocket.Ui.Due.{IsSorted}

All-emplace :
    (P : Timer → Type 0) (t : Timer) (q : List Timer) → P t → All P q → All P (emplace t q)
unfolding emplace
All-emplace P t [] h k = (h, k)
All-emplace P t (u ∷ us) h k = elim (Bool-cases (ltb t.trigger_time u.trigger_time)) [
  | inl e ↦ rw e (h, k)
  | inr e ↦ rw e (k.0, All-emplace P t us h k.1)
]

emplace-All : (P : Timer → Type 0) (t : Timer) (q : List Timer) → All P (emplace t q) → All P q
unfolding emplace
emplace-All P t [] k = tt
emplace-All P t (u ∷ us) k = elim (Bool-cases (ltb t.trigger_time u.trigger_time)) [
  | inl e ↦ (rw e at k).1
  | inr e ↦ let k' = rw e at k in (k'.0, emplace-All P t us k'.1)
]

emplace-IsSorted : (t : Timer) (q : List Timer) → IsSorted q → IsSorted (emplace t q)
unfolding emplace
emplace-IsSorted t [] k = (tt, tt)
emplace-IsSorted t (u ∷ us) k = elim (Bool-cases (ltb t.trigger_time u.trigger_time)) [
  | inl e ↦
      let lt = ltb→lt t.trigger_time u.trigger_time e in
      rw e ((omega arith, All-map _ _ (λ v l. omega (arith, l)) us k.0), k)
  | inr e ↦ rw e (
    All-emplace (λ v. u.trigger_time ≤ v.trigger_time) t us (ground arith) k.0,
    emplace-IsSorted t us k.1,
  )
]

-- How long a timer can go on until this time, and all of them.
abbrev weight : ℕ → Timer → ℕ
weight last t = suc last - t.trigger_time + 1

abbrev pub total : ℕ → List Timer → ℕ
total last [] = 0
total last (t ∷ q) = weight last t + total last q

total-emplace :
    (last : ℕ) (t : Timer) (q : List Timer)
    → total last (emplace t q) ≡ weight last t + total last q
unfolding emplace
total-emplace last t [] = refl
total-emplace last t (u ∷ us) = elim (Bool-cases (ltb t.trigger_time u.trigger_time)) [
  | inl e ↦ rw e refl
  | inr e ↦ rw e (omega (arith, total-emplace last t us))
]

-- `disable` also ends the repeats, and no timer repeats without delay.
abbrev pub IsTimer : Timer → Type 0
IsTimer t = (t.enabled ≡ false → t.repeat ≡ none) × ((r : ℕ) → t.repeat ≡ some r → 0 < r)

abbrev pub Ran : ℕ → List ℕ → Type 0
Ran c [] = ⊥
Ran c (d ∷ ds) = (c ≡ d) ⊎ Ran c ds

module _ (now : ℕ) (t : Timer) (q : List Timer) where
  requeue-none : t.repeat ≡ none → requeue now t q ≡ q
  requeue-none e = rw e refl

  requeue-some :
      (r : ℕ)
      → t.repeat ≡ some r
      → requeue now t q ≡ emplace (record t { trigger_time = now + r }) q
  requeue-some r e = rw e refl

  pub requeue-IsSorted : IsSorted q → IsSorted (requeue now t q)
  requeue-IsSorted h = elim (Option-cases t.repeat) [
    | inl e ↦ rw (requeue-none e) h
    | inr (r, e) ↦
        rw (requeue-some r e) (emplace-IsSorted (record t { trigger_time = now + r }) q h)
  ]

  pub requeue-IsTimer : IsTimer t → All IsTimer q → All IsTimer (requeue now t q)
  requeue-IsTimer h k = elim (Option-cases t.repeat) [
    | inl e ↦ rw (requeue-none e) k
    | inr (r, e) ↦
        rw (requeue-some r e) (All-emplace IsTimer (record t { trigger_time = now + r }) q h k)
  ]

  pub requeue-All : (P : Timer → Type 0) → All P (requeue now t q) → All P q
  requeue-All P h = elim (Option-cases t.repeat) [
    | inl e ↦ rw (requeue-none e) at h
    | inr (r, e) ↦
        emplace-All P (record t { trigger_time = now + r }) q (rw (requeue-some r e) at h)
  ]

  -- A timer that is off the queue, or on it for later, leaves less to do.
  pub requeue-lt :
      (last : ℕ)
      → IsTimer t
      → (t.repeat ≡ none) ⊎ (t.trigger_time ≤ now)
      → now ≤ last
      → total last (requeue now t q) < total last (t ∷ q)
  requeue-lt last h k l = elim (Option-cases t.repeat) [
    | inl e ↦ rw (requeue-none e) (omega arith)
    | inr (r, e) ↦ elim k [
      | inl f ↦ absurd (cc)
      | inr f ↦
          rw (requeue-some r e) (
            omega
              (arith, total-emplace last (record t { trigger_time = now + r }) q, h.1 r e, f, l))
    ]
  ]
