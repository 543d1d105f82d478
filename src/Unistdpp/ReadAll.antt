-- ===== src/Unistdpp/ReadAll.antt =====
-- libs/unistdpp/unistdpp.cpp and include/unistdpp/unistdpp.h, `FD::readAll`. The system call is a
-- parameter: given the number of bytes that it is asked for, it fails with an error number, gives
-- some, none of them at the end of the file, or waits for ever, as on a socket to which no more comes.
use r_m2_stuff_rocket.Base.{
  append-append, append-nil, ℕ, zero, suc, Option, none, some, List, [], ◌∷◌, ◌++◌, ◌-◌, ◌≤◌, ◌≡◌,
  refl, ap, ◌∙◌, arith, length, take, drop, inl, inr, ◌⊎◌, subst, sym, ◌==◌, if◌then◌else◌,
}
use native.Mathlib.Numerals.{unary_clauses}

pub data ReadReply : Type 0 where
  read_failed : ℕ → ReadReply
  got : List ℕ → ReadReply
  waits : ReadReply

-- `eof_error` and the codes that the callers test for.
pub data Error : Type 0 where
  errno : ℕ → Error
  eof_error bad_message : Error

module _ {S : Type 0} (read : S → ℕ → ReadReply × S) where
  -- `need` is what is left to read, `buf` what was read. `none`: out of fuel, or a call does not return.
  unfoldable pub read_all : ℕ → S → ℕ → List ℕ → Option ((Error ⊎ List ℕ) × S)
  read_all fuel s zero buf = some (inr buf, s)
  read_all zero s (suc need) buf = none
  read_all (suc fuel) s (suc need) buf = elim (read s (suc need)).0 [
    | read_failed e ↦ some (inl (errno e), (read s (suc need)).1)
    | waits ↦ none
    | got [] ↦ some (inr buf, (read s (suc need)).1)
    | got (b ∷ bs) ↦
        read_all fuel (read s (suc need)).1 (suc need - length (b ∷ bs)) (buf ++ b ∷ bs)
  ]

  -- `readAll<T>`, for a type of this size.
  abbrev pub exactly : ℕ → (Error ⊎ List ℕ) × S → (Error ⊎ List ℕ) × S
  exactly size (inl e, s) = (inl e, s)
  exactly size (inr buf, s) = (if length buf == size then inr buf else inl eof_error, s)

  unfoldable pub read_exactly : S → ℕ → Option ((Error ⊎ List ℕ) × S)
  read_exactly s size = elim (read_all size s size []) [
    | none ↦ none
    | some r ↦ some (exactly size r)
  ]

-- What POSIX says of `read` on a file, or a socket, whose bytes to come are these: it gives the
-- first of them, no more than it is asked for, and none only at the end. No call waits for ever: bytes or
-- the end come.
abbrev pub Answers : {S : Type 0} → (S → List ℕ) → List ℕ → ℕ → ReadReply × S → Type 0
Answers content before size (read_failed e, s) = Unit {0}
Answers content before size (waits, s) = ⊥
Answers content before size (got bs, s) =
    (before ≡ bs ++ content s) × (length bs ≤ size) × (bs ≡ [] → before ≡ [])

abbrev pub IsStream : {S : Type 0} → (S → ℕ → ReadReply × S) → (S → List ℕ) → Type 0
IsStream {S} read content =
    (s : S) (size : ℕ) → Answers content (content s) (suc size) (read s (suc size))

module _ {S : Type 0} (read : S → ℕ → ReadReply × S) where
  -- The state after calls that asked for so many bytes, and one more each.
  abbrev after_calls : List ℕ → S → S
  after_calls [] s = s
  after_calls (n ∷ ns) s = after_calls ns (read s (suc n)).1

  -- After some calls one fails, with this error number, and leaves this state.
  abbrev Fails : S → ℕ → S → Type 0
  Fails s e s' = (ns : List ℕ) × (n : ℕ) × (read (after_calls ns s) (suc n) ≡ (read_failed e, s'))

  -- Some calls lead from the one state to the other.
  abbrev pub Leads : S → S → Type 0
  Leads s s' = (ns : List ℕ) × (s' ≡ after_calls ns s)

  after_calls-append :
      (ns ms : List ℕ) (s : S) → after_calls (ns ++ ms) s ≡ after_calls ms (after_calls ns s)
  after_calls-append [] ms s = refl
  after_calls-append (n ∷ ns) ms s = after_calls-append ns ms (read s (suc n)).1

  pub Leads-Fails : (s t s' : S) (e : ℕ) → Leads s t → Fails t e s' → Fails s e s'
  Leads-Fails s t s' e (ns, p) (ms, n, q) = (
    ns ++ ms,
    n,
    ap (λ u. read u (suc n)) (after_calls-append ns ms s ∙ ap (after_calls ms) (sym p)) ∙ q,
  )

  pub Leads-trans : (s t s' : S) → Leads s t → Leads t s' → Leads s s'
  Leads-trans s t s' (ns, p) (ms, q) =
      (ns ++ ms, q ∙ ap (after_calls ms) p ∙ sym (after_calls-append ns ms s))

-- The error of a call that failed, or the first bytes of the content, which leaves the others.
pub record Fetches {S : Type 0} (read : S → ℕ → ReadReply × S) (content : S → List ℕ) (s : S)
    (buf before : List ℕ) (size : ℕ) (result : Option ((Error ⊎ List ℕ) × S)) : Type 0 where
  pub outcome : (Error ⊎ List ℕ) × S
  pub returns : result ≡ some outcome
  fetched :
      ((e : ℕ) × (outcome.0 ≡ inl (errno e)) × Fails read s e outcome.1)
      ⊎ ((outcome.0 ≡ inr (buf ++ take size before))
          × (content outcome.1 ≡ drop size before)
          × Leads read s outcome.1)

take-append :
    (xs ys : List ℕ) (n : ℕ) → length xs ≤ n → take n (xs ++ ys) ≡ xs ++ take (n - length xs) ys
take-append [] ys n h = simp unary_clauses refl
take-append (x ∷ xs) ys zero h = absurd (omega arith)
take-append (x ∷ xs) ys (suc n) h =
    simp unary_clauses (ap (◌∷◌ x) (take-append xs ys n (omega arith)))

drop-append : (xs ys : List ℕ) (n : ℕ) → length xs ≤ n → drop n (xs ++ ys) ≡ drop (n - length xs) ys
drop-append [] ys n h = simp unary_clauses refl
drop-append (x ∷ xs) ys zero h = absurd (omega arith)
drop-append (x ∷ xs) ys (suc n) h = simp unary_clauses (drop-append xs ys n (omega arith))

data ReplyCase (r : ReadReply) : Type 0 where
  is_failure : (e : ℕ) → r ≡ read_failed e → ReplyCase r
  is_waiting : r ≡ waits → ReplyCase r
  is_end : r ≡ got [] → ReplyCase r
  is_some : (b : ℕ) (bs : List ℕ) → r ≡ got (b ∷ bs) → ReplyCase r

reply-case : (r : ReadReply) → ReplyCase r
reply-case (read_failed e) = is_failure e refl
reply-case waits = is_waiting refl
reply-case (got []) = is_end refl
reply-case (got (b ∷ bs)) = is_some b bs refl

-- When `read` answers as it does on a stream, `readAll` returns within as many rounds as bytes are
-- asked for: with the error number of one of its calls, the last one, which failed with it, or with the
-- next bytes of the stream in order, as many as were asked for and the stream has; the rest stay in the
-- stream.
pub read_all-Fetches :
    {S : Type 0} (read : S → ℕ → ReadReply × S) (content : S → List ℕ)
    → IsStream read content
    → (fuel : ℕ) (s : S) (size : ℕ) (buf : List ℕ) → size ≤ fuel
    → Fetches read content s buf (content s) size (read_all read fuel s size buf)
unfolding read_all
read_all-Fetches read content law fuel s zero buf h = record {
  outcome = (inr buf, s);
  returns = refl;
  fetched = inr (ap inr (sym (append-nil buf)), refl, ([], refl));
}
read_all-Fetches read content law zero s (suc n) buf h = absurd (omega arith)
read_all-Fetches read content law (suc fuel) s (suc n) buf h =
    let s' = (read s (suc n)).1 in
    elim (reply-case (read s (suc n)).0) [
      | is_failure e q ↦ record {
        outcome = (inl (errno e), s');
        returns = rw (q, read_all) refl;
        fetched = inl (e, refl, ([], n, λ i. (q i, s')));
      }
      | is_waiting q ↦ absurd (subst (λ r. Answers content (content s) (suc n) (r, s')) q (law s n))
      | is_end q ↦
          let a : Answers content (content s) (suc n) (got [], s') =
            subst (λ r. Answers content (content s) (suc n) (r, s')) q (law s n) in
          let ended : content s ≡ [] = a.2 refl in
          record {
            outcome = (inr buf, s');
            returns = rw (q, read_all) refl;
            fetched = inr (
              ap inr (sym (ap (λ x. buf ++ take (suc n) x) ended ∙ append-nil buf)),
              sym a.0 ∙ ended ∙ sym (ap (drop (suc n)) ended),
              (n ∷ [], refl),
            );
          }
      | is_some b bs q ↦
          let a : Answers content (content s) (suc n) (got (b ∷ bs), s') =
            subst (λ r. Answers content (content s) (suc n) (r, s')) q (law s n) in
          let rest =
            read_all-Fetches read content law fuel s' (suc n - length (b ∷ bs)) (buf ++ b ∷ bs)
              (omega arith) in
          record {
            outcome = rest.outcome;
            returns = rw (q, read_all) rest.returns;
            fetched = elim rest.fetched [
              | inl (e, f, g) ↦ inl (e, f, Leads-Fails read s s' rest.outcome.1 e (n ∷ [], refl) g)
              | inr f ↦ inr (
                f.0
                    ∙ ap inr (
                        append-append buf (b ∷ bs) (take (suc n - length (b ∷ bs)) (content s'))
                        ∙ ap (λ x. buf ++ x) (sym (take-append (b ∷ bs) (content s') (suc n) a.1))
                        ∙ ap (λ x. buf ++ take (suc n) x) (sym a.0)),
                f.1
                    ∙ sym (drop-append (b ∷ bs) (content s') (suc n) a.1)
                    ∙ ap (drop (suc n)) (sym a.0),
                Leads-trans read s s' rest.outcome.1 (n ∷ [], refl) f.2,
              )
            ];
          }
    ]

-- The error of a call that failed, or this value, with this left in the stream.
abbrev pub Gives :
    {S A : Type 0}
    → (S → ℕ → ReadReply × S)
    → (S → List ℕ)
    → S
    → A
    → List ℕ
    → Option ((Error ⊎ A) × S)
    → Type 0
Gives {S} read content s a rest result =
    ((e : ℕ) × (s' : S) × (result ≡ some (inl (errno e), s')) × Fails read s e s')
    ⊎ ((s' : S) × (result ≡ some (inr a, s')) × (content s' ≡ rest) × Leads read s s')

take-prefix : (xs ys : List ℕ) → take (length xs) (xs ++ ys) ≡ xs
take-prefix [] ys = refl
take-prefix (x ∷ xs) ys = ap (◌∷◌ x) (take-prefix xs ys)

drop-prefix : (xs ys : List ℕ) → drop (length xs) (xs ++ ys) ≡ ys
drop-prefix [] ys = refl
drop-prefix (x ∷ xs) ys = drop-prefix xs ys

pub read_exactly-Gives :
    {S : Type 0} (read : S → ℕ → ReadReply × S) (content : S → List ℕ)
    → IsStream read content
    → (s : S) (bs rest : List ℕ) (size : ℕ) → content s ≡ bs ++ rest
    → length bs ≡ size
    → Gives read content s bs rest (read_exactly read s size)
unfolding read_exactly
read_exactly-Gives read content law s bs rest size h k =
    let f = read_all-Fetches read content law size s size [] (omega arith) in
    let first : take size (content s) ≡ bs =
      ap (λ n. take n (content s)) (sym k) ∙ ap (take (length bs)) h ∙ take-prefix bs rest in
    let others : drop size (content s) ≡ rest =
      ap (λ n. drop n (content s)) (sym k) ∙ ap (drop (length bs)) h ∙ drop-prefix bs rest in
    elim f.fetched [
      | inl (e, q, f_at) ↦ inl (
        e,
        f.outcome.1,
        rw (f.returns, read_exactly) (ap (λ r. some (exactly read size (r, f.outcome.1))) q),
        f_at,
      )
      | inr (q, c, to) ↦ inr (
        f.outcome.1,
        rw (f.returns, read_exactly)
            (ap (λ r. some (exactly read size (r, f.outcome.1))) (q ∙ ap inr first) ∙ ground arith),
        c ∙ others,
        to,
      )
    ]
