-- ===== src/Yaft/Lines.antt =====
-- apps/yaft/screen.cpp: what is drawn of the screen is sent to the display.
use r_m2_stuff_rocket.Base.{
  ℕ, zero, suc, Bool, true, false, List, [], ◌∷◌, ◌+◌, ◌<◌, ◌≡◌, ◌==◌, ◌&&◌, ◌||◌, if◌then◌else◌,
  ltb, refl, sym, ap, subst, ◌∙◌, arith, Bool-cases, inl, inr,
}
use r_m2_stuff_rocket.Rmlib.Geometry.{Point, Rect, is_empty, join, contains}
use r_m2_stuff_rocket.Rmlib.Rects.{contains-join, empty-no_points}
use r_m2_stuff_rocket.Yaft.Screen.{
  View, ScreenWaveform, DrawState, Redrawn, should_refresh, line_rect, maybe_draw, draw_line,
  draw_lines, start_draw, finish_draw, do_draw,
}

abbrev pub covers : List (Rect × ScreenWaveform) → Point → Bool
covers [] p = false
covers ((r, w) ∷ rs) p = contains r p || covers rs p

abbrev pub is_in : ℕ → List ℕ → Bool
is_in l [] = false
is_in l (n ∷ ns) = l == n || is_in l ns

at_line : (l n : ℕ) → l == n ≡ true → l ≡ n
at_line l n q = ground arith

now_below : (l n : ℕ) → l == n ≡ true → ltb l (n + 1) ≡ true
now_below l n q = ground arith

still_below : (l n : ℕ) → l == n ≡ false → ltb l (n + 1) ≡ ltb l n
still_below l n q = ground arith

not_below : (l n : ℕ) → l == n ≡ true → ltb l n ≡ false
not_below l n q = ground arith

below_none : (l : ℕ) → ltb l 0 ≡ false
below_none l = ground arith

joined :
    (a b : Rect) (p : Point) (c : Bool)
    → contains a p || c ≡ true
    → contains (join a b) p || c ≡ true
joined a b p c h = ground (arith, h, contains-join a b p)

-- The lines that are dirty at first, or have the cursor.
module _ (v : View) (start : ℕ → Bool) where
  abbrev to_draw : ℕ → Bool
  to_draw l = v.is_full_draw || start l

  abbrev has_cursor : ℕ → Bool
  has_cursor l = v.cursor_on && v.cursor_y == l

  -- After the lines below this one.
  record Upto (n : ℕ) (s : DrawState) : Type 0 where
    lines : (l : ℕ) → is_in l s.drawn ≡ ltb l n && to_draw l
    dirt : (l : ℕ) → s.line_dirty l ≡ (if ltb l n && to_draw l then has_cursor l else start l)
    covered :
        (l : ℕ) (p : Point)
        → is_in l s.drawn ≡ true
        → contains (line_rect v l) p ≡ true
        → contains s.current p || covers s.sent p ≡ true

  skipped : (l n : ℕ) → to_draw n ≡ false → ltb l n && to_draw l ≡ ltb l (n + 1) && to_draw l
  skipped l n e = elim (Bool-cases (l == n)) [
    | inl q ↦ rw (ap to_draw (at_line l n q) ∙ e) (ground arith)
    | inr q ↦ rw (still_below l n q) refl
  ]

  maybe_draw-keeps :
      (s : DrawState)
      → ((maybe_draw v s).drawn ≡ s.drawn)
        × ((maybe_draw v s).line_dirty ≡ s.line_dirty)
        × ((p : Point)
            → contains s.current p || covers s.sent p ≡ true
            → contains (maybe_draw v s).current p || covers (maybe_draw v s).sent p ≡ true)
  unfolding maybe_draw
  maybe_draw-keeps s = elim (Bool-cases (is_empty s.current || should_refresh v s.num_updates)) [
    | inl e ↦ rw e (refl, refl, λ p h. h)
    | inr e ↦ rw e (refl, refl, λ p h. ground (arith, h))
  ]

  maybe_draw-Upto :
      (n : ℕ) (s : DrawState) → to_draw n ≡ false → Upto n s → Upto (n + 1) (maybe_draw v s)
  maybe_draw-Upto n s e u =
      let (d, l, c) = maybe_draw-keeps s in
      record {
        lines = λ k. ap (is_in k) d ∙ u.lines k ∙ skipped k n e;
        dirt = λ k.
            ap (λ f. f k) l
            ∙ u.dirt k
            ∙ ap (λ b. if b then has_cursor k else start k) (skipped k n e);
        covered = λ k p h q. c p (u.covered k p (sym (ap (is_in k) d) ∙ h) q);
      }

  draw_line-Upto :
      (n : ℕ) (s : DrawState) → to_draw n ≡ true → Upto n s → Upto (n + 1) (draw_line v n s)
  unfolding draw_line
  draw_line-Upto n s e u = record {
    lines = λ l. elim (Bool-cases (l == n)) [
      | inl q ↦ rw (q, now_below l n q, ap to_draw (at_line l n q) ∙ e) refl
      | inr q ↦ rw (q, still_below l n q) (u.lines l)
    ];
    dirt = λ l. elim (Bool-cases (l == n)) [
      | inl q ↦
          rw (q, now_below l n q, ap to_draw (at_line l n q) ∙ e)
            (ap has_cursor (sym (at_line l n q)))
      | inr q ↦ rw (q, still_below l n q) (u.dirt l)
    ];
    covered = λ l p h k. elim (Bool-cases (l == n)) [
      | inl q ↦
          let here : contains (line_rect v n) p ≡ true =
            ap (λ l. contains (line_rect v l) p) (sym (at_line l n q)) ∙ k in
          ground (arith, here, contains-join s.current (line_rect v n) p)
      | inr q ↦
          joined s.current (line_rect v n) p (covers s.sent p)
            (u.covered l p (ground (arith, h, q)) k)
    ];
  }

  draw_lines-Upto :
      (left n m : ℕ) (s : DrawState) → n + left ≡ m → Upto n s → Upto m (draw_lines v left n s)
  unfolding draw_lines
  draw_lines-Upto zero n m s e u = subst (λ m. Upto m s) (omega (arith, e)) u
  draw_lines-Upto (suc left) n m s e u =
      let next : n + 1 + left ≡ m = omega (arith, e) in
      let same : s.line_dirty n ≡ start n =
        u.dirt n
        ∙ ap (λ b. if b && to_draw n then has_cursor n else start n)
            (not_below n n (ground arith)) in
      elim (Bool-cases (to_draw n)) [
        | inl f ↦
            rw (same, f)
              (draw_lines-Upto left (n + 1) m (draw_line v n s) next (draw_line-Upto n s f u))
        | inr f ↦
            rw (same, f)
              (draw_lines-Upto left (n + 1) m (maybe_draw v s) next (maybe_draw-Upto n s f u))
      ]

  flushed :
      (s : DrawState) (p : Point)
      → should_refresh v (maybe_draw v s).num_updates ≡ false
      → contains s.current p || covers s.sent p ≡ true
      → covers (maybe_draw v s).sent p ≡ true
  unfolding maybe_draw
  flushed s p h k = elim (Bool-cases (is_empty s.current)) [
    | inl e ↦ rw e (ground (arith, k, empty-no_points s.current p e))
    | inr e ↦ elim (Bool-cases (should_refresh v s.num_updates)) [
      | inl f ↦ absurd (ground (arith, e, f, h))
      | inr f ↦ rw (e, f) k
    ]
  ]

-- The line is dirty when the drawing begins: that of the cursor is.
abbrev start_dirty : View → (ℕ → Bool) → ℕ → Bool
start_dirty v dirty l = if v.cursor_on && l == v.cursor_y then true else dirty l

-- The lines that are drawn, what of them is sent, and the lines that are dirty then.
pub record Shown (v : View) (dirty : ℕ → Bool) (r : Redrawn) : Type 0 where
  pub lines : (l : ℕ) → is_in l r.drawn ≡ ltb l v.lines && (v.is_full_draw || start_dirty v dirty l)
  seen :
      r.refreshed ≡ false
      → (l : ℕ) (p : Point) → is_in l r.drawn ≡ true
      → contains (line_rect v l) p ≡ true
      → covers r.sent p ≡ true
  pub clean : (l : ℕ) → l < v.lines → r.line_dirty l ≡ v.cursor_on && v.cursor_y == l

start_draw-Upto :
    (v : View) (num : ℕ) (dirty : ℕ → Bool)
    → Upto v (start_dirty v dirty) 0 (start_draw v num dirty)
unfolding start_draw
start_draw-Upto v num dirty = record {
  lines = λ l. rw (below_none l) refl;
  dirt = λ l. rw (below_none l) refl;
  covered = λ l p h k. absurd (ground arith);
}

cleaned :
    (v : View) (dirty : ℕ → Bool) (l : ℕ)
    → ltb l v.lines ≡ true
    → (if ltb l v.lines && (v.is_full_draw || start_dirty v dirty l)
        then v.cursor_on && v.cursor_y == l
        else start_dirty v dirty l)
      ≡ v.cursor_on && v.cursor_y == l
cleaned v dirty l h = ground (arith, h)

-- The screen is drawn: exactly the lines that are dirty or have the cursor, or all of them in a full draw,
-- are drawn. Unless the whole rectangle is then returned for a refresh, each point of the rectangle
-- of a line that was drawn is in an update that was sent. No line is dirty then but that of the
-- cursor.
pub do_draw-Shown : (v : View) (num : ℕ) (dirty : ℕ → Bool) → Shown v dirty (do_draw v num dirty)
unfolding do_draw finish_draw
do_draw-Shown v num dirty =
    let start = start_dirty v dirty in
    let s = draw_lines v v.lines 0 (start_draw v num dirty) in
    let u =
      draw_lines-Upto v start v.lines 0 v.lines (start_draw v num dirty) (omega arith)
        (start_draw-Upto v num dirty) in
    let (d, l, c) = maybe_draw-keeps v start s in
    record {
      lines = λ k. ap (is_in k) d ∙ u.lines k;
      seen = λ h k p m q. flushed v start s p h (u.covered k p (sym (ap (is_in k) d) ∙ m) q);
      clean = λ k h. ap (λ f. f k) l ∙ u.dirt k ∙ cleaned v dirty k (ground (arith, h));
    }
