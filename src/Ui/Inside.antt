-- ===== src/Ui/Inside.antt =====
-- libs/rMlib/include/UI: a rectangle of a child lies in that of its parent.
use r_m2_stuff_rocket.Base.{
  ℕ, ◌≤◌, ◌+◌, ◌-◌, ◌≡◌, ◌==◌, Bool-cases, inl, inr, arith, ◌/◌, ap, ◌∙◌, sym, subst,
}
use r_m2_stuff_rocket.Base.Int.{ℤ, pos, ◌+ℤ◌, ◌-ℤ◌, ◌≤ℤ◌, half}
use r_m2_stuff_rocket.Rmlib.Geometry.{Rect, rect_width, rect_height}
use r_m2_stuff_rocket.Ui.Constraints.{Extent, Insets}
use r_m2_stuff_rocket.Ui.Draw.{child_rect, center_rect, corner_rect, shrink}

-- The rectangle has this size.
abbrev pub HasSize : Rect → Extent → Type 0
HasSize r s = (rect_width r ≡ pos s.width) × (rect_height r ≡ pos s.height)

abbrev pub Inside : Rect → Rect → Type 0
Inside r q =
    (r.top_left.x ≤ℤ q.top_left.x)
    × (r.top_left.y ≤ℤ q.top_left.y)
    × (q.bottom_right.x ≤ℤ r.bottom_right.x)
    × (q.bottom_right.y ≤ℤ r.bottom_right.y)

pub Inside-refl : (r : Rect) → Inside r r
Inside-refl r = (omega arith, omega arith, omega arith, omega arith)

pub Inside-trans : (r q p : Rect) → Inside r q → Inside q p → Inside r p
Inside-trans r q p h k = (
  omega (arith, h.0, k.0),
  omega (arith, h.1, k.1),
  omega (arith, h.2, k.2),
  omega (arith, h.3, k.3),
)

-- On one axis.
half-pos : (a : ℕ) → half (pos a) ≡ pos (a / 2)
half-pos a = ground arith

child_size : (lo d : ℤ) (m : ℕ) → lo +ℤ d +ℤ (pos m -ℤ pos 1) -ℤ (lo +ℤ d) +ℤ pos 1 ≡ pos m
unfolding ◌+ℤ◌ ◌-ℤ◌
child_size lo d m = ground arith

child_low : (lo : ℤ) (n : ℕ) → lo ≤ℤ lo +ℤ pos n
unfolding ◌+ℤ◌
child_low lo n = ground arith

child_high :
    (lo hi : ℤ) (n m d : ℕ)
    → hi -ℤ lo +ℤ pos 1 ≡ pos n
    → d + m ≤ n
    → lo +ℤ pos d +ℤ (pos m -ℤ pos 1) ≤ℤ hi
unfolding ◌+ℤ◌ ◌-ℤ◌
child_high lo hi n m d h k = ground arith

minus-pos : (n m : ℕ) → m ≤ n → pos n -ℤ pos m ≡ pos (n - m)
unfolding ◌-ℤ◌
minus-pos n m h = ground arith

shrunk_size :
    (lo hi : ℤ) (n a b : ℕ)
    → hi -ℤ lo +ℤ pos 1 ≡ pos (n + (a + b))
    → hi -ℤ pos b -ℤ (lo +ℤ pos a) +ℤ pos 1 ≡ pos n
unfolding ◌+ℤ◌ ◌-ℤ◌
shrunk_size lo hi n a b h = ground arith

shrunk_high : (hi : ℤ) (b : ℕ) → hi -ℤ pos b ≤ℤ hi
unfolding ◌-ℤ◌
shrunk_high hi b = ground arith

-- A rectangle of this size in another one.
abbrev pub Placed : Rect → Rect → Extent → Type 0
Placed r q t = HasSize q t × Inside r q

-- No side is longer.
abbrev pub Smaller : Extent → Extent → Type 0
Smaller t s = (t.width ≤ s.width) × (t.height ≤ s.height)

module _ (r : Rect) (s t : Extent) (h : HasSize r s) where
  child_rect-Placed :
      (dx dy : ℕ)
      → dx + t.width ≤ s.width
      → dy + t.height ≤ s.height
      → Placed r (child_rect (pos dx) (pos dy) r t) t
  unfolding child_rect rect_width rect_height
  child_rect-Placed dx dy k l = (
    (child_size r.top_left.x (pos dx) t.width, child_size r.top_left.y (pos dy) t.height),
    (
      child_low r.top_left.x dx,
      child_low r.top_left.y dy,
      child_high r.top_left.x r.bottom_right.x s.width t.width dx h.0 k,
      child_high r.top_left.y r.bottom_right.y s.height t.height dy h.1 l,
    ),
  )

  module _ (k : Smaller t s) where
    pub first_rect-Placed : Placed r (child_rect (pos 0) (pos 0) r t) t
    first_rect-Placed = child_rect-Placed 0 0 (omega (arith, k.0)) (omega (arith, k.1))

    free_width : rect_width r -ℤ pos t.width ≡ pos (s.width - t.width)
    free_width = ap (λ n. n -ℤ pos t.width) h.0 ∙ minus-pos s.width t.width k.0

    free_height : rect_height r -ℤ pos t.height ≡ pos (s.height - t.height)
    free_height = ap (λ n. n -ℤ pos t.height) h.1 ∙ minus-pos s.height t.height k.1

    pub center_rect-Placed : Placed r (center_rect r t) t
    unfolding center_rect
    center_rect-Placed =
        subst (λ q. Placed r q t)
          (λ i.
            child_rect (sym (ap half free_width ∙ half-pos (s.width - t.width)) i)
              (sym (ap half free_height ∙ half-pos (s.height - t.height)) i) r t)
          (child_rect-Placed ((s.width - t.width) / 2) ((s.height - t.height) / 2)
            (omega (arith, k.0)) (omega (arith, k.1)))

    pub corner_rect-Placed : (n : ℕ) → Placed r (corner_rect n r t) t
    unfolding corner_rect
    corner_rect-Placed n = elim (Bool-cases (n == 0)) [
      | inl e ↦ rw e first_rect-Placed
      | inr e ↦ elim (Bool-cases (n == 1)) [
        | inl f ↦
            rw (e, f, free_width)
              (child_rect-Placed (s.width - t.width) 0 (omega (arith, k.0)) (omega (arith, k.1)))
        | inr f ↦ elim (Bool-cases (n == 2)) [
          | inl g ↦
              rw (e, f, g, free_width, free_height)
                (child_rect-Placed (s.width - t.width) (s.height - t.height) (omega (arith, k.0))
                  (omega (arith, k.1)))
          | inr g ↦
              rw (e, f, g, free_height)
                (child_rect-Placed 0 (s.height - t.height) (omega (arith, k.0))
                  (omega (arith, k.1)))
        ]
      ]
    ]

pub shrink-Placed :
    (i : Insets) (r : Rect) (s t : Extent)
    → HasSize r s
    → s.width ≡ t.width + (i.left + i.right)
    → s.height ≡ t.height + (i.top + i.bottom)
    → Placed r (shrink i r) t
unfolding shrink rect_width rect_height
shrink-Placed i r s t h k l = (
  (
    shrunk_size r.top_left.x r.bottom_right.x t.width i.left i.right (h.0 ∙ ap pos k),
    shrunk_size r.top_left.y r.bottom_right.y t.height i.top i.bottom (h.1 ∙ ap pos l),
  ),
  (
    child_low r.top_left.x i.left,
    child_low r.top_left.y i.top,
    shrunk_high r.bottom_right.x i.right,
    shrunk_high r.bottom_right.y i.bottom,
  ),
)
