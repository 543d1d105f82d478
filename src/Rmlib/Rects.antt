-- ===== src/Rmlib/Rects.antt =====
-- libs/rMlib/include/MathUtil.h: the points of a rectangle, under intersection, union and containment.
use r_m2_stuff_rocket.Base.{Bool, true, false, ◌&&◌, ◌||◌, ◌≡◌, inl, inr, arith, refl, Bool-cases}
use r_m2_stuff_rocket.Base.Int.{
  ℤ, leb_ℤ, min_ℤ, max_ℤ, leb_ℤ-max, leb_ℤ-min, leb_ℤ-min_left, leb_ℤ-max_right, leb_ℤ-no_length,
}
use r_m2_stuff_rocket.Rmlib.Geometry.{
  contains_rect, Point, Rect, rect_width, rect_height, is_empty, join, meet, contains,
}

regroup :
    (a b c d e f g h : Bool)
    → (a && e) && (b && f) && (c && g) && (d && h) ≡ (a && b && c && d) && (e && f && g && h)
regroup a b c d e f g h = ground arith

-- A point lies in the intersection of two rectangles exactly if it lies in both.
contains-meet : (a b : Rect) (p : Point) → contains (meet a b) p ≡ contains a p && contains b p
unfolding contains meet
contains-meet a b p =
    rw
      (
        leb_ℤ-max a.top_left.x b.top_left.x p.x,
        leb_ℤ-min a.bottom_right.x b.bottom_right.x p.x,
        leb_ℤ-max a.top_left.y b.top_left.y p.y,
        leb_ℤ-min a.bottom_right.y b.bottom_right.y p.y,
      )
      (regroup (leb_ℤ a.top_left.x p.x) (leb_ℤ p.x a.bottom_right.x) (leb_ℤ a.top_left.y p.y)
        (leb_ℤ p.y a.bottom_right.y) (leb_ℤ b.top_left.x p.x) (leb_ℤ p.x b.bottom_right.x)
        (leb_ℤ b.top_left.y p.y) (leb_ℤ p.y b.bottom_right.y))

widen :
    (a b c d e f g h : Bool)
    → (a && b && c && d) || (e && f && g && h) ≡ true
    → (a || e) && (b || f) && (c || g) && (d || h) ≡ true
widen a b c d e f g h k = ground arith

only_left : (a b : Bool) → a || b ≡ true → b ≡ false → a ≡ true
only_left a b h e = ground arith

-- A rectangle that is empty has no points.
pub empty-no_points : (r : Rect) (p : Point) → is_empty r ≡ true → contains r p ≡ false
unfolding is_empty contains rect_width rect_height
empty-no_points r p h = ground (arith, leb_ℤ-no_length r.top_left.x r.bottom_right.x p.x)

contains-span :
    (a b : Rect) (p : Point)
    → contains a p || contains b p ≡ true
    → contains
        (record {
          top_left = record {
            x = min_ℤ a.top_left.x b.top_left.x;
            y = min_ℤ a.top_left.y b.top_left.y;
          };
          bottom_right = record {
            x = max_ℤ a.bottom_right.x b.bottom_right.x;
            y = max_ℤ a.bottom_right.y b.bottom_right.y;
          };
        })
        p
      ≡ true
unfolding contains
contains-span a b p h =
    rw
      (
        leb_ℤ-min_left a.top_left.x b.top_left.x p.x,
        leb_ℤ-max_right a.bottom_right.x b.bottom_right.x p.x,
        leb_ℤ-min_left a.top_left.y b.top_left.y p.y,
        leb_ℤ-max_right a.bottom_right.y b.bottom_right.y p.y,
      )
      (widen (leb_ℤ a.top_left.x p.x) (leb_ℤ p.x a.bottom_right.x) (leb_ℤ a.top_left.y p.y)
        (leb_ℤ p.y a.bottom_right.y) (leb_ℤ b.top_left.x p.x) (leb_ℤ p.x b.bottom_right.x)
        (leb_ℤ b.top_left.y p.y) (leb_ℤ p.y b.bottom_right.y) h)

-- Every point of either rectangle lies in the union, so that no update is lost.
pub contains-join :
    (a b : Rect) (p : Point) → contains a p || contains b p ≡ true → contains (join a b) p ≡ true
unfolding join
contains-join a b p h = elim (Bool-cases (is_empty b)) [
  | inl e ↦ rw e (only_left (contains a p) (contains b p) h (empty-no_points b p e))
  | inr e ↦ elim (Bool-cases (is_empty a)) [
    | inl f ↦ rw (e, f) (ground (arith, empty-no_points a p f))
    | inr f ↦ rw (e, f) (contains-span a b p h)
  ]
]

leb_ℤ-trans : (a b c : ℤ) → leb_ℤ a b ≡ true → leb_ℤ b c ≡ true → leb_ℤ a c ≡ true
unfolding leb_ℤ
leb_ℤ-trans a b c h k = ground arith

and_true : (a b : Bool) → a && b ≡ true → (a ≡ true) × (b ≡ true)
and_true true b h = (refl, h)
and_true false b h = absurd (ground arith)

pub and_all :
    (a b c d : Bool) → a && b && c && d ≡ true → (a ≡ true) × (b ≡ true) × (c ≡ true) × (d ≡ true)
and_all a b c d h = ground arith

-- A rectangle that contains another one, which is not empty, contains all its points.
contains_rect-contains :
    (r s : Rect) (p : Point)
    → is_empty s ≡ false
    → contains_rect r s ≡ true
    → contains s p ≡ true
    → contains r p ≡ true
unfolding contains_rect contains
contains_rect-contains r s p e h k =
    let corners =
      and_true (contains r s.top_left) (contains r s.bottom_right) (ground (arith, e, h)) in
    let first =
      and_all (leb_ℤ r.top_left.x s.top_left.x) (leb_ℤ s.top_left.x r.bottom_right.x)
        (leb_ℤ r.top_left.y s.top_left.y) (leb_ℤ s.top_left.y r.bottom_right.y) corners.0 in
    let last =
      and_all (leb_ℤ r.top_left.x s.bottom_right.x) (leb_ℤ s.bottom_right.x r.bottom_right.x)
        (leb_ℤ r.top_left.y s.bottom_right.y) (leb_ℤ s.bottom_right.y r.bottom_right.y) corners.1 in
    let inner =
      and_all (leb_ℤ s.top_left.x p.x) (leb_ℤ p.x s.bottom_right.x) (leb_ℤ s.top_left.y p.y)
        (leb_ℤ p.y s.bottom_right.y) k in
    let a = leb_ℤ-trans r.top_left.x s.top_left.x p.x first.0 inner.0 in
    let b = leb_ℤ-trans p.x s.bottom_right.x r.bottom_right.x inner.1 last.1 in
    let c = leb_ℤ-trans r.top_left.y s.top_left.y p.y first.2 inner.2 in
    let d = leb_ℤ-trans p.y s.bottom_right.y r.bottom_right.y inner.3 last.3 in rw (a, b, c, d) refl
