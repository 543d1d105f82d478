-- ===== src/Rmlib/LineMoves.antt =====
-- libs/rMlib/Canvas.cpp, `drawLine`: one round of the loop, and what a trace of pixels is.
use r_m2_stuff_rocket.Base.{
  ℕ, suc, true, false, Option, some, List, [], ◌∷◌, ◌+◌, ◌-◌, ◌&&◌, ◌≡◌, ◌≤◌, ◌<◌, refl, ap, ◌∙◌,
  arith, All, Bool-cases, inl, inr, ◌⊎◌, length,
}
use r_m2_stuff_rocket.Base.Int.{ℤ, pos, negsuc, ◌+ℤ◌, ◌-ℤ◌, ◌≤ℤ◌, ltb_ℤ, eqb_ℤ, leb_ℤ}
use r_m2_stuff_rocket.Rmlib.Geometry.{Point, Rect, contains}
use r_m2_stuff_rocket.Rmlib.Rects.{and_all}
use r_m2_stuff_rocket.Rmlib.Line.{
  abs, direction, next_x, next_y, next_err, point, then_points, line_loop,
}

-- From this coordinate it is so many steps to the end.
abbrev pub Toward : ℤ → ℤ → ℤ → ℕ → Type 0
Toward s x e r = ((s ≡ pos 1) × (e ≡ x +ℤ pos r)) ⊎ ((s ≡ negsuc 0) × (x ≡ e +ℤ pos r))

pub Toward-step : (s x e : ℤ) (r : ℕ) → Toward s x e (suc r) → Toward s (x +ℤ s) e r
unfolding ◌+ℤ◌
Toward-step s x e r (inl (h, k)) = inl (h, ground arith)
Toward-step s x e r (inr (h, k)) = inr (h, ground arith)

pub Toward-zero : (s x e : ℤ) → Toward s x e 0 → x ≡ e
unfolding ◌+ℤ◌
Toward-zero s x e (inl (h, k)) = ground arith
Toward-zero s x e (inr (h, k)) = ground arith

pub Toward-ne : (s x e : ℤ) (r : ℕ) → Toward s x e (suc r) → eqb_ℤ x e ≡ false
unfolding ◌+ℤ◌
Toward-ne s x e r (inl (h, k)) = ground arith
Toward-ne s x e r (inr (h, k)) = ground arith

pub direction-Toward : (a b : ℤ) (n : ℕ) → abs (b -ℤ a) ≡ pos n → Toward (direction a b) a b n
unfolding ◌+ℤ◌ ◌-ℤ◌
direction-Toward a b n h = elim (Bool-cases (ltb_ℤ a b)) [
  | inl e ↦ rw e (inl (refl, ground arith))
  | inr e ↦ rw e (inr (refl, ground arith))
]

pub x_step : (dx dy e : ℕ) (sx x : ℤ) → 0 < dx → next_x (pos dx) sx (pos e) x ≡ x +ℤ sx
unfolding ◌-ℤ◌
x_step dx dy e sx x h = ground arith

pub low_err :
    (dx dy e : ℕ)
    → 0 < dx
    → e < dy
    → dy ≤ dx
    → next_err (pos dx) (pos dy) (pos e) ≡ pos (e + dx - dy)
unfolding ◌-ℤ◌ ◌+ℤ◌
low_err dx dy e h k l = ground arith

pub high_err : (dx dy e : ℕ) → 0 < dx → dy ≤ e → next_err (pos dx) (pos dy) (pos e) ≡ pos (e - dy)
unfolding ◌-ℤ◌ ◌+ℤ◌
high_err dx dy e h k = ground arith

abbrev pub neg : ℕ → ℤ
neg m = pos 0 -ℤ pos m

pub y_step : (dy m : ℕ) (sy y : ℤ) → 0 < dy → next_y (pos dy) sy (neg m) y ≡ y +ℤ sy
unfolding ◌-ℤ◌
y_step dy m sy y h = ground arith

pub near_x : (dx m : ℕ) (sx x : ℤ) → m < dx → next_x (pos dx) sx (neg m) x ≡ x +ℤ sx
unfolding ◌-ℤ◌
near_x dx m sx x h = ground arith

pub far_x : (dx m : ℕ) (sx x : ℤ) → dx ≤ m → next_x (pos dx) sx (neg m) x ≡ x
unfolding ◌-ℤ◌
far_x dx m sx x h = ground arith

pub near_err :
    (dx dy m : ℕ)
    → m < dx
    → dx ≤ dy
    → 0 < dy
    → next_err (pos dx) (pos dy) (neg m) ≡ neg (m + dy - dx)
unfolding ◌-ℤ◌ ◌+ℤ◌
near_err dx dy m h k l = ground arith

pub far_err : (dx dy m : ℕ) → dx ≤ m → 0 < dy → next_err (pos dx) (pos dy) (neg m) ≡ neg (m - dx)
unfolding ◌-ℤ◌ ◌+ℤ◌
far_err dx dy m h l = ground arith

-- A coordinate moves by at most one, and not beyond the end.
pub record Moves (x e x' : ℤ) : Type 0 where
  forward : x' ≤ℤ x +ℤ pos 1
  back : x ≤ℤ x' +ℤ pos 1
  above : (a : ℤ) → leb_ℤ a x ≡ true → leb_ℤ a e ≡ true → leb_ℤ a x' ≡ true
  pub below : (a : ℤ) → leb_ℤ x a ≡ true → leb_ℤ e a ≡ true → leb_ℤ x' a ≡ true

pub Moves-stay : (x e : ℤ) → Moves x e x
unfolding ◌+ℤ◌
Moves-stay x e = record {
  forward = ground arith;
  back = ground arith;
  above = λ a h k. h;
  below = λ a h k. h;
}

pub Moves-step : (s x e : ℤ) (r : ℕ) → Toward s x e (suc r) → Moves x e (x +ℤ s)
unfolding ◌+ℤ◌ leb_ℤ
Moves-step s x e r (inl (h, k)) = record {
  forward = ground arith;
  back = ground arith;
  above = λ a u v. ground arith;
  below = λ a u v. ground arith;
}
Moves-step s x e r (inr (h, k)) = record {
  forward = ground arith;
  back = ground arith;
  above = λ a u v. ground arith;
  below = λ a u v. ground arith;
}

-- Two pixels that touch, at least at a corner.
record Near (p q : Point) : Type 0 where
  pub right : q.x ≤ℤ p.x +ℤ pos 1
  pub left : p.x ≤ℤ q.x +ℤ pos 1
  pub down : q.y ≤ℤ p.y +ℤ pos 1
  pub up : p.y ≤ℤ q.y +ℤ pos 1

abbrev Chain : Point → List Point → Type 0
Chain p [] = Unit {0}
Chain p (a ∷ as_) = Near p a × Chain a as_

abbrev last_point : Point → List Point → Point
last_point p [] = p
last_point p (a ∷ as_) = last_point a as_

-- The pixels go from one point to the other without a gap, this many after the first, and stay in every
-- rectangle that has both ends.
pub record Traces (p q : Point) (n : ℕ) (r : Option (List Point)) : Type 0 where
  pub rest : List Point
  pub returns : r ≡ some (p ∷ rest)
  ends : last_point p rest ≡ q
  chain : Chain p rest
  pub count : length rest ≡ n
  pub inside :
      (box : Rect)
      → contains box p ≡ true
      → contains box q ≡ true
      → All (λ a. contains box a ≡ true) (p ∷ rest)

same_eqb : (x e : ℤ) → x ≡ e → eqb_ℤ x e ≡ true
same_eqb x e h = ground arith

contains_moved :
    (box : Rect) (x y x' y' ex ey : ℤ)
    → Moves x ex x'
    → Moves y ey y'
    → contains box (point x y) ≡ true
    → contains box (point ex ey) ≡ true
    → contains box (point x' y') ≡ true
unfolding contains
contains_moved box x y x' y' ex ey mx my a b =
    let u =
      and_all (leb_ℤ box.top_left.x x) (leb_ℤ x box.bottom_right.x) (leb_ℤ box.top_left.y y)
        (leb_ℤ y box.bottom_right.y) a in
    let v =
      and_all (leb_ℤ box.top_left.x ex) (leb_ℤ ex box.bottom_right.x) (leb_ℤ box.top_left.y ey)
        (leb_ℤ ey box.bottom_right.y) b in
    rw
      (
        mx.above box.top_left.x u.0 v.0,
        mx.below box.bottom_right.x u.1 v.1,
        my.above box.top_left.y u.2 v.2,
        my.below box.bottom_right.y u.3 v.3,
      )
      refl

module _ (ex ey dx dy sx sy : ℤ) (fuel : ℕ) (x y err : ℤ) where
  pub loop_ends :
      x ≡ ex
      → y ≡ ey
      → Traces (point x y) (point ex ey) 0 (line_loop ex ey dx dy sx sy (suc fuel) x y err)
  unfolding line_loop
  loop_ends h k = record {
    rest = [];
    returns = rw (same_eqb x ex h, same_eqb y ey k, line_loop) refl;
    ends = λ i. point (h i) (k i);
    chain = tt;
    count = refl;
    inside = λ box a b. (a, tt);
  }

  then_loop :
      (x' y' err' : ℤ)
      → next_x dx sx err x ≡ x'
      → next_y dy sy err y ≡ y'
      → next_err dx dy err ≡ err'
      → line_loop ex ey dx dy sx sy fuel
          (next_x dx sx err x)
          (next_y dy sy err y)
          (next_err dx dy err)
        ≡ line_loop ex ey dx dy sx sy fuel x' y' err'
  then_loop x' y' err' hx hy he i = line_loop ex ey dx dy sx sy fuel (hx i) (hy i) (he i)

  pub loop_goes :
      (n : ℕ) (x' y' err' : ℤ)
      → eqb_ℤ x ex && eqb_ℤ y ey ≡ false
      → next_x dx sx err x ≡ x'
      → next_y dy sy err y ≡ y'
      → next_err dx dy err ≡ err'
      → Moves x ex x'
      → Moves y ey y'
      → Traces (point x' y') (point ex ey) n (line_loop ex ey dx dy sx sy fuel x' y' err')
      → Traces (point x y) (point ex ey) (suc n) (line_loop ex ey dx dy sx sy (suc fuel) x y err)
  unfolding line_loop
  loop_goes n x' y' err' e hx hy he mx my t = record {
    rest = point x' y' ∷ t.rest;
    returns =
        rw (e, line_loop)
          (ap (then_points (point x y)) (then_loop x' y' err' hx hy he ∙ t.returns));
    ends = t.ends;
    chain =
        (record { right = mx.forward; left = mx.back; down = my.forward; up = my.back }, t.chain);
    count = ap suc t.count;
    inside = λ box a b. (a, t.inside box (contains_moved box x y x' y' ex ey mx my a b) b);
  }
