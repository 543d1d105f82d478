-- ===== src/Rmlib/Bresenham.antt =====
-- libs/rMlib/Canvas.cpp, `drawLine`: the loop goes from one end to the other.
use r_m2_stuff_rocket.Base.{
  ℕ, zero, suc, Bool, false, ◌+◌, ◌-◌, ◌*◌, ◌/◌, ◌&&◌, ◌≡◌, ◌≤◌, ◌<◌, max, refl, subst, arith, ltb,
  ltb→lt, Bool-cases, inl, inr,
}
use r_m2_stuff_rocket.Base.Int.{ℤ, pos, pos_part, neg_part, ◌+ℤ◌, ◌-ℤ◌, ltb_ℤ, eqb_ℤ, half}
use r_m2_stuff_rocket.Rmlib.Geometry.{Point}
use r_m2_stuff_rocket.Rmlib.Line.{direction, next_y, point, line_loop, first_err, line_points}
use r_m2_stuff_rocket.Rmlib.LineMoves.{
  Toward, Toward-step, Toward-zero, Toward-ne, direction-Toward, x_step, low_err, high_err, neg,
  y_step, near_x, far_x, near_err, far_err, Moves-stay, Moves-step, Traces, loop_ends, loop_goes,
}

and_false_left : (a b : Bool) → a ≡ false → a && b ≡ false
and_false_left a b h = ground arith

and_false_right : (a b : Bool) → b ≡ false → a && b ≡ false
and_false_right a b h = ground arith

y_low : (dy e : ℕ) (sy y : ℤ) → e < dy → next_y (pos dy) sy (pos e) y ≡ y +ℤ sy
y_low dy e sy y h = ground arith

y_high : (dy e : ℕ) (sy y : ℤ) → dy ≤ e → next_y (pos dy) sy (pos e) y ≡ y
y_high dy e sy y h = ground arith

-- The sums that the rounds keep.
none_left : (e r d f : ℕ) → 0 < d → e + r * d ≡ d / 2 + 0 * f → r ≡ 0
none_left e zero d f h b = refl
none_left e (suc r) d f h b = absurd (grind arith)

some_left : (e r d f s : ℕ) → e < f → e + r * d ≡ d / 2 + suc s * f → (r' : ℕ) × (r ≡ suc r')
some_left e zero d f s h b = absurd (grind arith)
some_left e (suc r) d f s h b = (r, refl)

keep_low :
    (e r d f s : ℕ)
    → e < f
    → f ≤ d
    → e + suc r * d ≡ d / 2 + suc s * f
    → (e + d - f) + r * d ≡ d / 2 + s * f
keep_low e r d f s h k b = omega (arith, b, h, k)

keep_high :
    (e r d f s : ℕ) → f ≤ e → e + r * d ≡ d / 2 + suc s * f → (e - f) + r * d ≡ d / 2 + s * f
keep_high e r d f s h b = omega (arith, b, h)

-- More across than down: `err` is not negative, and each round takes a step across.
module _ (dx dy : ℕ) (ex ey sx sy : ℤ) (h : dy < dx) where
  flat :
      (fuel rx ry e : ℕ) (x y : ℤ)
      → e + ry * dx ≡ dx / 2 + rx * dy
      → e < dx
      → Toward sx x ex rx
      → Toward sy y ey ry
      → rx < fuel
      → Traces
          (point x y)
          (point ex ey)
          rx
          (line_loop ex ey (pos dx) (pos dy) sx sy fuel x y (pos e))
  flat zero rx ry e x y b l tx ty f = absurd (omega arith)
  flat (suc fuel) zero ry e x y b l tx ty f =
      loop_ends ex ey (pos dx) (pos dy) sx sy fuel x y (pos e) (Toward-zero sx x ex tx) (
        Toward-zero sy y ey
          (subst (λ r. Toward sy y ey r) (none_left e ry dx dy (omega (arith, h)) b) ty))
  flat (suc fuel) (suc rx) ry e x y b l tx ty f =
      let ne = and_false_left (eqb_ℤ x ex) (eqb_ℤ y ey) (Toward-ne sx x ex rx tx) in
      let across = x_step dx dy e sx x (omega (arith, h)) in
      let tx' = Toward-step sx x ex rx tx in
      elim (Bool-cases (ltb e dy)) [
        | inl q ↦
            let low = ltb→lt e dy q in
            let (r, eq) = some_left e ry dx dy rx low b in
            let ty' = subst (λ r. Toward sy y ey r) eq ty in
            let b' = subst (λ r. e + r * dx ≡ dx / 2 + suc rx * dy) eq b in
            loop_goes ex ey (pos dx) (pos dy) sx sy fuel x y (pos e) rx (x +ℤ sx) (y +ℤ sy)
              (pos (e + dx - dy)) ne across (y_low dy e sy y low)
              (low_err dx dy e (omega (arith, h)) low (omega (arith, h))) (Moves-step sx x ex rx tx)
              (Moves-step sy y ey r ty')
              (flat fuel rx r (e + dx - dy) (x +ℤ sx) (y +ℤ sy)
                (keep_low e r dx dy rx low (omega (arith, h)) b') (omega (arith, low, h)) tx'
                (Toward-step sy y ey r ty') (omega (arith, f)))
        | inr q ↦
            let high : dy ≤ e = ground arith in
            loop_goes ex ey (pos dx) (pos dy) sx sy fuel x y (pos e) rx (x +ℤ sx) y (pos (e - dy))
              ne across (y_high dy e sy y high) (high_err dx dy e (omega (arith, h)) high)
              (Moves-step sx x ex rx tx) (Moves-stay y ey)
              (flat fuel rx ry (e - dy) (x +ℤ sx) y (keep_high e ry dx dy rx high b)
                (omega (arith, l)) tx' ty (omega (arith, f)))
      ]

-- The same for the other half: `err` is not positive, and each round takes a step down.
module _ (dx dy : ℕ) (ex ey sx sy : ℤ) (h : dx ≤ dy) (p : 0 < dy) where
  steep :
      (fuel rx ry m : ℕ) (x y : ℤ)
      → m + rx * dy ≡ dy / 2 + ry * dx
      → m < dy
      → Toward sx x ex rx
      → Toward sy y ey ry
      → ry < fuel
      → Traces
          (point x y)
          (point ex ey)
          ry
          (line_loop ex ey (pos dx) (pos dy) sx sy fuel x y (neg m))
  steep zero rx ry m x y b l tx ty f = absurd (omega arith)
  steep (suc fuel) rx zero m x y b l tx ty f =
      loop_ends ex ey (pos dx) (pos dy) sx sy fuel x y (neg m)
        (Toward-zero sx x ex (subst (λ r. Toward sx x ex r) (none_left m rx dy dx p b) tx))
        (Toward-zero sy y ey ty)
  steep (suc fuel) rx (suc ry) m x y b l tx ty f =
      let ne = and_false_right (eqb_ℤ x ex) (eqb_ℤ y ey) (Toward-ne sy y ey ry ty) in
      let ty' = Toward-step sy y ey ry ty in
      elim (Bool-cases (ltb m dx)) [
        | inl q ↦
            let low = ltb→lt m dx q in
            let (r, eq) = some_left m rx dy dx ry low b in
            let tx' = subst (λ r. Toward sx x ex r) eq tx in
            let b' = subst (λ r. m + r * dy ≡ dy / 2 + suc ry * dx) eq b in
            loop_goes ex ey (pos dx) (pos dy) sx sy fuel x y (neg m) ry (x +ℤ sx) (y +ℤ sy)
              (neg (m + dy - dx)) ne (near_x dx m sx x low) (y_step dy m sy y p)
              (near_err dx dy m low h p) (Moves-step sx x ex r tx') (Moves-step sy y ey ry ty)
              (steep fuel r ry (m + dy - dx) (x +ℤ sx) (y +ℤ sy) (keep_low m r dy dx ry low h b')
                (omega (arith, low, h)) (Toward-step sx x ex r tx') ty' (omega (arith, f)))
        | inr q ↦
            let high : dx ≤ m = ground arith in
            loop_goes ex ey (pos dx) (pos dy) sx sy fuel x y (neg m) ry x (y +ℤ sy) (neg (m - dx))
              ne (far_x dx m sx x high) (y_step dy m sy y p) (far_err dx dy m high p)
              (Moves-stay x ex) (Moves-step sy y ey ry ty)
              (steep fuel rx ry (m - dx) x (y +ℤ sy) (keep_high m rx dy dx ry high b)
                (omega (arith, l)) tx ty' (omega (arith, f)))
      ]

abbrev pub distance : ℤ → ℤ → ℕ
distance a b = pos_part (b -ℤ a) + neg_part (b -ℤ a)

halved_below : (n : ℕ) → half (pos 0 -ℤ pos n) ≡ neg (n / 2)
unfolding ◌-ℤ◌
halved_below n = ground arith

flat_start : (dx dy : ℕ) → dx / 2 + dy * dx ≡ dx / 2 + dx * dy
flat_start dx dy = grind arith

flat_err : (dx dy : ℕ) → dy < dx → first_err (pos dx) (pos dy) ≡ pos (dx / 2)
flat_err dx dy h = ground arith

steep_err : (dx dy : ℕ) → dx ≤ dy → first_err (pos dx) (pos dy) ≡ neg (dy / 2)
steep_err dx dy h = let e : ltb_ℤ (pos dy) (pos dx) ≡ false = ground arith in rw e (halved_below dy)

from_steep :
    (fuel dx dy : ℕ) (ex ey sx sy x y : ℤ)
    → dx ≤ dy
    → dy < fuel
    → Toward sx x ex dx
    → Toward sy y ey dy
    → Traces
        (point x y)
        (point ex ey)
        dy
        (line_loop ex ey (pos dx) (pos dy) sx sy fuel x y (neg (dy / 2)))
from_steep fuel dx (suc dy) ex ey sx sy x y h f tx ty =
    steep dx (suc dy) ex ey sx sy h (omega arith) fuel dx (suc dy) (suc dy / 2) x y
      (flat_start (suc dy) dx) (omega arith) tx ty f
from_steep zero dx zero ex ey sx sy x y h f tx ty = absurd (omega arith)
from_steep (suc fuel) (suc dx) zero ex ey sx sy x y h f tx ty = absurd (omega arith)
from_steep (suc fuel) zero zero ex ey sx sy x y h f tx ty =
    loop_ends ex ey (pos 0) (pos 0) sx sy fuel x y (neg (0 / 2)) (Toward-zero sx x ex tx)
      (Toward-zero sy y ey ty)

-- The loop of `drawLine` ends, after as many rounds as the line is long along its longer axis and one
-- more: the pixels go from the start to the end without a gap, and stay in every rectangle that has
-- both ends.
pub line_points-Traces :
    (fuel : ℕ) (start end : Point)
    → max (distance start.x end.x) (distance start.y end.y) < fuel
    → Traces start end
        (max (distance start.x end.x) (distance start.y end.y))
        (line_points fuel start end)
unfolding line_points
line_points-Traces fuel start end h =
    let dx = distance start.x end.x in
    let dy = distance start.y end.y in
    let sx = direction start.x end.x in
    let sy = direction start.y end.y in
    let tx = direction-Toward start.x end.x dx refl in
    let ty = direction-Toward start.y end.y dy refl in
    elim (Bool-cases (ltb dy dx)) [
      | inl q ↦
          let l = ltb→lt dy dx q in
          let most : max dx dy ≡ dx = omega (arith, l) in
          rw (most, flat_err dx dy l)
            (flat dx dy end.x end.y sx sy l fuel dx dy (dx / 2) start.x start.y (flat_start dx dy)
              (omega (arith, l)) tx ty (omega (arith, h, l)))
      | inr q ↦
          let l : dx ≤ dy = ground arith in
          let most : max dx dy ≡ dy = omega (arith, l) in
          rw (most, steep_err dx dy l)
            (from_steep fuel dx dy end.x end.y sx sy start.x start.y l (omega (arith, h, most)) tx
              ty)
    ]
