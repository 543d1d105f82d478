-- ===== src/Ui/WrapDraw.antt =====
-- libs/rMlib/include/UI/Wrap.h: the drawing breaks the lines where the layout did.
use r_m2_stuff_rocket.Base.{
  ℕ, false, Option, some, List, [], ◌∷◌, ◌+◌, ◌-◌, ◌/◌, ◌≤◌, ◌<◌, ◌≡◌, refl, max, ltb, inl, inr,
  arith, All, Bool-cases, ap,
}
use r_m2_stuff_rocket.Base.Int.{pos, ◌+ℤ◌, ◌-ℤ◌, ◌≤ℤ◌, ltb_ℤ}
use r_m2_stuff_rocket.Ui.Constraints.{Extent}
use r_m2_stuff_rocket.Ui.Wrap.{
  Axis, main_length, cross_length, push_run, wrap, Placed, and_then, draw_all, centered,
  draw_wrapped,
}

-- The child lies in a rectangle of these lengths, whose corner is the origin.
abbrev Inside : Axis → ℕ → ℕ → Placed → Type 0
Inside axis room_main room_cross p =
    (pos 0 ≤ℤ p.at_main)
    × (p.at_main +ℤ pos (main_length axis p.size) ≤ℤ pos room_main)
    × (pos 0 ≤ℤ p.at_cross)
    × (p.at_cross +ℤ pos (cross_length axis p.size) ≤ℤ pos room_cross)

abbrev sizes_of : List Placed → List Extent
sizes_of [] = []
sizes_of (p ∷ ps) = p.size ∷ sizes_of ps

-- Every child is drawn, in order and inside the rectangle.
pub record Draws (axis : Axis) (room_main room_cross : ℕ) (sizes : List Extent)
    (r : Option (List Placed)) : Type 0 where
  placed : List Placed
  pub returns : r ≡ some placed
  complete : sizes_of placed ≡ sizes
  inside : All (Inside axis room_main room_cross) placed

pos_add : (m n : ℕ) → pos m +ℤ pos n ≡ pos (m + n)
unfolding ◌+ℤ◌
pos_add m n = ground arith

centered_lem : (room total : ℕ) → total ≤ room → centered room total ≡ pos ((room - total) / 2)
unfolding ◌-ℤ◌
centered_lem room total h = ground arith

module _ (axis : Axis) (most : ℕ) where
  wrap-total_main :
      (rm rc m c : ℕ) (sizes : List Extent) → max rm m ≤ (wrap axis most rm rc m c sizes).total_main
  unfolding wrap
  wrap-total_main rm rc m c [] = omega arith
  wrap-total_main rm rc m c (s ∷ rest) = ground (
    arith,
    wrap-total_main (max rm m) (rc + c) (main_length axis s) (cross_length axis s) rest,
    wrap-total_main rm rc (m + main_length axis s) (max (cross_length axis s) c) rest,
  )

  wrap-total_cross :
      (rm rc m c : ℕ) (sizes : List Extent) → rc + c ≤ (wrap axis most rm rc m c sizes).total_cross
  unfolding wrap
  wrap-total_cross rm rc m c [] = omega arith
  wrap-total_cross rm rc m c (s ∷ rest) = ground (
    arith,
    wrap-total_cross (max rm m) (rc + c) (main_length axis s) (cross_length axis s) rest,
    wrap-total_cross rm rc (m + main_length axis s) (max (cross_length axis s) c) rest,
  )

-- One round of each loop, by whether the line is broken.
module _ (axis : Axis) (most rm rc m c : ℕ) (s : Extent) (rest : List Extent) where
  wrap_broken :
      most < m + main_length axis s
      → wrap axis most rm rc m c (s ∷ rest)
        ≡ push_run c
            (wrap axis most (max rm m) (rc + c) (main_length axis s) (cross_length axis s) rest)
  unfolding wrap
  wrap_broken h = ground arith

  wrap_onward :
      m + main_length axis s ≤ most
      → wrap axis most rm rc m c (s ∷ rest)
        ≡ wrap axis most rm rc (m + main_length axis s) (max (cross_length axis s) c) rest
  unfolding wrap
  wrap_onward h = ground arith

module _ (axis : Axis) (room o x y : ℕ) (s : Extent) (rest : List Extent) where
  draw_broken :
      (run z : ℕ) (left : List ℕ)
      → room < x + main_length axis s
      → y + run ≡ z
      → draw_all axis room (pos o) (pos x) (pos y) (run ∷ left) (s ∷ rest)
        ≡ and_then
            (record { at_main = pos o; at_cross = pos z; size = s })
            (draw_all axis room (pos o) (pos (o + main_length axis s)) (pos z) left rest)
  unfolding draw_all
  draw_broken run z left h e =
      rw (pos_add x (main_length axis s), pos_add o (main_length axis s), pos_add y run, e)
        (ground arith)

  draw_onward :
      (runs : List ℕ) (z : ℕ)
      → x + main_length axis s ≤ room
      → x + main_length axis s ≡ z
      → draw_all axis room (pos o) (pos x) (pos y) runs (s ∷ rest)
        ≡ and_then
            (record { at_main = pos x; at_cross = pos y; size = s })
            (draw_all axis room (pos o) (pos z) (pos y) runs rest)
  unfolding draw_all
  draw_onward runs z h e =
      let test : ltb_ℤ (pos room) (pos z) ≡ false = ground arith in
      rw (pos_add x (main_length axis s), e, test) refl

and_then-Draws :
    (axis : Axis) (rm rc : ℕ) (p : Placed) (sizes : List Extent) (r : Option (List Placed))
    → Inside axis rm rc p
    → Draws axis rm rc sizes r
    → Draws axis rm rc (p.size ∷ sizes) (and_then p r)
and_then-Draws axis rm rc p sizes r i d = record {
  placed = p ∷ d.placed;
  returns = rw d.returns refl;
  complete = ap (λ ss. p.size ∷ ss) d.complete;
  inside = (i, d.inside);
}

module _ (axis : Axis) (most room_main room_cross o oc : ℕ) (fits : room_main ≤ most) where
  of_bounds :
      (x y : ℕ) (s : Extent)
      → x + main_length axis s ≤ room_main
      → y + cross_length axis s ≤ room_cross
      → Inside axis room_main room_cross (record { at_main = pos x; at_cross = pos y; size = s })
  of_bounds x y s h k =
      rw (pos_add x (main_length axis s), pos_add y (cross_length axis s)) (omega arith)

  draw_all-Draws :
      (rm rc m c : ℕ) (sizes : List Extent)
      → o + (wrap axis most rm rc m c sizes).total_main ≤ room_main
      → oc + (wrap axis most rm rc m c sizes).total_cross ≤ room_cross
      → Draws axis room_main room_cross sizes (
          draw_all axis room_main
            (pos o)
            (pos (o + m))
            (pos (oc + rc))
            (wrap axis most rm rc m c sizes).run_sizes
            sizes)
  draw_all-Draws rm rc m c [] h k = record {
    placed = [];
    returns = unfold draw_all in refl;
    complete = refl;
    inside = tt;
  }
  draw_all-Draws rm rc m c (s ∷ rest) h k =
      let n = main_length axis s in
      let d = cross_length axis s in
      elim (Bool-cases (ltb most (m + n))) [
        | inl e ↦
            let w = wrap_broken axis most rm rc m c s rest (ground arith) in
            let h' : o + (wrap axis most (max rm m) (rc + c) n d rest).total_main ≤ room_main =
              rw w at h in
            let k' : oc + (wrap axis most (max rm m) (rc + c) n d rest).total_cross ≤ room_cross =
              rw w at k in
            let lo = wrap-total_main axis most (max rm m) (rc + c) n d rest in
            let hi = wrap-total_cross axis most (max rm m) (rc + c) n d rest in
            rw
              (
                w,
                draw_broken axis room_main o (o + m) (oc + rc) s rest c (oc + (rc + c))
                    (wrap axis most (max rm m) (rc + c) n d rest).run_sizes (ground arith)
                    (omega arith),
              )
              (and_then-Draws axis room_main room_cross _ rest _
                (of_bounds o (oc + (rc + c)) s (omega arith) (omega arith))
                (draw_all-Draws (max rm m) (rc + c) n d rest h' k'))
        | inr e ↦
            let w = wrap_onward axis most rm rc m c s rest (ground arith) in
            let h' : o + (wrap axis most rm rc (m + n) (max d c) rest).total_main ≤ room_main =
              rw w at h in
            let k' : oc + (wrap axis most rm rc (m + n) (max d c) rest).total_cross ≤ room_cross =
              rw w at k in
            let lo = wrap-total_main axis most rm rc (m + n) (max d c) rest in
            let hi = wrap-total_cross axis most rm rc (m + n) (max d c) rest in
            rw
              (
                w,
                draw_onward axis room_main o (o + m) (oc + rc) s rest
                    (wrap axis most rm rc (m + n) (max d c) rest).run_sizes (o + (m + n))
                    (omega arith) (omega arith),
              )
              (and_then-Draws axis room_main room_cross _ rest _
                (of_bounds (o + m) (oc + rc) s (omega arith) (omega arith))
                (draw_all-Draws rm rc (m + n) (max d c) rest h' k'))
      ]

-- When the lengths of the rectangle are at least those of the wrapped lines and at most the greatest
-- size of the layout along the axis, drawing a wrapping row or column throws no exception from
-- `runSizes`, and draws every child in order and inside the rectangle.
pub draw_wrapped-Draws :
    (axis : Axis) (most room_main room_cross : ℕ) (sizes : List Extent)
    → room_main ≤ most
    → (wrap axis most 0 0 0 0 sizes).total_main ≤ room_main
    → (wrap axis most 0 0 0 0 sizes).total_cross ≤ room_cross
    → Draws axis room_main room_cross sizes (draw_wrapped axis most room_main room_cross sizes)
unfolding draw_wrapped
draw_wrapped-Draws axis most room_main room_cross sizes f h k =
    let w = wrap axis most 0 0 0 0 sizes in
    let o : ℕ = (room_main - w.total_main) / 2 in
    let oc : ℕ = (room_cross - w.total_cross) / 2 in
    let d =
      draw_all-Draws axis most room_main room_cross o oc f 0 0 0 0 sizes (omega arith)
        (omega arith) in
    let a : ◌≡◌ {A = ℕ} (o + 0) o = omega arith in
    let b : ◌≡◌ {A = ℕ} (oc + 0) oc = omega arith in
    rw (centered_lem room_main w.total_main h, centered_lem room_cross w.total_cross k)
      (rw (a, b) at d)
