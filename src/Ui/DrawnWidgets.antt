-- ===== src/Ui/DrawnWidgets.antt =====
-- libs/rMlib/include/UI: every widget of a tree is drawn, once.
use r_m2_stuff_rocket.Base.{ℕ, suc, length, length-append, List, [], ◌+◌, ◌≡◌, refl, ap, ◌∙◌}
use r_m2_stuff_rocket.Rmlib.Geometry.{Rect}
use r_m2_stuff_rocket.Base.Int.{pos}
use r_m2_stuff_rocket.Ui.Constraints.{Extent, Constraints, inset}
use r_m2_stuff_rocket.Ui.Layout.{
  Widget, Widgets, text, image, colored, blank, center, corner, padding, border, sized, cleared,
  positioned, stack, nil, cons, loosen, resize, layout,
}
use r_m2_stuff_rocket.Ui.Total.{
  IsBounded, NoPositioned, NonePositioned, layout-Fits, loosen-IsBounded, inset-IsBounded,
  resize-IsBounded,
}
use r_m2_stuff_rocket.Ui.Draw.{
  Drawn, child_rect, center_rect, corner_rect, shrink, if_laid_out, with_node, draw, draw_all,
}

-- The widgets of a tree.
unfoldable mutual
  pub count : Widget → ℕ
  count (text s) = 1
  count (image s) = 1
  count colored = 1
  count (blank b) = 1
  count (center w) = suc (count w)
  count (corner k w) = suc (count w)
  count (padding i w) = suc (count w)
  count (border i w) = suc (count w)
  count (sized w h child) = suc (count child)
  count (cleared w) = suc (count w)
  count (positioned x y w) = suc (count w)
  count (stack ws) = suc (count_all ws)

  count_all : Widgets → ℕ
  count_all nil = 0
  count_all (cons w ws) = count w + count_all ws

counted :
    (w : Widget) (c : Constraints) (r : Rect) (ds : List Drawn) (n : ℕ)
    → NoPositioned w
    → IsBounded c
    → length ds ≡ n
    → length (with_node (layout w c) r ds) ≡ suc n
counted w c r ds n p b e =
    ap (λ o. length (with_node o r ds)) (layout-Fits w c p b).returns ∙ ap suc e

counted_child :
    (w : Widget) (c : Constraints) (f : Extent → List Drawn) (n : ℕ)
    → NoPositioned w
    → IsBounded c
    → ((s : Extent) → length (f s) ≡ n)
    → length (if_laid_out (layout w c) f) ≡ n
counted_child w c f n p b h =
    let fits = layout-Fits w c p b in ap (λ o. length (if_laid_out o f)) fits.returns ∙ h fits.size

mutual
  unfolding draw draw_all count count_all NoPositioned NonePositioned

  pub length-draw :
      (w : Widget) (c : Constraints) (r : Rect)
      → NoPositioned w
      → IsBounded c
      → length (draw w c r) ≡ count w
  length-draw (text s) c r n b = counted (text s) c r [] 0 n b refl
  length-draw (image s) c r n b = counted (image s) c r [] 0 n b refl
  length-draw colored c r n b = counted colored c r [] 0 n b refl
  length-draw (blank x) c r n b = counted (blank x) c r [] 0 n b refl
  length-draw (center w) c r n b = counted (center w) c r _ _ n b (
      counted_child w (loosen c) _ _ n (loosen-IsBounded c b)
        (λ s. length-draw w (loosen c) (center_rect r s) n (loosen-IsBounded c b)))
  length-draw (corner k w) c r n b = counted (corner k w) c r _ _ n b (
      counted_child w (loosen c) _ _ n (loosen-IsBounded c b)
        (λ s. length-draw w (loosen c) (corner_rect k r s) n (loosen-IsBounded c b)))
  length-draw (padding i w) c r n b =
      counted (padding i w) c r _ _ n b
        (length-draw w (inset i c) (shrink i r) n (inset-IsBounded c b i))
  length-draw (border i w) c r n b =
      counted (border i w) c r _ _ n b
        (length-draw w (inset i c) (shrink i r) n (inset-IsBounded c b i))
  length-draw (sized x y w) c r n b =
      counted (sized x y w) c r _ _ n b
        (length-draw w (resize x y c) r n (resize-IsBounded c b x y))
  length-draw (cleared w) c r n b = counted (cleared w) c r _ _ n b (length-draw w c r n b)
  length-draw (positioned x y w) c r n b = absurd n
  length-draw (stack ws) c r n b = counted (stack ws) c r _ _ n b (length-draw_all ws c r n b)

  length-draw_all :
      (ws : Widgets) (c : Constraints) (r : Rect)
      → NonePositioned ws
      → IsBounded c
      → length (draw_all ws c r) ≡ count_all ws
  length-draw_all nil c r n b = refl
  length-draw_all (cons w ws) c r n b =
      length-append (if_laid_out (layout w c) (λ s. draw w c (child_rect (pos 0) (pos 0) r s)))
        (draw_all ws c r)
      ∙ (λ i.
          counted_child w c (λ s. draw w c (child_rect (pos 0) (pos 0) r s)) (count w) n.0 b
            (λ s. length-draw w c (child_rect (pos 0) (pos 0) r s) n.0 b) i
          + length-draw_all ws c r n.1 b i)
