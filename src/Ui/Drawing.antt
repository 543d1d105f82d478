-- ===== src/Ui/Drawing.antt =====
-- libs/rMlib/include/UI: every widget is drawn with the size of its layout, inside its parent.
use r_m2_stuff_rocket.Base.{
  length, Option, none, some, List, [], ◌≤◌, ◌+◌, ◌≡◌, refl, sym, ap, ◌∙◌, subst, arith, All,
  All-map, All-append,
}
use r_m2_stuff_rocket.Rmlib.Geometry.{Rect}
use r_m2_stuff_rocket.Base.Int.{pos}
use r_m2_stuff_rocket.Ui.Constraints.{
  Extent, Insets, Constraints, horizontal, vertical, inset, expand,
}
use r_m2_stuff_rocket.Ui.Layout.{
  Widget, Widgets, text, image, colored, blank, center, corner, padding, border, sized, cleared,
  positioned, stack, nil, cons, checked, then_with, fill_around, loosen, resize, grow, layout,
  layout_all,
}
use r_m2_stuff_rocket.Ui.Total.{
  IsBounded, Within, NoPositioned, NonePositioned, layout-Fits, loosen-IsBounded, inset-IsBounded,
  resize-IsBounded,
}
use r_m2_stuff_rocket.Ui.Draw.{
  Drawn, child_rect, center_rect, corner_rect, shrink, if_laid_out, with_node, draw, draw_all,
}
use r_m2_stuff_rocket.Ui.DrawnWidgets.{count, length-draw}
use r_m2_stuff_rocket.Ui.Inside.{
  HasSize, Inside, Inside-refl, Inside-trans, Placed, Smaller, first_rect-Placed,
  center_rect-Placed, corner_rect-Placed, shrink-Placed,
}

-- Insets are no larger than what the constraints leave for them.
unfoldable mutual
  pub HasRoom : Widget → Constraints → Type 0
  HasRoom (text s) c = Unit
  HasRoom (image s) c = Unit
  HasRoom colored c = Unit
  HasRoom (blank b) c = Unit
  HasRoom (center w) c = HasRoom w (loosen c)
  HasRoom (corner k w) c = HasRoom w (loosen c)
  HasRoom (padding i w) c =
      (horizontal i ≤ c.most.width) × (vertical i ≤ c.most.height) × HasRoom w (inset i c)
  HasRoom (border i w) c =
      (horizontal i ≤ c.most.width) × (vertical i ≤ c.most.height) × HasRoom w (inset i c)
  HasRoom (sized w h child) c = HasRoom child (resize w h c)
  HasRoom (cleared w) c = HasRoom w c
  HasRoom (positioned x y w) c = Unit
  HasRoom (stack ws) c = HaveRoom ws c

  pub HaveRoom : Widgets → Constraints → Type 0
  HaveRoom nil c = Unit
  HaveRoom (cons w ws) c = HasRoom w c × HaveRoom ws c

abbrev pub IsPlaced : Rect → Drawn → Type 0
IsPlaced r d = Placed r d.rect d.size

checked-some : (c : Constraints) (t s : Extent) → checked c t ≡ some s → t ≡ s
unfolding checked
checked-some c t s e = ground arith

fill_around-Smaller :
    (c : Constraints) (t : Extent) → Within (loosen c) t → Smaller t (fill_around c t)
unfolding fill_around loosen
fill_around-Smaller c t h = ground arith

expand-inset :
    (i : Insets) (c : Constraints) (t : Extent)
    → horizontal i ≤ c.most.width
    → vertical i ≤ c.most.height
    → IsBounded c
    → Within (inset i c) t
    → ((expand i c t).width ≡ t.width + (i.left + i.right))
      × ((expand i c t).height ≡ t.height + (i.top + i.bottom))
unfolding expand inset
expand-inset i c t k l b h = ground arith

-- The size that is made of a child's.
made_of :
    (o : Option Extent) (c : Constraints) (f : Extent → Extent) (t s : Extent)
    → o ≡ some t
    → then_with o (λ s. checked c (f s)) ≡ some s
    → f t ≡ s
made_of o c f t s e h =
    checked-some c (f t) s (ap (λ o. then_with o (λ s. checked c (f s))) (sym e) ∙ h)

node :
    (o : Option Extent) (r : Rect) (s : Extent) (ds : List Drawn)
    → o ≡ some s
    → HasSize r s
    → All (IsPlaced r) ds
    → All (IsPlaced r) (with_node o r ds)
node o r s ds e h k =
    subst (λ o. All (IsPlaced r) (with_node o r ds)) (sym e) ((h, Inside-refl r), k)

child :
    (o : Option Extent) (r : Rect) (t : Extent) (f : Extent → List Drawn)
    → o ≡ some t
    → All (IsPlaced r) (f t)
    → All (IsPlaced r) (if_laid_out o f)
child o r t f e k = subst (λ o. All (IsPlaced r) (if_laid_out o f)) (sym e) k

enter : (r q : Rect) (ds : List Drawn) → Inside r q → All (IsPlaced q) ds → All (IsPlaced r) ds
enter r q ds h k =
    All-map (IsPlaced q) (IsPlaced r) (λ d p. (p.0, Inside-trans r q d.rect h p.1)) ds k

around-Smaller :
    (o : Option Extent) (c : Constraints) (t s : Extent)
    → o ≡ some t
    → Within (loosen c) t
    → then_with o (λ s. checked c (fill_around c s)) ≡ some s
    → Smaller t s
around-Smaller o c t s e h k =
    subst (Smaller t) (made_of o c (fill_around c) t s e k) (fill_around-Smaller c t h)

shrunk :
    (i : Insets) (c : Constraints) (o : Option Extent) (t s : Extent) (r : Rect)
    → horizontal i ≤ c.most.width
    → vertical i ≤ c.most.height
    → IsBounded c
    → o ≡ some t
    → Within (inset i c) t
    → then_with o (λ s. checked c (expand i c s)) ≡ some s
    → HasSize r s
    → Placed r (shrink i r) t
shrunk i c o t s r k l b e h q z =
    let same = made_of o c (expand i c) t s e q in
    let sizes = expand-inset i c t k l b h in
    shrink-Placed i r s t z (sym (ap (λ s. s.width) same) ∙ sizes.0)
      (sym (ap (λ s. s.height) same) ∙ sizes.1)

then_some :
    (o : Option Extent) (f : Extent → Option Extent) (s : Extent)
    → then_with o f ≡ some s
    → (t : Extent) × (o ≡ some t) × (f t ≡ some s)
then_some none f s e = absurd (ground arith)
then_some (some t) f s e = (t, refl, e)

layout_all-grows :
    (ws : Widgets) (c : Constraints) (s t : Extent)
    → NonePositioned ws
    → IsBounded c
    → layout_all ws c s ≡ some t
    → Smaller s t
unfolding layout_all NonePositioned
layout_all-grows nil c s t n b e = ground arith
layout_all-grows (cons w ws) c s t n b e =
    let f = layout-Fits w c n.0 b in
    let k =
      layout_all-grows ws c (grow s f.size) t n.1 b
        (ap (λ o. then_with o (λ u. layout_all ws c (grow s u))) (sym f.returns) ∙ e) in
    (omega (arith, k.0), omega (arith, k.1))

mutual
  unfolding draw draw_all layout layout_all HasRoom HaveRoom NoPositioned NonePositioned

  draws_placed :
      (w : Widget) (c : Constraints) (r : Rect) (s : Extent)
      → NoPositioned w
      → IsBounded c
      → HasRoom w c
      → layout w c ≡ some s
      → HasSize r s
      → All (IsPlaced r) (draw w c r)
  draws_placed (text t) c r s n b m e h = node _ r s [] e h tt
  draws_placed (image t) c r s n b m e h = node _ r s [] e h tt
  draws_placed colored c r s n b m e h = node _ r s [] e h tt
  draws_placed (blank x) c r s n b m e h = node _ r s [] e h tt
  draws_placed (center w) c r s n b m e h =
      let d = loosen c in
      let f = layout-Fits w d n (loosen-IsBounded c b) in
      let k = around-Smaller (layout w d) c f.size s f.returns f.within e in
      let p = center_rect-Placed r s f.size h k in
      node _ r s _ e h (
        child _ r f.size _ f.returns (
          enter r (center_rect r f.size) _ p.1 (
            draws_placed w d (center_rect r f.size) f.size n (loosen-IsBounded c b) m f.returns
              p.0)))
  draws_placed (corner j w) c r s n b m e h =
      let d = loosen c in
      let f = layout-Fits w d n (loosen-IsBounded c b) in
      let k = around-Smaller (layout w d) c f.size s f.returns f.within e in
      let p = corner_rect-Placed r s f.size h k j in
      node _ r s _ e h (
        child _ r f.size _ f.returns (
          enter r (corner_rect j r f.size) _ p.1 (
            draws_placed w d (corner_rect j r f.size) f.size n (loosen-IsBounded c b) m f.returns
              p.0)))
  draws_placed (padding i w) c r s n b m e h =
      let f = layout-Fits w (inset i c) n (inset-IsBounded c b i) in
      let p = shrunk i c (layout w (inset i c)) f.size s r m.0 m.1 b f.returns f.within e h in
      node _ r s _ e h (
        enter r (shrink i r) _ p.1 (
          draws_placed w (inset i c) (shrink i r) f.size n (inset-IsBounded c b i) m.2 f.returns
            p.0))
  draws_placed (border i w) c r s n b m e h =
      let f = layout-Fits w (inset i c) n (inset-IsBounded c b i) in
      let p = shrunk i c (layout w (inset i c)) f.size s r m.0 m.1 b f.returns f.within e h in
      node _ r s _ e h (
        enter r (shrink i r) _ p.1 (
          draws_placed w (inset i c) (shrink i r) f.size n (inset-IsBounded c b i) m.2 f.returns
            p.0))
  draws_placed (sized x y w) c r s n b m e h =
      let d = resize x y c in
      let f = layout-Fits w d n (resize-IsBounded c b x y) in
      let same = made_of (layout w d) c (λ s. s) f.size s f.returns e in
      node _ r s _ e h (
        draws_placed w d r f.size n (resize-IsBounded c b x y) m f.returns
          (subst (HasSize r) (sym same) h))
  draws_placed (cleared w) c r s n b m e h =
      let f = layout-Fits w c n b in
      let same = made_of (layout w c) c (λ s. s) f.size s f.returns e in
      node _ r s _ e h (draws_placed w c r f.size n b m f.returns (subst (HasSize r) (sym same) h))
  draws_placed (positioned x y w) c r s n b m e h = absurd n
  draws_placed (stack ws) c r s n b m e h =
      let (u, q, k) = then_some (layout_all ws c c.least) (checked c) s e in
      node _ r s _ e h (
        draws_all_placed ws c r c.least u n b m q
          (subst (HasSize r) (sym (checked-some c u s k)) h))

  draws_all_placed :
      (ws : Widgets) (c : Constraints) (r : Rect) (s t : Extent)
      → NonePositioned ws
      → IsBounded c
      → HaveRoom ws c
      → layout_all ws c s ≡ some t
      → HasSize r t
      → All (IsPlaced r) (draw_all ws c r)
  draws_all_placed nil c r s t n b m e h = tt
  draws_all_placed (cons w ws) c r s t n b m e h =
      let f = layout-Fits w c n.0 b in
      let rest = ap (λ o. then_with o (λ u. layout_all ws c (grow s u))) (sym f.returns) ∙ e in
      let g = layout_all-grows ws c (grow s f.size) t n.1 b rest in
      let p = first_rect-Placed r t f.size h (omega (arith, g.0), omega (arith, g.1)) in
      All-append (IsPlaced r) _ _
        (child _ r f.size _ f.returns (
          enter r (child_rect (pos 0) (pos 0) r f.size) _ p.1 (
            draws_placed w c (child_rect (pos 0) (pos 0) r f.size) f.size n.0 b m.0 f.returns p.0)))
        (draws_all_placed ws c r (grow s f.size) t n.1 b m.1 rest h)

-- A tree of widgets without `Positioned`, laid out in constraints with a greatest size whose bounds are in
-- order and with room for its insets, and drawn in a rectangle of the size that its layout returned:
-- each of its widgets is drawn, in a rectangle of exactly the size that its own layout returned, which
-- lies in that of the tree.
pub draw-IsPlaced :
    (w : Widget) (c : Constraints) (r : Rect) (s : Extent)
    → NoPositioned w
    → IsBounded c
    → HasRoom w c
    → layout w c ≡ some s
    → HasSize r s
    → All (IsPlaced r) (draw w c r) × (length (draw w c r) ≡ count w)
draw-IsPlaced w c r s n b m e h = (draws_placed w c r s n b m e h, length-draw w c r n b)
