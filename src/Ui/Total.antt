-- ===== src/Ui/Total.antt =====
-- libs/rMlib/include/UI: bounded constraints have a layout.
use r_m2_stuff_rocket.Base.{ℕ, true, false, ◌≤◌, ◌<◌, ◌≡◌, Option, some, refl, subst, sym, arith}
use r_m2_stuff_rocket.Ui.Constraints.{Extent, Insets, Constraints, unbound, contain, inset, expand}
use r_m2_stuff_rocket.Ui.Layout.{
  Widget, Widgets, text, image, colored, blank, center, corner, padding, border, sized, cleared,
  positioned, stack, nil, cons, checked, clamp_size, fill, then_with, fill_around, loosen, resize,
  grow, then_with, layout, layout_all,
}

-- The bounds are in order, and there is a greatest size.
abbrev pub IsBounded : Constraints → Type 0
IsBounded c =
    (c.least.width ≤ c.most.width)
    × (c.most.width < unbound)
    × (c.least.height ≤ c.most.height)
    × (c.most.height < unbound)

abbrev pub Within : Constraints → Extent → Type 0
Within c s =
    (c.least.width ≤ s.width)
    × (s.width ≤ c.most.width)
    × (c.least.height ≤ s.height)
    × (s.height ≤ c.most.height)

-- The layout returns a size within the constraints.
pub record Fits (c : Constraints) (r : Option Extent) : Type 0 where
  pub size : Extent
  pub returns : r ≡ some size
  pub within : Within c size

-- No `Positioned` stands in the tree.
unfoldable mutual
  pub NoPositioned : Widget → Type 0
  NoPositioned (text s) = Unit
  NoPositioned (image s) = Unit
  NoPositioned colored = Unit
  NoPositioned (blank b) = Unit
  NoPositioned (center w) = NoPositioned w
  NoPositioned (corner k w) = NoPositioned w
  NoPositioned (padding i w) = NoPositioned w
  NoPositioned (border i w) = NoPositioned w
  NoPositioned (sized w h child) = NoPositioned child
  NoPositioned (cleared w) = NoPositioned w
  NoPositioned (positioned x y w) = ⊥
  NoPositioned (stack ws) = NonePositioned ws

  pub NonePositioned : Widgets → Type 0
  NonePositioned nil = Unit
  NonePositioned (cons w ws) = NoPositioned w × NonePositioned ws

module _ (c : Constraints) (b : IsBounded c) where
  checked-Fits : (s : Extent) → Within c s → Fits c (checked c s)
  unfolding checked contain
  checked-Fits s w = record { size = s; returns = ground arith; within = w }

  clamp_size-Within : (s : Extent) → Within c (clamp_size s c)
  unfolding clamp_size
  clamp_size-Within s = ground arith

  fill-Within : Within c (fill c)
  unfolding fill
  fill-Within = ground arith

  fill_around-Within : (s : Extent) → Within c (fill_around c s)
  unfolding fill_around
  fill_around-Within s = ground arith

  pub loosen-IsBounded : IsBounded (loosen c)
  unfolding loosen
  loosen-IsBounded = ground arith

  pub inset-IsBounded : (i : Insets) → IsBounded (inset i c)
  unfolding inset
  inset-IsBounded i = ground arith

  expand-Within : (i : Insets) (s : Extent) → Within (inset i c) s → Within c (expand i c s)
  unfolding inset expand
  expand-Within i s w = ground arith

  pub resize-IsBounded : (w h : Option ℕ) → IsBounded (resize w h c)
  unfolding resize
  resize-IsBounded w h = ground arith

  resize-Within : (w h : Option ℕ) (s : Extent) → Within (resize w h c) s → Within c s
  unfolding resize
  resize-Within w h s k = ground arith

-- A child that fits its constraints, and what is made of its size.
after :
    (c d : Constraints) (r : Option Extent) (f : Extent → Option Extent)
    → Fits d r
    → ((s : Extent) → Within d s → Fits c (f s))
    → Fits c (then_with r f)
after c d r f h k = subst (λ o. Fits c (then_with o f)) (sym h.returns) (k h.size h.within)

grow-Within : (c : Constraints) (s t : Extent) → Within c s → Within c t → Within c (grow s t)
grow-Within c s t h k = ground arith

mutual
  unfolding layout NoPositioned

  layout_fits : (w : Widget) (c : Constraints) → NoPositioned w → IsBounded c → Fits c (layout w c)
  layout_fits (text s) c n b = checked-Fits c b _ (clamp_size-Within c b s)
  layout_fits (image s) c n b = checked-Fits c b _ (clamp_size-Within c b s)
  layout_fits colored c n b = checked-Fits c b _ (fill-Within c b)
  layout_fits (blank true) c n b = checked-Fits c b c.most (omega arith)
  layout_fits (blank false) c n b = checked-Fits c b c.least (omega arith)
  layout_fits (center w) c n b =
      after c (loosen c) _ _ (layout_fits w (loosen c) n (loosen-IsBounded c b))
        (λ s h. checked-Fits c b _ (fill_around-Within c b s))
  layout_fits (corner k w) c n b =
      after c (loosen c) _ _ (layout_fits w (loosen c) n (loosen-IsBounded c b))
        (λ s h. checked-Fits c b _ (fill_around-Within c b s))
  layout_fits (padding i w) c n b =
      after c (inset i c) _ _ (layout_fits w (inset i c) n (inset-IsBounded c b i))
        (λ s h. checked-Fits c b _ (expand-Within c b i s h))
  layout_fits (border i w) c n b =
      after c (inset i c) _ _ (layout_fits w (inset i c) n (inset-IsBounded c b i))
        (λ s h. checked-Fits c b _ (expand-Within c b i s h))
  layout_fits (sized w h child) c n b =
      after c (resize w h c) _ _ (layout_fits child (resize w h c) n (resize-IsBounded c b w h))
        (λ s k. checked-Fits c b s (resize-Within c b w h s k))
  layout_fits (cleared w) c n b = after c c _ _ (layout_fits w c n b) (λ s h. checked-Fits c b s h)
  layout_fits (positioned x y w) c n b = absurd n
  layout_fits (stack ws) c n b =
      after c c _ _ (layout_all_fits ws c c.least n b (omega arith)) (λ s h. checked-Fits c b s h)

  layout_all_fits :
      (ws : Widgets) (c : Constraints) (s : Extent)
      → NonePositioned ws
      → IsBounded c
      → Within c s
      → Fits c (layout_all ws c s)
  layout_all_fits nil c s n b h = record { size = s; returns = refl; within = h }
  layout_all_fits (cons w ws) c s n b h =
      after c c _ _ (layout_fits w c n.0 b)
        (λ t k. layout_all_fits ws c (grow s t) n.1 b (grow-Within c s t h k))

-- For constraints with a greatest size whose bounds are in order, and any tree of texts, images,
-- colored and blank areas under centers, corners, paddings, borders, sized and cleared widgets and
-- stacks, no assertion of `layout` fails in the tree, and the size returned is within the
-- constraints.
pub layout-Fits :
    (w : Widget) (c : Constraints) → NoPositioned w → IsBounded c → Fits c (layout w c)
layout-Fits w c n b = layout_fits w c n b
