-- ===== src/Ui/Updated.antt =====
-- libs/rMlib/include/UI: after an update with a new widget, `layout` with its remembered sizes is the layout of the
-- new widget.
use r_m2_stuff_rocket.Base.{
  ℕ, String, Bool, true, false, not, Option, ◌==◌, ◌||◌, ◌≡◌, refl, sym, ap, ◌∙◌, arith, same_text,
  same_text→eq, subst,
}
use r_m2_stuff_rocket.Ui.Constraints.{Extent, Insets, Constraints, inset, expand}
use r_m2_stuff_rocket.Ui.Layout.{
  checked, then_with, grow, clamp_size, fill, fill_around, loosen, resize, layout, layout_all,
}
use r_m2_stuff_rocket.Ui.Cache.{Nodes, needs_layout, any_needs_layout, lay, fresh, fresh_all}
use r_m2_stuff_rocket.Ui.Remembered.{IsRemembered, AreRemembered, Refines}
use r_m2_stuff_rocket.Ui.Layouts.{lay-Refines}
use r_m2_stuff_rocket.Ui.Updates.{
  Change, Changes, text_change, image_change, colored_change, blank_change, center_change,
  corner_change, padding_change, border_change, sized_change, cleared_change, stack_change,
  no_changes, and_change, same_insets, same_bound, is_no_nodes, blank_size, before, all_before,
  updated, all_updated, new_widget, new_widgets,
}
use r_m2_stuff_rocket.Ui.Unchanged.{
  KeepsSizes, AllKeepSizes, Unchanged, AllUnchanged, same_insets_eq, same_bound_eq, leaf-Unchanged,
  single-Unchanged, stack-Unchanged, and_change-Unchanged, leaf-IsRemembered, single-IsRemembered,
  stack-IsRemembered, first_part,
}

-- What an object reads of its widget, if its update marks nothing.
module _ (ts : String → ℕ → Extent) where
  same_texts :
      (b : Bool) (s : String) (k : ℕ) (t : String) (l : ℕ)
      → b || not (l == k) || not (same_text s t) ≡ false
      → clamp_size (ts s k) ≡ clamp_size (ts t l)
  same_texts b s k t l h =
      let p : s ≡ t = same_text→eq s t (ground (arith, h)) in
      let q : k ≡ l = ground (arith, h) in λ i. clamp_size (ts (p i) (q i))

same_frames :
    (b : Bool) (i j : Insets)
    → b || not (same_insets i j) ≡ false
    → (inset i ≡ inset j) × (expand i ≡ expand j)
same_frames b i j h =
    let p : i ≡ j = same_insets_eq i j (ground (arith, h)) in (ap inset p, ap expand p)

same_frames_back :
    (b : Bool) (i j : Insets)
    → b || not (same_insets j i) ≡ false
    → (inset i ≡ inset j) × (expand i ≡ expand j)
same_frames_back b i j h = let (p, q) = same_frames b j i h in (sym p, sym q)

same_bounds :
    (b : Bool) (w h v k : Option ℕ)
    → b || not (same_bound v w) || not (same_bound k h) ≡ false
    → resize w h ≡ resize v k
same_bounds b w h v k e =
    let p : v ≡ w = same_bound_eq v w (ground (arith, e)) in
    let q : k ≡ h = same_bound_eq k h (ground (arith, e)) in λ i. resize (sym p i) (sym q i)

none_removed :
    (b u : Bool) (removed : Nodes)
    → b || not (is_no_nodes removed) || u ≡ false
    → is_no_nodes removed ≡ true
none_removed b u removed h = ground arith

module _ (ts : String → ℕ → Extent) where
  mutual
    unfolding before updated all_before all_updated KeepsSizes AllKeepSizes

    unchanged :
        (b : Bool) (x : Change)
        → KeepsSizes x
        → needs_layout (updated ts b x) ≡ false
        → Unchanged (before ts x) (updated ts b x)
    unchanged b (text_change s k t l n) z =
        leaf-Unchanged _ _ n (b || not (l == k) || not (same_text s t)) (same_texts ts b s k t l)
    unchanged b (image_change s t n) z = leaf-Unchanged _ _ n b (λ e. ap clamp_size z)
    unchanged b (colored_change n) z = leaf-Unchanged _ _ n b (λ e. refl)
    unchanged b (blank_change d e n) z = leaf-Unchanged _ _ n b (λ e. ap blank_size z)
    unchanged b (center_change n x) z =
        single-Unchanged _ _ _ _ n b _ _ (λ e. (refl, refl)) (unchanged b x z)
    unchanged b (corner_change k l n x) z =
        single-Unchanged _ _ _ _ n b _ _ (λ e. (refl, refl)) (unchanged b x z)
    unchanged b (padding_change i j n x) z =
        let b' = b || not (same_insets j i) in
        single-Unchanged _ _ _ _ n b' _ _ (same_frames_back b i j) (unchanged b' x z)
    unchanged b (border_change i j n x) z =
        let b' = b || not (same_insets i j) in
        single-Unchanged _ _ _ _ n b' _ _ (same_frames b i j) (unchanged b' x z)
    unchanged b (sized_change w h v k n x) z =
        let b' = b || not (same_bound v w) || not (same_bound k h) in
        single-Unchanged _ _ _ _ n b' _ _ (λ e. (same_bounds b w h v k e, refl)) (unchanged b' x z)
    unchanged b (cleared_change n x) z =
        single-Unchanged _ _ _ _ n b _ _ (λ e. (refl, refl)) (unchanged b x z)
    unchanged b (stack_change u n xs removed) z =
        let b' = b || not (is_no_nodes removed) || u in
        stack-Unchanged n b' _ removed _ (none_removed b u removed) (all_unchanged b' xs z)

    all_unchanged :
        (b : Bool) (xs : Changes)
        → AllKeepSizes xs
        → any_needs_layout (all_updated ts b xs) ≡ false
        → AllUnchanged (all_before ts xs) (all_updated ts b xs)
    all_unchanged b no_changes z = λ h. record { clean = h; same = λ c s. refl }
    all_unchanged b (and_change x xs) z =
        and_change-Unchanged _ _ _ _ (unchanged b x z.0) (all_unchanged b xs z.1)

  mutual
    unfolding before updated all_before all_updated KeepsSizes AllKeepSizes IsRemembered
        AreRemembered

    remembered :
        (b : Bool) (x : Change)
        → KeepsSizes x
        → IsRemembered (before ts x)
        → IsRemembered (updated ts b x)
    remembered b (text_change s k t l n) z =
        leaf-IsRemembered _ _ n (b || not (l == k) || not (same_text s t)) (same_texts ts b s k t l)
    remembered b (image_change s t n) z = leaf-IsRemembered _ _ n b (λ e. ap clamp_size z)
    remembered b (colored_change n) z = leaf-IsRemembered fill fill n b (λ e. refl)
    remembered b (blank_change d e n) z = leaf-IsRemembered _ _ n b (λ e. ap blank_size z)
    remembered b (center_change n x) z = λ r.
        single-IsRemembered _ _ _ _ n b _ _ (λ e. (refl, refl)) (unchanged b x z) r
          (remembered b x z r.1)
    remembered b (corner_change k l n x) z = λ r.
        single-IsRemembered _ _ _ _ n b _ _ (λ e. (refl, refl)) (unchanged b x z) r
          (remembered b x z r.1)
    remembered b (padding_change i j n x) z = λ r.
        let b' = b || not (same_insets j i) in
        single-IsRemembered _ _ _ _ n b' _ _ (same_frames_back b i j) (unchanged b' x z) r
          (remembered b' x z r.1)
    remembered b (border_change i j n x) z = λ r.
        let b' = b || not (same_insets i j) in
        single-IsRemembered _ _ _ _ n b' _ _ (same_frames b i j) (unchanged b' x z) r
          (remembered b' x z r.1)
    remembered b (sized_change w h v k n x) z = λ r.
        let b' = b || not (same_bound v w) || not (same_bound k h) in
        single-IsRemembered _ _ _ _ n b' _ _ (λ e. (same_bounds b w h v k e, refl))
          (unchanged b' x z) r (remembered b' x z r.1)
    remembered b (cleared_change n x) z = λ r.
        single-IsRemembered _ _ _ _ n b _ _ (λ e. (refl, refl)) (unchanged b x z) r
          (remembered b x z r.1)
    remembered b (stack_change u n xs removed) z = λ r.
        let b' = b || not (is_no_nodes removed) || u in
        stack-IsRemembered n b' _ removed _ (none_removed b u removed) (all_unchanged b' xs z) r
          (all_remembered b' xs z (first_part _ removed r.1))

    all_remembered :
        (b : Bool) (xs : Changes)
        → AllKeepSizes xs
        → AreRemembered (all_before ts xs)
        → AreRemembered (all_updated ts b xs)
    all_remembered b no_changes z = λ r. tt
    all_remembered b (and_change x xs) z =
        λ r. (remembered b x z.0 r.0, all_remembered b xs z.1 r.1)

  mutual
    unfolding updated all_updated new_widget new_widgets fresh fresh_all layout layout_all

    fresh_is_layout :
        (b : Bool) (x : Change) (c : Constraints)
        → fresh (updated ts b x) c ≡ layout (new_widget ts x) c
    fresh_is_layout b (text_change s k t l n) c = refl
    fresh_is_layout b (image_change s t n) c = refl
    fresh_is_layout b (colored_change n) c = refl
    fresh_is_layout b (blank_change d e n) c = refl
    fresh_is_layout b (center_change n x) c =
        ap (λ r. then_with r (λ s. checked c (fill_around c s))) (fresh_is_layout b x (loosen c))
    fresh_is_layout b (corner_change k l n x) c =
        ap (λ r. then_with r (λ s. checked c (fill_around c s))) (fresh_is_layout b x (loosen c))
    fresh_is_layout b (padding_change i j n x) c =
        ap (λ r. then_with r (λ s. checked c (expand j c s)))
          (fresh_is_layout (b || not (same_insets j i)) x (inset j c))
    fresh_is_layout b (border_change i j n x) c =
        ap (λ r. then_with r (λ s. checked c (expand j c s)))
          (fresh_is_layout (b || not (same_insets i j)) x (inset j c))
    fresh_is_layout b (sized_change w h v k n x) c =
        ap (λ r. then_with r (λ s. checked c s))
          (fresh_is_layout (b || not (same_bound v w) || not (same_bound k h)) x (resize v k c))
    fresh_is_layout b (cleared_change n x) c =
        ap (λ r. then_with r (λ s. checked c s)) (fresh_is_layout b x c)
    fresh_is_layout b (stack_change u n xs removed) c =
        ap (λ r. then_with r (λ s. checked c s))
          (all_fresh_is_layout (b || not (is_no_nodes removed) || u) xs c c.least)

    all_fresh_is_layout :
        (b : Bool) (xs : Changes) (c : Constraints) (s : Extent)
        → fresh_all (all_updated ts b xs) c s ≡ layout_all (new_widgets ts xs) c s
    all_fresh_is_layout b no_changes c s = refl
    all_fresh_is_layout b (and_change x xs) c s =
        ap (λ r. then_with r (λ t. fresh_all (all_updated ts b xs) c (grow s t)))
          (fresh_is_layout b x c)
        ∙ (λ i.
            then_with (layout (new_widget ts x) c) (λ t. all_fresh_is_layout b xs c (grow s t) i))

-- For a tree of objects whose unmarked objects remember the right sizes, and an update with a new widget that
-- changes neither the size of an image nor the flag of a blank: `layout` of the updated tree, with what it
-- remembers, returns what the layout of the new widget returns, assertions that fail included. The tree
-- then remembers the right sizes, and nothing in it needs a layout.
pub lay-updated :
    (ts : String → ℕ → Extent) (x : Change) (c : Constraints)
    → IsRemembered (before ts x)
    → KeepsSizes x
    → Refines (updated ts false x) (layout (new_widget ts x) c) (lay (updated ts false x) c)
lay-updated ts x c r z =
    subst (λ e. Refines (updated ts false x) e (lay (updated ts false x) c))
      (fresh_is_layout ts false x c)
      (lay-Refines (updated ts false x) c (remembered ts false x z r))
