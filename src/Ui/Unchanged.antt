-- ===== src/Ui/Unchanged.antt =====
-- libs/rMlib/include/UI: an object that needs no layout after an update needed none before it, and lays out as before.
use r_m2_stuff_rocket.Base.{
  ℕ, Bool, true, false, Option, none, some, ◌||◌, ◌≡◌, refl, sym, ap, ◌∙◌, arith,
}
use r_m2_stuff_rocket.Ui.Constraints.{Extent, Insets, Constraints}
use r_m2_stuff_rocket.Ui.Layout.{checked, then_with, grow}
use r_m2_stuff_rocket.Ui.Cache.{
  Note, Node, Nodes, leaf, single, stacked, no_nodes, and_node, needs_layout, any_needs_layout,
  fresh, fresh_all,
}
use r_m2_stuff_rocket.Ui.Remembered.{IsRemembered, AreRemembered}
use r_m2_stuff_rocket.Ui.Updates.{
  Change, Changes, text_change, image_change, colored_change, blank_change, center_change,
  corner_change, padding_change, border_change, sized_change, cleared_change, stack_change,
  no_changes, and_change, same_insets, same_bound, is_no_nodes, mark_if, append_nodes,
}

-- The size of an image and the flag of a `Blank` do not change.
unfoldable mutual
  pub KeepsSizes : Change → Type 0
  KeepsSizes (text_change s k t l n) = Unit {0}
  KeepsSizes (image_change s t n) = s ≡ t
  KeepsSizes (colored_change n) = Unit {0}
  KeepsSizes (blank_change d e n) = d ≡ e
  KeepsSizes (center_change n x) = KeepsSizes x
  KeepsSizes (corner_change k l n x) = KeepsSizes x
  KeepsSizes (padding_change i j n x) = KeepsSizes x
  KeepsSizes (border_change i j n x) = KeepsSizes x
  KeepsSizes (sized_change w h v k n x) = KeepsSizes x
  KeepsSizes (cleared_change n x) = KeepsSizes x
  KeepsSizes (stack_change u n xs removed) = AllKeepSizes xs

  pub AllKeepSizes : Changes → Type 0
  AllKeepSizes no_changes = Unit {0}
  AllKeepSizes (and_change x xs) = KeepsSizes x × AllKeepSizes xs

pub record Unchanged (x y : Node) : Type 0 where
  pub clean : needs_layout x ≡ false
  pub same : (c : Constraints) → fresh y c ≡ fresh x c

pub record AllUnchanged (xs ys : Nodes) : Type 0 where
  pub clean : any_needs_layout xs ≡ false
  pub same : (c : Constraints) (s : Extent) → fresh_all ys c s ≡ fresh_all xs c s

pub same_insets_eq : (i j : Insets) → same_insets i j ≡ true → i ≡ j
same_insets_eq i j h =
    let t : i.top ≡ j.top = ground arith in
    let b : i.bottom ≡ j.bottom = ground arith in
    let l : i.left ≡ j.left = ground arith in
    let r : i.right ≡ j.right = ground arith in
    λ k. record { top = t k; bottom = b k; left = l k; right = r k }

pub same_bound_eq : (m n : Option ℕ) → same_bound m n ≡ true → m ≡ n
same_bound_eq none none h = refl
same_bound_eq none (some n) h = absurd (ground arith)
same_bound_eq (some m) none h = absurd (ground arith)
same_bound_eq (some m) (some n) h = ap some (ground arith)

mark_if-dirty : (b : Bool) (n : Note) → (mark_if b n).dirty ≡ b || n.dirty
mark_if-dirty true n = refl
mark_if-dirty false n = refl

or_first : (a b : Bool) → a || b ≡ false → a ≡ false
or_first a b h = ground arith

or_second : (a b : Bool) → a || b ≡ false → b ≡ false
or_second a b h = ground arith

-- The functions of an object, which are the same unless it was marked.
pub leaf-Unchanged :
    (f f' : Constraints → Extent) (n : Note) (b : Bool)
    → (b ≡ false → f ≡ f')
    → needs_layout (leaf f' (mark_if b n)) ≡ false
    → Unchanged (leaf f n) (leaf f' (mark_if b n))
unfolding needs_layout fresh
leaf-Unchanged f f' n b e h =
    let k : b || n.dirty ≡ false = sym (mark_if-dirty b n) ∙ h in
    record {
      clean = or_second b n.dirty k;
      same = λ c. sym (ap (λ f. checked c (f c)) (e (or_first b n.dirty k)));
    }

pub single-Unchanged :
    (g g' : Constraints → Constraints) (u u' : Constraints → Extent → Extent) (n : Note) (b : Bool)
    (x y : Node)
    → (b ≡ false → (g ≡ g') × (u ≡ u'))
    → (needs_layout y ≡ false → Unchanged x y)
    → needs_layout (single g' u' (mark_if b n) y) ≡ false
    → Unchanged (single g u n x) (single g' u' (mark_if b n) y)
unfolding needs_layout fresh
single-Unchanged g g' u u' n b x y e below h =
    let d = or_first (mark_if b n).dirty (needs_layout y) h in
    let k : b || n.dirty ≡ false = sym (mark_if-dirty b n) ∙ d in
    let z = below (or_second (mark_if b n).dirty (needs_layout y) h) in
    let (p, q) = e (or_first b n.dirty k) in
    record {
      clean = rw (or_second b n.dirty k, z.clean) refl;
      same = λ c.
          ap (λ r. then_with r (λ s. checked c (u' c s))) (z.same (g' c))
          ∙ (λ i. then_with (fresh x (sym p i c)) (λ s. checked c (sym q i c s)));
    }

is_no_nodes_eq : (xs : Nodes) → is_no_nodes xs ≡ true → xs ≡ no_nodes
is_no_nodes_eq no_nodes h = refl
is_no_nodes_eq (and_node x xs) h = absurd (ground arith)

append_no_nodes : (xs : Nodes) → append_nodes xs no_nodes ≡ xs
append_no_nodes no_nodes = refl
append_no_nodes (and_node x xs) = ap (and_node x) (append_no_nodes xs)

pub stack-Unchanged :
    (n : Note) (b : Bool) (xs removed ys : Nodes)
    → (b ≡ false → is_no_nodes removed ≡ true)
    → (any_needs_layout ys ≡ false → AllUnchanged xs ys)
    → needs_layout (stacked (mark_if b n) ys) ≡ false
    → Unchanged (stacked n (append_nodes xs removed)) (stacked (mark_if b n) ys)
unfolding needs_layout fresh
stack-Unchanged n b xs removed ys e below h =
    let d = or_first (mark_if b n).dirty (any_needs_layout ys) h in
    let k : b || n.dirty ≡ false = sym (mark_if-dirty b n) ∙ d in
    let z = below (or_second (mark_if b n).dirty (any_needs_layout ys) h) in
    let p : append_nodes xs removed ≡ xs =
      ap (append_nodes xs) (is_no_nodes_eq removed (e (or_first b n.dirty k)))
      ∙ append_no_nodes xs in
    record {
      clean = rw (or_second b n.dirty k, p, z.clean) refl;
      same = λ c.
          ap (λ r. then_with r (λ s. checked c s)) (z.same c c.least)
          ∙ (λ i. then_with (fresh_all (sym p i) c c.least) (λ s. checked c s));
    }

pub and_change-Unchanged :
    (x y : Node) (xs ys : Nodes)
    → (needs_layout y ≡ false → Unchanged x y)
    → (any_needs_layout ys ≡ false → AllUnchanged xs ys)
    → any_needs_layout (and_node y ys) ≡ false
    → AllUnchanged (and_node x xs) (and_node y ys)
unfolding any_needs_layout fresh_all
and_change-Unchanged x y xs ys one all h =
    let z = one (or_first (needs_layout y) (any_needs_layout ys) h) in
    let w = all (or_second (needs_layout y) (any_needs_layout ys) h) in
    record {
      clean = rw (z.clean, w.clean) refl;
      same = λ c s.
          ap (λ r. then_with r (λ t. fresh_all ys c (grow s t))) (z.same c)
          ∙ (λ i. then_with (fresh x c) (λ t. w.same c (grow s t) i));
    }

pub leaf-IsRemembered :
    (f f' : Constraints → Extent) (n : Note) (b : Bool)
    → (b ≡ false → f ≡ f')
    → IsRemembered (leaf f n)
    → IsRemembered (leaf f' (mark_if b n))
unfolding IsRemembered
leaf-IsRemembered f f' n true e k = λ d. absurd (ground arith)
leaf-IsRemembered f f' n false e k = λ d. sym (ap (λ f. checked n.last (f n.last)) (e refl)) ∙ k d

pub single-IsRemembered :
    (g g' : Constraints → Constraints) (u u' : Constraints → Extent → Extent) (n : Note) (b : Bool)
    (x y : Node)
    → (b ≡ false → (g ≡ g') × (u ≡ u'))
    → (needs_layout y ≡ false → Unchanged x y)
    → IsRemembered (single g u n x)
    → IsRemembered y
    → IsRemembered (single g' u' (mark_if b n) y)
unfolding IsRemembered needs_layout
single-IsRemembered g g' u u' n true x y e below k r = (λ d v. absurd (ground arith), r)
single-IsRemembered g g' u u' n false x y e below k r = (
  λ d v.
      (single-Unchanged g g' u u' n false x y e below (rw (d, v) refl)).same n.last
      ∙ k.0 d (below v).clean,
  r,
)

pub stack-IsRemembered :
    (n : Note) (b : Bool) (xs removed ys : Nodes)
    → (b ≡ false → is_no_nodes removed ≡ true)
    → (any_needs_layout ys ≡ false → AllUnchanged xs ys)
    → IsRemembered (stacked n (append_nodes xs removed))
    → AreRemembered ys
    → IsRemembered (stacked (mark_if b n) ys)
unfolding IsRemembered needs_layout
stack-IsRemembered n true xs removed ys e below k r = (λ d v. absurd (ground arith), r)
stack-IsRemembered n false xs removed ys e below k r = (
  λ d v.
      let z = stack-Unchanged n false xs removed ys e below (rw (d, v) refl) in
      z.same n.last
      ∙ k.0 d (or_second n.dirty (any_needs_layout (append_nodes xs removed)) z.clean),
  r,
)

pub first_part : (xs ys : Nodes) → AreRemembered (append_nodes xs ys) → AreRemembered xs
unfolding AreRemembered
first_part no_nodes ys k = tt
first_part (and_node x xs) ys k = (k.0, first_part xs ys k.1)
