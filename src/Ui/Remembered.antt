-- ===== src/Ui/Remembered.antt =====
-- libs/rMlib/include/UI/RenderObject.h: the sizes that `layout` remembers are those of a fresh layout.
use r_m2_stuff_rocket.Base.{true, false, Option, none, some, ◌≡◌, refl, sym, ◌∙◌, arith}
use r_m2_stuff_rocket.Ui.Constraints.{Extent, Constraints}
use r_m2_stuff_rocket.Ui.Layout.{checked, then_with, grow}
use r_m2_stuff_rocket.Ui.Cache.{
  Note, Node, Nodes, leaf, single, stacked, no_nodes, and_node, same_constraints, needs_layout,
  any_needs_layout, keep_leaf, keep_single, single_done, keep_stack, stack_done, and_laid, fresh,
  fresh_all,
}

-- Where nothing is marked, the size that is remembered is the right one; everywhere in the tree.
unfoldable mutual
  pub IsRemembered : Node → Type 0
  IsRemembered (leaf f n) = n.dirty ≡ false → checked n.last (f n.last) ≡ some n.size
  IsRemembered (single g h n x) =
      (n.dirty ≡ false → needs_layout x ≡ false → fresh (single g h n x) n.last ≡ some n.size)
      × IsRemembered x
  IsRemembered (stacked n xs) =
      (n.dirty ≡ false → any_needs_layout xs ≡ false → fresh (stacked n xs) n.last ≡ some n.size)
      × AreRemembered xs

  pub AreRemembered : Nodes → Type 0
  AreRemembered no_nodes = Unit {0}
  AreRemembered (and_node x xs) = IsRemembered x × AreRemembered xs

-- The result is that of the fresh layout; the tree is then as it should be, needs no layout, and would have the
-- same fresh layouts.
pub record Lays (x x' : Node) (r : Option Extent) (s : Extent) : Type 0 where
  pub size : r ≡ some s
  pub remembered : IsRemembered x'
  pub clean : needs_layout x' ≡ false
  pub same : (c : Constraints) → fresh x' c ≡ fresh x c

abbrev pub Refines : Node → Option Extent → Option (Extent × Node) → Type 0
Refines x r none = r ≡ none
Refines x r (some (s, x')) = Lays x x' r s

pub record LaysAll (xs xs' : Nodes) (r : Option Extent) (s : Extent) : Type 0 where
  pub size : r ≡ some s
  pub remembered : AreRemembered xs'
  pub clean : any_needs_layout xs' ≡ false
  pub same : (c : Constraints) (t : Extent) → fresh_all xs' c t ≡ fresh_all xs c t

abbrev pub RefinesAll : Nodes → Option Extent → Option (Extent × Nodes) → Type 0
RefinesAll xs r none = r ≡ none
RefinesAll xs r (some (s, xs')) = LaysAll xs xs' r s

pub same_constraints_eq : (c d : Constraints) → same_constraints c d ≡ true → c ≡ d
unfolding same_constraints
same_constraints_eq c d h =
    let w : c.least.width ≡ d.least.width = ground arith in
    let e : c.least.height ≡ d.least.height = ground arith in
    let m : c.most.width ≡ d.most.width = ground arith in
    let n : c.most.height ≡ d.most.height = ground arith in
    λ i. record {
      least = record { width = w i; height = e i };
      most = record { width = m i; height = n i };
    }

pub keep_leaf-Refines :
    (f : Constraints → Extent) (n : Note) (c : Constraints) (r : Option Extent)
    → r ≡ checked c (f c)
    → Refines (leaf f n) (fresh (leaf f n) c) (keep_leaf f c r)
unfolding fresh IsRemembered needs_layout
keep_leaf-Refines f n c none h = sym h
keep_leaf-Refines f n c (some s) h = record {
  size = sym h;
  remembered = λ e. sym h;
  clean = refl;
  same = λ d. refl;
}

keep_single-Refines :
    (g : Constraints → Constraints) (h : Constraints → Extent → Extent) (n : Note) (x x' : Node)
    (c : Constraints) (t : Extent) (r : Option Extent)
    → Lays x x' (fresh x (g c)) t
    → r ≡ checked c (h c t)
    → Refines (single g h n x) (fresh (single g h n x) c) (keep_single g h c x' r)
unfolding fresh IsRemembered needs_layout
keep_single-Refines g h n x x' c t none k e = rw (k.size) (sym e)
keep_single-Refines g h n x x' c t (some s) k e = record {
  size = rw (k.size) (sym e);
  remembered = (λ u v. rw (k.same (g c), k.size) (sym e), k.remembered);
  clean = k.clean;
  same = λ d. rw (k.same (g d)) refl;
}

single_fails :
    (g : Constraints → Constraints) (h : Constraints → Extent → Extent) (n : Note) (x : Node)
    (c : Constraints)
    → fresh x (g c) ≡ none
    → fresh (single g h n x) c ≡ none
unfolding fresh
single_fails g h n x c e = rw e refl

pub single_done-Refines :
    (g : Constraints → Constraints) (h : Constraints → Extent → Extent) (n : Note) (x : Node)
    (c : Constraints) (r : Option (Extent × Node))
    → Refines x (fresh x (g c)) r
    → Refines (single g h n x) (fresh (single g h n x) c) (single_done g h c r)
single_done-Refines g h n x c none k = single_fails g h n x c k
single_done-Refines g h n x c (some (t, x')) k =
    keep_single-Refines g h n x x' c t (checked c (h c t)) k refl

keep_stack-Refines :
    (n : Note) (xs xs' : Nodes) (c : Constraints) (t : Extent) (r : Option Extent)
    → LaysAll xs xs' (fresh_all xs c c.least) t
    → r ≡ checked c t
    → Refines (stacked n xs) (fresh (stacked n xs) c) (keep_stack c xs' r)
unfolding fresh IsRemembered needs_layout
keep_stack-Refines n xs xs' c t none k e = rw (k.size) (sym e)
keep_stack-Refines n xs xs' c t (some s) k e = record {
  size = rw (k.size) (sym e);
  remembered = (λ u v. rw (k.same c c.least, k.size) (sym e), k.remembered);
  clean = k.clean;
  same = λ d. rw (k.same d d.least) refl;
}

stack_fails :
    (n : Note) (xs : Nodes) (c : Constraints)
    → fresh_all xs c c.least ≡ none
    → fresh (stacked n xs) c ≡ none
unfolding fresh
stack_fails n xs c e = rw e refl

pub stack_done-Refines :
    (n : Note) (xs : Nodes) (c : Constraints) (r : Option (Extent × Nodes))
    → RefinesAll xs (fresh_all xs c c.least) r
    → Refines (stacked n xs) (fresh (stacked n xs) c) (stack_done c r)
stack_done-Refines n xs c none k = stack_fails n xs c k
stack_done-Refines n xs c (some (t, xs')) k = keep_stack-Refines n xs xs' c t (checked c t) k refl

pub nodes_fail :
    (x : Node) (xs : Nodes) (c : Constraints) (s : Extent)
    → fresh x c ≡ none
    → fresh_all (and_node x xs) c s ≡ none
unfolding fresh_all
nodes_fail x xs c s e = rw e refl

nodes_go :
    (x : Node) (xs : Nodes) (c : Constraints) (s t : Extent)
    → fresh x c ≡ some t
    → fresh_all (and_node x xs) c s ≡ fresh_all xs c (grow s t)
unfolding fresh_all
nodes_go x xs c s t e = rw e refl

pub and_laid-RefinesAll :
    (x x' : Node) (xs : Nodes) (c : Constraints) (s t : Extent) (r : Option (Extent × Nodes))
    → Lays x x' (fresh x c) t
    → RefinesAll xs (fresh_all xs c (grow s t)) r
    → RefinesAll (and_node x xs) (fresh_all (and_node x xs) c s) (and_laid x' r)
unfolding AreRemembered any_needs_layout fresh_all
and_laid-RefinesAll x x' xs c s t none k l = nodes_go x xs c s t k.size ∙ l
and_laid-RefinesAll x x' xs c s t (some (u, xs')) k l = record {
  size = nodes_go x xs c s t k.size ∙ l.size;
  remembered = (k.remembered, l.remembered);
  clean = rw (k.clean) l.clean;
  same = λ d v i. then_with (k.same d i) (λ w. l.same d (grow v w) i);
}
