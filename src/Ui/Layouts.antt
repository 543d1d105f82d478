-- ===== src/Ui/Layouts.antt =====
-- libs/rMlib/include/UI/RenderObject.h: `layout` with what it remembers, and without.
use r_m2_stuff_rocket.Base.{
  Bool, true, false, not, ◌||◌, Option, none, some, ◌≡◌, refl, ap, ◌∙◌, arith, Bool-cases, inl, inr,
  ◌⊎◌,
}
use r_m2_stuff_rocket.Ui.Constraints.{Extent, Constraints}
use r_m2_stuff_rocket.Ui.Layout.{checked, grow}
use r_m2_stuff_rocket.Ui.Cache.{
  Note, Node, Nodes, leaf, single, stacked, no_nodes, and_node, same_constraints, needs_layout,
  any_needs_layout, and_laid, lay, lay_all, fresh, fresh_all, mark_needs_layout, mark_all,
}
use r_m2_stuff_rocket.Ui.Remembered.{
  IsRemembered, AreRemembered, Lays, Refines, RefinesAll, same_constraints_eq, keep_leaf-Refines,
  single_done-Refines, stack_done-Refines, nodes_fail, and_laid-RefinesAll,
}

-- A size that is remembered and asked for again.
leaf_kept :
    (f : Constraints → Extent) (n : Note) (c : Constraints)
    → IsRemembered (leaf f n)
    → n.dirty ≡ false
    → c ≡ n.last
    → Lays (leaf f n) (leaf f n) (fresh (leaf f n) c) n.size
unfolding fresh IsRemembered needs_layout
leaf_kept f n c k d e = record {
  size = ap (λ c. checked c (f c)) e ∙ k d;
  remembered = k;
  clean = d;
  same = λ c. refl;
}

single_kept :
    (g : Constraints → Constraints) (h : Constraints → Extent → Extent) (n : Note) (x : Node)
    (c : Constraints)
    → IsRemembered (single g h n x)
    → n.dirty ≡ false
    → needs_layout x ≡ false
    → c ≡ n.last
    → Lays (single g h n x) (single g h n x) (fresh (single g h n x) c) n.size
unfolding IsRemembered needs_layout
single_kept g h n x c k d u e = record {
  size = ap (λ c. fresh (single g h n x) c) e ∙ k.0 d u;
  remembered = k;
  clean = rw (d, u) refl;
  same = λ c. refl;
}

stack_kept :
    (n : Note) (xs : Nodes) (c : Constraints)
    → IsRemembered (stacked n xs)
    → n.dirty ≡ false
    → any_needs_layout xs ≡ false
    → c ≡ n.last
    → Lays (stacked n xs) (stacked n xs) (fresh (stacked n xs) c) n.size
unfolding IsRemembered needs_layout
stack_kept n xs c k d u e = record {
  size = ap (λ c. fresh (stacked n xs) c) e ∙ k.0 d u;
  remembered = k;
  clean = rw (d, u) refl;
  same = λ c. refl;
}

-- Either the whole is laid out, or nothing was marked and the constraints are those of the last time.
Kept : Note → Bool → Constraints → Type 0
Kept n b c = (n.dirty ≡ false) × (b ≡ false) × (c ≡ n.last)

holds_or_not :
    (n : Note) (b : Bool) (c : Constraints)
    → (n.dirty || b || not (same_constraints c n.last) ≡ true)
      ⊎ ((n.dirty || b || not (same_constraints c n.last) ≡ false) × Kept n b c)
unfolding Kept
holds_or_not n b c = elim (Bool-cases (n.dirty || b || not (same_constraints c n.last))) [
  | inl e ↦ inl e
  | inr e ↦ inr (e, (ground arith, ground arith, same_constraints_eq c n.last (ground arith)))
]

leaf_kept_or_not :
    (n : Note) (c : Constraints)
    → (n.dirty || not (same_constraints c n.last) ≡ true)
      ⊎ ((n.dirty || not (same_constraints c n.last) ≡ false) × ((n.dirty ≡ false) × (c ≡ n.last)))
leaf_kept_or_not n c = elim (Bool-cases (n.dirty || not (same_constraints c n.last))) [
  | inl e ↦ inl e
  | inr e ↦ inr (e, (ground arith, same_constraints_eq c n.last (ground arith)))
]

fresh_none : (c : Constraints) (s : Extent) → fresh_all no_nodes c s ≡ some s
unfolding fresh_all
fresh_none c s = refl

none_need : any_needs_layout no_nodes ≡ false
unfolding any_needs_layout
none_need = refl

abbrev then_all : Nodes → Constraints → Extent → Option (Extent × Node) → Option (Extent × Nodes)
then_all xs c s none = none
then_all xs c s (some (t, x')) = and_laid x' (lay_all xs c (grow s t))

nodes_refine :
    (x : Node) (xs : Nodes) (c : Constraints) (s : Extent) (r : Option (Extent × Node))
    → Refines x (fresh x c) r
    → ((t : Extent) → RefinesAll xs (fresh_all xs c (grow s t)) (lay_all xs c (grow s t)))
    → RefinesAll (and_node x xs) (fresh_all (and_node x xs) c s) (then_all xs c s r)
nodes_refine x xs c s none k l = nodes_fail x xs c s k
nodes_refine x xs c s (some (t, x')) k l =
    and_laid-RefinesAll x x' xs c s t (lay_all xs c (grow s t)) k (l t)

mutual
  unfolding lay IsRemembered Kept

  lays_as_fresh : (x : Node) (c : Constraints) → IsRemembered x → Refines x (fresh x c) (lay x c)
  lays_as_fresh (leaf f n) c k = elim (leaf_kept_or_not n c) [
    | inl e ↦ rw e (keep_leaf-Refines f n c (checked c (f c)) refl)
    | inr (e, (d, q)) ↦ rw e (leaf_kept f n c k d q)
  ]
  lays_as_fresh (single g h n x) c k = elim (holds_or_not n (needs_layout x) c) [
    | inl e ↦ rw e (single_done-Refines g h n x c (lay x (g c)) (lays_as_fresh x (g c) k.1))
    | inr (e, (d, u, q)) ↦ rw e (single_kept g h n x c k d u q)
  ]
  lays_as_fresh (stacked n xs) c k = elim (holds_or_not n (any_needs_layout xs) c) [
    | inl e ↦
        rw e (stack_done-Refines n xs c (lay_all xs c c.least) (all_lay_as_fresh xs c c.least k.1))
    | inr (e, (d, u, q)) ↦ rw e (stack_kept n xs c k d u q)
  ]

  all_lay_as_fresh :
      (xs : Nodes) (c : Constraints) (s : Extent)
      → AreRemembered xs
      → RefinesAll xs (fresh_all xs c s) (lay_all xs c s)
  all_lay_as_fresh no_nodes c s k = record {
    size = fresh_none c s;
    remembered = tt;
    clean = none_need;
    same = λ d t. refl;
  }
  all_lay_as_fresh (and_node x xs) c s k =
      nodes_refine x xs c s (lay x c) (lays_as_fresh x c k.0)
        (λ t. all_lay_as_fresh xs c (grow s t) k.1)

-- `layout` with its remembered sizes returns what the layout that remembers nothing returns, assertions that
-- fail included, for any tree of leaves, objects with one child and stacks in which the unmarked objects
-- remember the right sizes. The tree is then again such a tree, with the same fresh layouts, and
-- nothing in it needs a layout.
pub lay-Refines : (x : Node) (c : Constraints) → IsRemembered x → Refines x (fresh x c) (lay x c)
lay-Refines x c k = lays_as_fresh x c k

mutual
  unfolding IsRemembered AreRemembered mark_needs_layout mark_all

  pub mark_needs_layout-IsRemembered : (x : Node) → IsRemembered (mark_needs_layout x)
  mark_needs_layout-IsRemembered (leaf f n) = λ e. absurd (ground arith)
  mark_needs_layout-IsRemembered (single g h n x) =
      (λ e u. absurd (ground arith), mark_needs_layout-IsRemembered x)
  mark_needs_layout-IsRemembered (stacked n xs) =
      (λ e u. absurd (ground arith), mark_all-AreRemembered xs)

  mark_all-AreRemembered : (xs : Nodes) → AreRemembered (mark_all xs)
  mark_all-AreRemembered no_nodes = tt
  mark_all-AreRemembered (and_node x xs) =
      (mark_needs_layout-IsRemembered x, mark_all-AreRemembered xs)
