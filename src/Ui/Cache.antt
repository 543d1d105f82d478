-- ===== src/Ui/Cache.antt =====
-- libs/rMlib/include/UI/RenderObject.h: `layout`, which keeps the last size, and `needsLayout` of leaves, of
-- objects with one child and of stacks. What `doLayout` computes around its children's layouts is a
-- function in the tree; `none` is a failed assertion. The memory of `needsLayout` itself, which
-- holds within a frame, is left out.
use r_m2_stuff_rocket.Base.{
  Bool, true, false, not, ◌&&◌, ◌||◌, Option, none, some, ◌==◌, if◌then◌else◌,
}
use r_m2_stuff_rocket.Ui.Constraints.{Extent, Constraints}
use r_m2_stuff_rocket.Ui.Layout.{checked, then_with, grow}

-- `mNeedsLayout`, `lastConstraints` and `lastSize`
pub record Note : Type 0 where
  pub dirty : Bool
  pub last : Constraints
  pub size : Extent

mutual
  pub data Node : Type 0 where
    leaf : (Constraints → Extent) → Note → Node
    single : (Constraints → Constraints) → (Constraints → Extent → Extent) → Note → Node → Node
    stacked : Note → Nodes → Node

  pub data Nodes : Type 0 where
    no_nodes : Nodes
    and_node : Node → Nodes → Nodes

unfoldable pub same_constraints : Constraints → Constraints → Bool
same_constraints c d =
    c.least.width == d.least.width
    && c.least.height == d.least.height
    && c.most.width == d.most.width
    && c.most.height == d.most.height

-- `getNeedsLayout`
unfoldable mutual
  pub needs_layout : Node → Bool
  needs_layout (leaf f n) = n.dirty
  needs_layout (single g h n x) = n.dirty || needs_layout x
  needs_layout (stacked n xs) = n.dirty || any_needs_layout xs

  pub any_needs_layout : Nodes → Bool
  any_needs_layout no_nodes = false
  any_needs_layout (and_node x xs) = needs_layout x || any_needs_layout xs

abbrev laid_out : Constraints → Extent → Note
laid_out c s = record { dirty = false; last = c; size = s }

-- After `doLayout`: the assertions, and what is noted.
abbrev pub keep_leaf : (Constraints → Extent) → Constraints → Option Extent → Option (Extent × Node)
keep_leaf f c none = none
keep_leaf f c (some s) = some (s, leaf f (laid_out c s))

abbrev pub keep_single :
    (Constraints → Constraints)
    → (Constraints → Extent → Extent)
    → Constraints
    → Node
    → Option Extent
    → Option (Extent × Node)
keep_single g h c x none = none
keep_single g h c x (some s) = some (s, single g h (laid_out c s) x)

abbrev pub single_done :
    (Constraints → Constraints)
    → (Constraints → Extent → Extent)
    → Constraints
    → Option (Extent × Node)
    → Option (Extent × Node)
single_done g h c none = none
single_done g h c (some (s, x)) = keep_single g h c x (checked c (h c s))

abbrev pub keep_stack : Constraints → Nodes → Option Extent → Option (Extent × Node)
keep_stack c xs none = none
keep_stack c xs (some s) = some (s, stacked (laid_out c s) xs)

abbrev pub stack_done : Constraints → Option (Extent × Nodes) → Option (Extent × Node)
stack_done c none = none
stack_done c (some (s, xs)) = keep_stack c xs (checked c s)

abbrev pub and_laid : Node → Option (Extent × Nodes) → Option (Extent × Nodes)
and_laid x none = none
and_laid x (some (s, xs)) = some (s, and_node x xs)

-- `layout`, with the children in the state in which it leaves them.
unfoldable mutual
  pub lay : Node → Constraints → Option (Extent × Node)
  lay (leaf f n) c =
      if n.dirty || not (same_constraints c n.last)
      then keep_leaf f c (checked c (f c))
      else some (n.size, leaf f n)
  lay (single g h n x) c =
      let child = lay x (g c) in
      if n.dirty || needs_layout x || not (same_constraints c n.last)
      then single_done g h c child
      else some (n.size, single g h n x)
  lay (stacked n xs) c =
      let children = lay_all xs c c.least in
      if n.dirty || any_needs_layout xs || not (same_constraints c n.last)
      then stack_done c children
      else some (n.size, stacked n xs)

  pub lay_all : Nodes → Constraints → Extent → Option (Extent × Nodes)
  lay_all no_nodes c s = some (s, no_nodes)
  lay_all (and_node x xs) c s = elim (lay x c) [
    | none ↦ none
    | some (t, x') ↦ and_laid x' (lay_all xs c (grow s t))
  ]

-- The layout that remembers nothing.
unfoldable mutual
  pub fresh : Node → Constraints → Option Extent
  fresh (leaf f n) c = checked c (f c)
  fresh (single g h n x) c = then_with (fresh x (g c)) (λ s. checked c (h c s))
  fresh (stacked n xs) c = then_with (fresh_all xs c c.least) (λ s. checked c s)

  pub fresh_all : Nodes → Constraints → Extent → Option Extent
  fresh_all no_nodes c s = some s
  fresh_all (and_node x xs) c s = then_with (fresh x c) (λ t. fresh_all xs c (grow s t))

abbrev mark : Note → Note
mark n = record n { dirty = true }

-- `markNeedsLayout`
unfoldable mutual
  pub mark_needs_layout : Node → Node
  mark_needs_layout (leaf f n) = leaf f (mark n)
  mark_needs_layout (single g h n x) = single g h (mark n) (mark_needs_layout x)
  mark_needs_layout (stacked n xs) = stacked (mark n) (mark_all xs)

  pub mark_all : Nodes → Nodes
  mark_all no_nodes = no_nodes
  mark_all (and_node x xs) = and_node (mark_needs_layout x) (mark_all xs)
