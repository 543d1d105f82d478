-- ===== src/Ui/Updates.antt =====
-- libs/rMlib/include/UI: `update` of the objects of Layout.h, Text.h, Image.h, Blank.h and Stack.h with a new
-- widget of the same type, as far as it marks a layout. A `Change` is the tree of objects, with what each one reads
-- of its old widget and of the new one; the objects before and after the update are trees of Ui/Cache.
-- `Positioned`, and a stack that gets more children, are left out.
use r_m2_stuff_rocket.Base.{
  ℕ, String, Bool, true, false, not, Option, none, some, ◌==◌, ◌&&◌, ◌||◌, if◌then◌else◌, same_text,
}
use r_m2_stuff_rocket.Ui.Constraints.{Extent, Insets, Constraints, inset, expand}
use r_m2_stuff_rocket.Ui.Layout.{
  Widget, Widgets, text, image, colored, blank, center, corner, padding, border, sized, cleared,
  stack, nil, cons, clamp_size, fill, fill_around, loosen, resize,
}
use r_m2_stuff_rocket.Ui.Cache.{Note, Node, Nodes, leaf, single, stacked, no_nodes, and_node}

mutual
  pub data Change : Type 0 where
    -- The text and the font size.
    text_change : String → ℕ → String → ℕ → Note → Change
    image_change : Extent → Extent → Note → Change
    colored_change : Note → Change
    blank_change : Bool → Bool → Note → Change
    center_change : Note → Change → Change
    corner_change : ℕ → ℕ → Note → Change → Change
    padding_change : Insets → Insets → Note → Change → Change
    border_change : Insets → Insets → Note → Change → Change
    sized_change : Option ℕ → Option ℕ → Option ℕ → Option ℕ → Note → Change → Change
    cleared_change : Note → Change → Change
    -- `shouldUpdate` of the old widget, the children that stay, and those that are removed.
    stack_change : Bool → Note → Changes → Nodes → Change

  pub data Changes : Type 0 where
    no_changes : Changes
    and_change : Change → Changes → Changes

abbrev pub same_insets : Insets → Insets → Bool
same_insets i j = i.top == j.top && i.bottom == j.bottom && i.left == j.left && i.right == j.right

abbrev pub same_bound : Option ℕ → Option ℕ → Bool
same_bound none none = true
same_bound none (some n) = false
same_bound (some m) none = false
same_bound (some m) (some n) = m == n

abbrev pub is_no_nodes : Nodes → Bool
is_no_nodes no_nodes = true
is_no_nodes (and_node x xs) = false

abbrev pub mark_if : Bool → Note → Note
mark_if b n = if b then record n { dirty = true } else n

abbrev pub blank_size : Bool → Constraints → Extent
blank_size expands c = if expands then c.most else c.least

abbrev pub append_nodes : Nodes → Nodes → Nodes
append_nodes no_nodes ys = ys
append_nodes (and_node x xs) ys = and_node x (append_nodes xs ys)

-- `text_size` is `getTextSize` of a text with a font size.
module _ (text_size : String → ℕ → Extent) where
  -- The objects before the update.
  unfoldable mutual
    pub before : Change → Node
    before (text_change s k t l n) = leaf (clamp_size (text_size s k)) n
    before (image_change s t n) = leaf (clamp_size s) n
    before (colored_change n) = leaf fill n
    before (blank_change d e n) = leaf (blank_size d) n
    before (center_change n x) = single loosen fill_around n (before x)
    before (corner_change k l n x) = single loosen fill_around n (before x)
    before (padding_change i j n x) = single (inset i) (expand i) n (before x)
    before (border_change i j n x) = single (inset i) (expand i) n (before x)
    before (sized_change w h v k n x) = single (resize w h) (λ c s. s) n (before x)
    before (cleared_change n x) = single (λ c. c) (λ c s. s) n (before x)
    before (stack_change u n xs removed) = stacked n (append_nodes (all_before xs) removed)

    pub all_before : Changes → Nodes
    all_before no_changes = no_nodes
    all_before (and_change x xs) = and_node (before x) (all_before xs)

  -- The objects after `update`; the flag says that an object above was marked, and so this one before its update.
  unfoldable mutual
    pub updated : Bool → Change → Node
    updated b (text_change s k t l n) =
        leaf (clamp_size (text_size t l)) (mark_if (b || not (l == k) || not (same_text s t)) n)
    updated b (image_change s t n) = leaf (clamp_size t) (mark_if b n)
    updated b (colored_change n) = leaf fill (mark_if b n)
    updated b (blank_change d e n) = leaf (blank_size e) (mark_if b n)
    updated b (center_change n x) = single loosen fill_around (mark_if b n) (updated b x)
    updated b (corner_change k l n x) = single loosen fill_around (mark_if b n) (updated b x)
    updated b (padding_change i j n x) =
        let b' = b || not (same_insets j i) in
        single (inset j) (expand j) (mark_if b' n) (updated b' x)
    updated b (border_change i j n x) =
        let b' = b || not (same_insets i j) in
        single (inset j) (expand j) (mark_if b' n) (updated b' x)
    updated b (sized_change w h v k n x) =
        let b' = b || not (same_bound v w) || not (same_bound k h) in
        single (resize v k) (λ c s. s) (mark_if b' n) (updated b' x)
    updated b (cleared_change n x) = single (λ c. c) (λ c s. s) (mark_if b n) (updated b x)
    updated b (stack_change u n xs removed) =
        let b' = b || not (is_no_nodes removed) || u in stacked (mark_if b' n) (all_updated b' xs)

    pub all_updated : Bool → Changes → Nodes
    all_updated b no_changes = no_nodes
    all_updated b (and_change x xs) = and_node (updated b x) (all_updated b xs)

  -- The new widget.
  unfoldable mutual
    pub new_widget : Change → Widget
    new_widget (text_change s k t l n) = text (text_size t l)
    new_widget (image_change s t n) = image t
    new_widget (colored_change n) = colored
    new_widget (blank_change d e n) = blank e
    new_widget (center_change n x) = center (new_widget x)
    new_widget (corner_change k l n x) = corner l (new_widget x)
    new_widget (padding_change i j n x) = padding j (new_widget x)
    new_widget (border_change i j n x) = border j (new_widget x)
    new_widget (sized_change w h v k n x) = sized v k (new_widget x)
    new_widget (cleared_change n x) = cleared (new_widget x)
    new_widget (stack_change u n xs removed) = stack (new_widgets xs)

    pub new_widgets : Changes → Widgets
    new_widgets no_changes = nil
    new_widgets (and_change x xs) = cons (new_widget x) (new_widgets xs)
