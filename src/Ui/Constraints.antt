-- ===== src/Ui/Constraints.antt =====
-- libs/rMlib/include/UI/Util.h: insets and constraints. Sizes and insets are natural numbers: where
-- the code takes the greater of 0 and a difference, the difference stops at 0 here.
use r_m2_stuff_rocket.Base.{ℕ, Bool, not, ◌&&◌, ◌+◌, ◌-◌, ◌==◌, leb, min, max, if◌then◌else◌}

pub record Extent : Type 0 where
  pub width : ℕ
  pub height : ℕ

pub record Insets : Type 0 where
  pub top : ℕ
  pub bottom : ℕ
  pub left : ℕ
  pub right : ℕ

pub record Constraints : Type 0 where
  pub least : Extent
  pub most : Extent

-- `std::numeric_limits<int>::max()`
abbrev pub unbound : ℕ
unbound = 2147483647

abbrev pub horizontal : Insets → ℕ
horizontal i = i.left + i.right

abbrev pub vertical : Insets → ℕ
vertical i = i.top + i.bottom

abbrev pub has_bounded_width : Constraints → Bool
has_bounded_width c = not (c.most.width == unbound)

abbrev pub has_bounded_height : Constraints → Bool
has_bounded_height c = not (c.most.height == unbound)

unfoldable pub contain : Constraints → Extent → Bool
contain c s =
    leb c.least.width s.width
    && leb s.width c.most.width
    && leb c.least.height s.height
    && leb s.height c.most.height

-- `inset`, on one axis: from the bounds and the insets to the bounds.
abbrev inset_least : ℕ → ℕ → ℕ
inset_least least insets = least - insets

abbrev inset_most : ℕ → ℕ → ℕ → ℕ
inset_most least most insets =
    if not (most == unbound) then max (least - insets) (most - insets) else unbound

unfoldable pub inset : Insets → Constraints → Constraints
inset i c = record {
  least = record {
    width = inset_least c.least.width (horizontal i);
    height = inset_least c.least.height (vertical i);
  };
  most = record {
    width = inset_most c.least.width c.most.width (horizontal i);
    height = inset_most c.least.height c.most.height (vertical i);
  };
}

unfoldable pub expand : Insets → Constraints → Extent → Extent
expand i c s = record {
  width = min (s.width + horizontal i) c.most.width;
  height = min (s.height + vertical i) c.most.height;
}
