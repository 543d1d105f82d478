-- ===== src/Rmlib/Update.antt =====
-- libs/rMlib/include/UI/Util.h, `UpdateRegion`: what has to be redrawn on the display, and how.
use r_m2_stuff_rocket.Base.{
  ℕ, Bool, true, false, ◌||◌, ◌≡◌, ◌≢◌, ◌≤◌, All, List, [], ◌∷◌, max, arith, if◌then◌else◌,
  Bool-cases, inl, inr, refl,
}
use r_m2_stuff_rocket.Rmlib.Geometry.{Point, Rect, empty_rect, is_empty, join, contains}
use r_m2_stuff_rocket.Rmlib.Rects.{contains-join, empty-no_points}

pub data Waveform : Type 0 where
  du gc16 gc16_fast a2 : Waveform

-- The bits of `UpdateFlags`.
pub record Flags : Type 0 where
  full_refresh : Bool
  sync : Bool
  priority : Bool

pub record UpdateRegion : Type 0 where
  pub region : Rect
  pub waveform : Waveform
  pub flags : Flags

abbrev pub no_flags : Flags
no_flags = record { full_refresh = false; sync = false; priority = false }

-- `UpdateRegion()`
abbrev no_update : UpdateRegion
no_update = record { region = empty_rect; waveform = du; flags = no_flags }

unfoldable pub merge_waveform : Waveform → Waveform → Waveform
merge_waveform w gc16 = gc16
merge_waveform du gc16_fast = gc16_fast
merge_waveform gc16 gc16_fast = gc16
merge_waveform gc16_fast gc16_fast = gc16_fast
merge_waveform a2 gc16_fast = a2
merge_waveform w du = w
merge_waveform w a2 = w

-- `operator|=`
unfoldable pub merge : UpdateRegion → UpdateRegion → UpdateRegion
merge a b = record {
  region =
      if is_empty a.region
      then b.region
      else if is_empty b.region
      then a.region
      else join a.region b.region;
  waveform = merge_waveform a.waveform b.waveform;
  flags = record {
    full_refresh = a.flags.full_refresh || b.flags.full_refresh;
    sync = a.flags.sync || b.flags.sync;
    priority = a.flags.priority || b.flags.priority;
  };
}

-- `MultiChildRenderObject`'s drawing and cleaning: the regions of the children, one after another.
unfoldable pub merge_all : UpdateRegion → List UpdateRegion → UpdateRegion
merge_all r [] = r
merge_all r (u ∷ us) = merge_all (merge r u) us

-- How good the image is; A2, which the user interface does not use, is out of this order.
abbrev quality : Waveform → ℕ
quality du = 0
quality gc16_fast = 1
quality gc16 = 2
quality a2 = 0

-- `whole` asks for everything that `part` asks for.
pub record Covers (whole part : UpdateRegion) : Type 0 where
  points : (p : Point) → contains part.region p ≡ true → contains whole.region p ≡ true
  no_worse : quality part.waveform ≤ quality whole.waveform
  full_refresh : part.flags.full_refresh ≡ true → whole.flags.full_refresh ≡ true
  sync : part.flags.sync ≡ true → whole.flags.sync ≡ true
  priority : part.flags.priority ≡ true → whole.flags.priority ≡ true

-- Where neither is A2.
abbrev pub IsGray : UpdateRegion → Type 0
IsGray u = u.waveform ≢ a2

merge-region :
    (a b : UpdateRegion) (p : Point)
    → contains a.region p || contains b.region p ≡ true
    → contains (merge a b).region p ≡ true
unfolding merge
merge-region a b p h = elim (Bool-cases (is_empty a.region)) [
  | inl e ↦ rw e (ground (arith, empty-no_points a.region p e))
  | inr e ↦ elim (Bool-cases (is_empty b.region)) [
    | inl f ↦ rw (e, f) (ground (arith, empty-no_points b.region p f))
    | inr f ↦ rw (e, f) (contains-join a.region b.region p h)
  ]
]

merge_waveform-quality :
    (v w : Waveform) → v ≢ a2 → quality (merge_waveform v w) ≡ max (quality v) (quality w)
unfolding merge_waveform
merge_waveform-quality du du n = refl
merge_waveform-quality du gc16 n = refl
merge_waveform-quality du gc16_fast n = refl
merge_waveform-quality du a2 n = refl
merge_waveform-quality gc16 du n = refl
merge_waveform-quality gc16 gc16 n = refl
merge_waveform-quality gc16 gc16_fast n = refl
merge_waveform-quality gc16 a2 n = refl
merge_waveform-quality gc16_fast du n = refl
merge_waveform-quality gc16_fast gc16 n = refl
merge_waveform-quality gc16_fast gc16_fast n = refl
merge_waveform-quality gc16_fast a2 n = refl
merge_waveform-quality a2 w n = absurd (n refl)

merge_waveform-ne : (v w : Waveform) → v ≢ a2 → w ≢ a2 → merge_waveform v w ≢ a2
unfolding merge_waveform
merge_waveform-ne v w n k = ground arith

merge-Covers_left : (a b : UpdateRegion) → IsGray a → Covers (merge a b) a
unfolding merge
merge-Covers_left a b n = record {
  points = λ p h. merge-region a b p (ground arith);
  no_worse = omega (arith, merge_waveform-quality a.waveform b.waveform n);
  full_refresh = λ h. ground arith;
  sync = λ h. ground arith;
  priority = λ h. ground arith;
}

merge-Covers_right : (a b : UpdateRegion) → IsGray a → Covers (merge a b) b
unfolding merge
merge-Covers_right a b n = record {
  points = λ p h. merge-region a b p (ground arith);
  no_worse = omega (arith, merge_waveform-quality a.waveform b.waveform n);
  full_refresh = λ h. ground arith;
  sync = λ h. ground arith;
  priority = λ h. ground arith;
}

merge-IsGray : (a b : UpdateRegion) → IsGray a → IsGray b → IsGray (merge a b)
unfolding merge
merge-IsGray a b n k = merge_waveform-ne a.waveform b.waveform n k

Covers-refl : (a : UpdateRegion) → Covers a a
Covers-refl a = record {
  points = λ p h. h;
  no_worse = omega arith;
  full_refresh = λ h. h;
  sync = λ h. h;
  priority = λ h. h;
}

Covers-trans : (a b c : UpdateRegion) → Covers a b → Covers b c → Covers a c
Covers-trans a b c h k = record {
  points = λ p e. h.points p (k.points p e);
  no_worse = omega (arith, h.no_worse, k.no_worse);
  full_refresh = λ e. h.full_refresh (k.full_refresh e);
  sync = λ e. h.sync (k.sync e);
  priority = λ e. h.priority (k.priority e);
}

-- When none of them asks for the waveform A2, the region merged from several covers each of them:
-- all its points, a waveform that is no worse, and each flag that it sets.
pub merge_all-Covers :
    (r : UpdateRegion) (us : List UpdateRegion)
    → IsGray r
    → All IsGray us
    → Covers (merge_all r us) r × All (Covers (merge_all r us)) us
unfolding merge_all
merge_all-Covers r [] n k = (Covers-refl r, tt)
merge_all-Covers r (u ∷ us) n k =
    let ih = merge_all-Covers (merge r u) us (merge-IsGray r u n k.0) k.1 in
    (
      Covers-trans _ _ _ ih.0 (merge-Covers_left r u n),
      (Covers-trans _ _ _ ih.0 (merge-Covers_right r u n), ih.1),
    )
