-- ===== src/Launcher/Descriptions.antt =====
-- `readApps`, on the descriptions found on the disk: looking one up, and taking it out.
use r_m2_stuff_rocket.Base.{
  String, Option, none, some, List, [], ◌∷◌, ◌≡◌, sym, inl, inr, arith, same_text, same_text_iff,
  Bool-cases, Option-cases,
}
use r_m2_stuff_rocket.Launcher.Apps.{AppDescription}
use r_m2_stuff_rocket.Launcher.ReadApps.{find_desc, erase_desc, erase_found}
use r_m2_stuff_rocket.Launcher.Paths.{Fresh, Distinct}

abbrev pub desc_paths : List AppDescription → List String
desc_paths [] = []
desc_paths (d ∷ rest) = d.path ∷ desc_paths rest

find_desc-none :
    (p : String) (ds : List AppDescription) → find_desc p ds ≡ none → Fresh p (desc_paths ds)
unfolding find_desc
find_desc-none p [] e = tt
find_desc-none p (d ∷ ds) e = elim (Bool-cases (same_text d.path p)) [
  | inl t ↦ absurd (cc (rw t at e))
  | inr t ↦ (ground (arith, same_text_iff d.path p), find_desc-none p ds (rw t at e))
]

pub find_desc-path :
    (p : String) (ds : List AppDescription) (d : AppDescription)
    → find_desc p ds ≡ some d
    → d.path ≡ p
unfolding find_desc
find_desc-path p [] d e = cc
find_desc-path p (x ∷ ds) d e = ground (arith, same_text_iff x.path p, find_desc-path p ds d)

Fresh-erase_desc :
    (p q : String) (ds : List AppDescription)
    → Fresh p (desc_paths ds)
    → Fresh p (desc_paths (erase_desc q ds))
unfolding erase_desc
Fresh-erase_desc p q [] f = tt
Fresh-erase_desc p q (d ∷ ds) f = elim (Bool-cases (same_text d.path q)) [
  | inl t ↦ rw t f.1
  | inr t ↦ rw t (f.0, Fresh-erase_desc p q ds f.1)
]

Fresh-erased :
    (p : String) (ds : List AppDescription)
    → Distinct (desc_paths ds)
    → Fresh p (desc_paths (erase_desc p ds))
unfolding erase_desc
Fresh-erased p [] h = tt
Fresh-erased p (d ∷ ds) h = elim (Bool-cases (same_text d.path p)) [
  | inl t ↦ rw (t, sym ((same_text_iff d.path p).0 t)) h.0
  | inr t ↦ rw t (ground (arith, same_text_iff d.path p), Fresh-erased p ds h.1)
]

Distinct-erase_desc :
    (p : String) (ds : List AppDescription)
    → Distinct (desc_paths ds)
    → Distinct (desc_paths (erase_desc p ds))
unfolding erase_desc
Distinct-erase_desc p [] h = tt
Distinct-erase_desc p (d ∷ ds) h = elim (Bool-cases (same_text d.path p)) [
  | inl t ↦ rw t h.1
  | inr t ↦ rw t (Fresh-erase_desc d.path p ds h.0, Distinct-erase_desc p ds h.1)
]

module _ (P : List AppDescription → Type 0) (p : String) (ds : List AppDescription) where
  erased : P ds → P (erase_desc p ds) → (o : Option AppDescription) → P (erase_found p o ds)
  unfolding erase_found
  erased h k none = h
  erased h k (some d) = k

pub Fresh-erase_found :
    (p q : String) (o : Option AppDescription) (ds : List AppDescription)
    → Fresh p (desc_paths ds)
    → Fresh p (desc_paths (erase_found q o ds))
Fresh-erase_found p q o ds h =
    erased (λ xs. Fresh p (desc_paths xs)) q ds h (Fresh-erase_desc p q ds h) o

pub Distinct-erase_found :
    (p : String) (o : Option AppDescription) (ds : List AppDescription)
    → Distinct (desc_paths ds)
    → Distinct (desc_paths (erase_found p o ds))
Distinct-erase_found p o ds h =
    erased (λ xs. Distinct (desc_paths xs)) p ds h (Distinct-erase_desc p ds h) o

-- The path of an application is not among the descriptions that are left.
pub Fresh-found :
    (p : String) (ds : List AppDescription)
    → Distinct (desc_paths ds)
    → Fresh p (desc_paths (erase_found p (find_desc p ds) ds))
unfolding erase_found
Fresh-found p ds d = elim (Option-cases (find_desc p ds)) [
  | inl e ↦ rw (e, erase_found) (find_desc-none p ds e)
  | inr (x, e) ↦ rw (e, erase_found) (Fresh-erased p ds d)
]
