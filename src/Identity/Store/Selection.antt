-- ===== src/Identity/Store/Selection.antt =====
-- Which profile is selected.
use uawp.Base.{◌≡◌, ◌⊎◌, List, [], ◌∷◌, bytes_eq}
use uawp.Identity.Profile.{Profile}

abbrev pub IsIn : Profile → List Profile → Type 0
IsIn p [] = ⊥
IsIn p (q ∷ profiles) = (p ≡ q) ⊎ IsIn p profiles
