-- ===== src/Migration/Registry/Walk.antt =====
-- Walks along registered steps, and the number of sources a loop has still to see.
use uawp.Base.{
  ◌≡◌, refl, ◌<◌, ◌≤◌, arith, ℕ, suc, false, some, List, [], ◌∷◌, Bytes, ok, bytes_eq,
  bytes_beq_iff, All, All-imp, contains, length, if◌then◌else◌, Bool-cases, inl, inr, ◌==◌, sym,
  subst,
}
use uawp.Migration.Version.{Version, parse_version, IsBefore, IsBefore-trans, IsBefore-irrefl}
use uawp.Migration.Registry.{Step, step_at}

-- Both texts are versions, and the first is the lower one.
abbrev pub IsEarlier : Bytes → Bytes → Type 0
IsEarlier a b =
    (v : Version) × (w : Version) × (parse_version a ≡ ok v)
    × (parse_version b ≡ ok w)
    × IsBefore v w

abbrev pub IsForward : Step → Type 0
IsForward s = IsEarlier s.from s.to

-- The steps lead from one version to the other, each the registered one of its source.
abbrev pub IsWalk : List Step → Bytes → Bytes → List Step → Type 0
IsWalk steps from to [] = from ≡ to
IsWalk steps from to (s ∷ path) = (step_at steps from ≡ some s) × IsWalk steps s.to to path

-- The number of steps whose source was not seen.
unfoldable pub unseen : List Bytes → List Step → ℕ
unseen seen [] = 0
unseen seen (s ∷ steps) =
    if contains seen s.from then unseen seen steps else suc (unseen seen steps)

pub IsEarlier-trans : (a b c : Bytes) → IsEarlier a b → IsEarlier b c → IsEarlier a c
IsEarlier-trans a b c (u, v, pa, pb, before) (v', w, pb', pc, after) =
    (u, w, pa, pc, IsBefore-trans u v w before (ground arith))

pub IsEarlier-irrefl : (a : Bytes) → ¬ IsEarlier a a
IsEarlier-irrefl a (v, w, p, q, before) = IsBefore-irrefl v (ground arith)

pub step_at-from :
    (steps : List Step) (c : Bytes) (s : Step) → step_at steps c ≡ some s → s.from ≡ c
unfolding step_at
step_at-from [] c s h = ground arith
step_at-from (x ∷ steps) c s h = ground (arith, bytes_beq_iff x.from c, step_at-from steps c s)

pub step_at-All {κ} :
    (P : Step → Type κ) (steps : List Step) (c : Bytes) (s : Step)
    → All P steps
    → step_at steps c ≡ some s
    → P s
unfolding step_at
step_at-All P [] c s hs h = ground arith
step_at-All P (x ∷ steps) c s hs h = elim (Bool-cases (x.from == c)) [
  | inl e ↦ subst P (ground arith) hs.0
  | inr e ↦ step_at-All P steps c s hs.1 (ground arith)
]

pub unseen-length : (seen : List Bytes) (steps : List Step) → unseen seen steps ≤ length steps
unfolding unseen
unseen-length seen [] = ground arith
unseen-length seen (s ∷ steps) = ground (arith, unseen-length seen steps)

unseen_mono :
    (c : Bytes) (seen : List Bytes) (steps : List Step)
    → unseen (c ∷ seen) steps ≤ unseen seen steps
unfolding unseen
unseen_mono c seen [] = ground arith
unseen_mono c seen (s ∷ steps) = ground (arith, unseen_mono c seen steps)

pub unseen-decreases :
    (c : Bytes) (seen : List Bytes) (steps : List Step) (s : Step)
    → contains seen c ≡ false
    → step_at steps c ≡ some s
    → unseen (c ∷ seen) steps < unseen seen steps
unfolding unseen step_at
unseen-decreases c seen [] s new h = ground arith
unseen-decreases c seen (x ∷ steps) s new h = ground (
  arith,
  bytes_beq_iff x.from c,
  bytes_beq_iff c x.from,
  unseen_mono c seen steps,
  unseen-decreases c seen steps s new,
)

pub contains-IsEarlier :
    (seen : List Bytes) (c : Bytes) → All (λ a. IsEarlier a c) seen → contains seen c ≡ false
contains-IsEarlier [] c h = refl
contains-IsEarlier (a ∷ seen) c h =
    ground (arith, bytes_beq_iff a c, contains-IsEarlier seen c h.1, IsEarlier-irrefl c)

-- What was seen stays earlier after a step.
pub IsEarlier-step :
    (seen : List Bytes) (s : Step)
    → IsForward s
    → All (λ a. IsEarlier a s.from) seen
    → All (λ a. IsEarlier a s.to) (s.from ∷ seen)
IsEarlier-step seen s forward h =
    (forward, All-imp seen (λ a earlier. IsEarlier-trans a s.from s.to earlier forward) h)

pub step_at-IsEarlier :
    (steps : List Step) (c : Bytes) (s : Step)
    → All IsForward steps
    → step_at steps c ≡ some s
    → IsEarlier c s.to
step_at-IsEarlier steps c s hs h =
    rw (sym (step_at-from steps c s h)) (step_at-All IsForward steps c s hs h)

-- A walk of one step or more ends at a later version.
pub IsWalk-IsEarlier :
    (steps : List Step) (from to : Bytes) (s : Step) (path : List Step)
    → All IsForward steps
    → IsWalk steps from to (s ∷ path)
    → IsEarlier from to
IsWalk-IsEarlier steps from to s [] hs h =
    subst (IsEarlier from) h.1 (step_at-IsEarlier steps from s hs h.0)
IsWalk-IsEarlier steps from to s (t ∷ path) hs h =
    IsEarlier-trans from s.to to (step_at-IsEarlier steps from s hs h.0)
      (IsWalk-IsEarlier steps s.to to t path hs h.1)
