-- ===== src/Adapter/Entry/Laws/CodexWalk.antt =====
-- Codex: the loop over the names.
use uawp.Base.{
  ◌≢◌, if◌then◌else◌, ◌∙◌, true, false, [], ◌∷◌, ◌++◌, inl, inr, bytes_eq, nat_eq, ◌≡◌, All-append,
  Bool-cases, All-imp, refl,
}
use uawp.Adapter.Entry.{
  effective, missing, unavailable, is_present, Snapshot, Bytes, Bool, is_filled, is_empty, List,
  Candidate, FileFact,
}
use uawp.Adapter.Entry.Laws.{is_read, arith, All}
use uawp.Adapter.Entry.Codex.{codex_walk, codex_name, Walk, fact_of, seen}

-- What is read is the entry of the name.
abbrev pub ReadsAs : Bytes → Candidate → Type 0
ReadsAs name c = is_read c.state ≡ true → (c.path ≡ name) × (name ≢ [])

-- What the loop has found so far: the effective entry is there, and is the only one that is read.
pub record IsSound (s : Snapshot) (w : Walk) : Type 0 where
  pub read : All (ReadsAs w.effective_name) w.candidates
  pub found : w.effective_name ≢ [] → is_present s w.effective_name ≡ true

present_of : (s : Snapshot) (name : Bytes) → is_present s name ≡ is_filled (fact_of s name)
unfolding is_present
present_of s name = ground arith

pub empty_iff : (b : Bytes) → is_empty b ≡ true → b ≡ []
empty_iff b h = ground arith

unread : (name : Bytes) (c : Candidate) → is_read c.state ≡ false → ReadsAs name c
unread name c h e = absurd (ground arith)

pub appended :
    (name : Bytes) (cs : List Candidate) (c : Candidate)
    → All (ReadsAs name) cs
    → is_read c.state ≡ false
    → All (ReadsAs name) (cs ++ (c ∷ []))
appended name cs c h k = All-append (ReadsAs name) cs (c ∷ []) h (unread name c k, tt)

pub bare_unread : (b : Bool) → is_read (if b then unavailable else missing) ≡ false
bare_unread b = ground arith

module _ (s : Snapshot) where
  codex_name-IsSound :
      (fact : FileFact) (name : Bytes) (w : Walk)
      → name ≢ []
      → is_present s name ≡ is_filled fact
      → IsSound s w
      → IsSound s (codex_name fact name w)
  unfolding codex_name
  codex_name-IsSound fact name w ne same k = elim (Bool-cases (is_filled fact)) [
    | inl filled ↦ elim (Bool-cases (is_empty w.effective_name)) [
      | inl first ↦
          rw (filled, first)
            record {
              read =
                  All-append (ReadsAs name) w.candidates (seen name effective)
                    (All-imp w.candidates
                      (λ c h e. absurd ((h e).1 (empty_iff w.effective_name first))) k.read)
                    ((λ e. (refl, ne)), tt);
              found = λ _. same ∙ filled;
            }
      | inr later ↦
          rw (filled, later)
            record { read = appended w.effective_name w.candidates _ k.read refl; found = k.found }
    ]
    | inr bare ↦ rw bare record {
      read = appended w.effective_name w.candidates _ k.read (bare_unread _);
      found = k.found;
    }
  ]

  pub codex_walk-IsSound :
      (names : List Bytes) (w : Walk)
      → All (λ n. n ≢ []) names
      → IsSound s w
      → IsSound s (codex_walk s names w)
  unfolding codex_walk
  codex_walk-IsSound [] w ne k = k
  codex_walk-IsSound (name ∷ names) w ne k =
      codex_walk-IsSound names (codex_name (fact_of s name) name w) ne.1
        (codex_name-IsSound (fact_of s name) name w ne.0 (present_of s name) k)

  -- An entry that was found stays the effective one.
  codex_name-keeps :
      (fact : FileFact) (name : Bytes) (w : Walk)
      → (codex_name fact name w).effective_name ≡ []
      → name ≢ []
      → (w.effective_name ≡ []) × (is_filled fact ≡ false)
  unfolding codex_name
  codex_name-keeps fact name w h ne = ground arith

  pub codex_walk-none :
      (names : List Bytes) (w : Walk)
      → All (λ n. n ≢ []) names
      → (codex_walk s names w).effective_name ≡ []
      → (w.effective_name ≡ []) × All (λ n. is_present s n ≡ false) names
  unfolding codex_walk
  codex_walk-none [] w ne h = (h, tt)
  codex_walk-none (name ∷ names) w ne h =
      let (none_yet, later) = codex_walk-none names (codex_name (fact_of s name) name w) ne.1 h in
      let (before, bare) = codex_name-keeps (fact_of s name) name w none_yet ne.0 in
      (before, (present_of s name ∙ bare, later))
