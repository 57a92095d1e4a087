-- ===== src/Adapter/Entry/Laws/Facts.antt =====
-- The files that are looked at are those that the adapters ask for.
use uawp.Adapter.Entry.{entry, FileFact, Snapshot, option, Bool}
use uawp.Base.{
  ◌||◌, if◌then◌else◌, ◌==◌, true, false, [], ◌∷◌, ◌++◌, inl, inr, bytes_eq, nat_eq, ◌≡◌, ◌⊎◌, List,
  Bytes, contains, codes, All, arith, Bool-cases, trim_space, is_empty, bytes_beq_iff, bytes_beq,
  refl, All-imp, ◌∙◌, ap,
}
use uawp.Adapter.Entry.Planner.{candidate_paths, append_unique, add_fallbacks, add_directories}
use uawp.Adapter.Entry.Codex.{
  listed, codex_names, join_path, working_parts, fact_of, codex_walk, codex_resolve,
  codex_directories, no_walk, Walk, codex_name,
}
use uawp.Base.FilePath.{split}

contains-snoc :
    (xs : List Bytes) (a b : Bytes) → contains xs b ≡ true → contains (xs ++ (a ∷ [])) b ≡ true
contains-snoc [] a b h = ground arith
contains-snoc (x ∷ xs) a b h = ground (arith, contains-snoc xs a b)

contains_last : (xs : List Bytes) (a : Bytes) → contains (xs ++ (a ∷ [])) a ≡ true
contains_last [] a = ground (arith, bytes_beq_iff a a)
contains_last (x ∷ xs) a = ground (arith, contains_last xs a)

append_unique-keeps :
    (xs : List Bytes) (a b : Bytes) → contains xs b ≡ true → contains (append_unique xs a) b ≡ true
unfolding append_unique
append_unique-keeps xs a b h = ground (arith, contains-snoc xs a b)

append_unique-adds : (xs : List Bytes) (a : Bytes) → contains (append_unique xs a) a ≡ true
unfolding append_unique
append_unique-adds xs a = ground (arith, contains_last xs a)

add_fallbacks-keeps :
    (raws xs : List Bytes) (b : Bytes)
    → contains xs b ≡ true
    → contains (add_fallbacks xs raws) b ≡ true
unfolding add_fallbacks
add_fallbacks-keeps [] xs b h = h
add_fallbacks-keeps (raw ∷ raws) xs b h =
    add_fallbacks-keeps raws _ b (ground (arith, append_unique-keeps xs (trim_space raw) b))

add_directories-keeps :
    (parts : List Bytes) (base : Bytes) (xs : List Bytes) (b : Bytes)
    → contains xs b ≡ true
    → contains (add_directories xs base parts) b ≡ true
unfolding add_directories
add_directories-keeps [] base xs b h = h
add_directories-keeps (part ∷ parts) base xs b h =
    add_directories-keeps parts (join_path base part) _ b
      (append_unique-keeps _ _ b (append_unique-keeps xs _ b h))

-- The name is unknown, or among the paths.
abbrev pub IsCovered : List Bytes → Bytes → Type 0
IsCovered paths name = (name ≡ codes "?") ⊎ (contains paths name ≡ true)

All_unless {κ} :
    (P : Bytes → Type κ) (b : Bool) (name : Bytes) (rest : List Bytes)
    → (b ≡ false → P name)
    → All P rest
    → All P (if b then rest else name ∷ rest)
All_unless P true name rest h k = k
All_unless P false name rest h k = (h refl, k)

added_fallback :
    (xs raws : List Bytes) (name : Bytes)
    → is_empty name ≡ false
    → IsCovered
        (add_fallbacks
          (if is_empty name || name == codes "?" then xs else append_unique xs name)
          raws)
        name
added_fallback xs raws name filled = elim (Bool-cases (name == codes "?")) [
  | inl same ↦ inl ((bytes_beq_iff name (codes "?")).0 same)
  | inr other ↦ inr (add_fallbacks-keeps raws _ name (ground (arith, append_unique-adds xs name)))
]

add_fallbacks-IsCovered :
    (raws xs : List Bytes) → All (IsCovered (add_fallbacks xs raws)) (listed raws)
unfolding add_fallbacks listed
add_fallbacks-IsCovered [] xs = tt
add_fallbacks-IsCovered (raw ∷ raws) xs =
    All_unless _ (is_empty (trim_space raw)) (trim_space raw) (listed raws)
      (added_fallback xs raws (trim_space raw)) (add_fallbacks-IsCovered raws _)

All_if {κ} :
    (P : Bytes → Type κ) (b : Bool) (xs : List Bytes) → All P xs → All P (if b then [] else xs)
All_if P true xs h = tt
All_if P false xs h = h

directories-IsCovered :
    (parts : List Bytes) (xs : List Bytes) (name : Bytes)
    → IsCovered xs name
    → IsCovered (add_directories xs [] parts) name
directories-IsCovered parts xs name (inl same) = inl same
directories-IsCovered parts xs name (inr among) = inr (add_directories-keeps parts [] xs name among)

-- The names of the first loop are among the candidate paths, except the name `?`.
candidate_paths-IsCovered :
    (options : List (Bytes × Bytes))
    → All
        (IsCovered (candidate_paths (codes "codex") options))
        (codex_names (option options (codes "fallbackFilenames")))
unfolding candidate_paths codex_names bytes_beq
candidate_paths-IsCovered options =
    let fallback = option options (codes "fallbackFilenames") in
    let parts = working_parts (option options (codes "workingDirectory")) in
    let raws = split b',' fallback in
    let start : List Bytes = codes "AGENTS.override.md" ∷ codes "AGENTS.md" ∷ [] in
    let all_names =
      All-imp (listed raws) (directories-IsCovered parts (add_fallbacks start raws))
        (add_fallbacks-IsCovered raws start) in
    (
      inr (add_directories-keeps parts [] _ _ (add_fallbacks-keeps raws start _ refl)),
      (
        inr (add_directories-keeps parts [] _ _ (add_fallbacks-keeps raws start _ refl)),
        All_if _ (fallback == codes "?" || is_empty fallback) (listed raws) all_names,
      ),
    )

-- The two lists have the same fact for every name that is covered.
abbrev pub Agree : List Bytes → List (Bytes × FileFact) → List (Bytes × FileFact) → Type 0
Agree paths files files' =
    (name : Bytes) → IsCovered paths name → entry files' name ≡ entry files name

module _ (s : Snapshot) (files' : List (Bytes × FileFact)) where
  abbrev other : Snapshot
  other = record s { files = files' }

  fact_same :
      (name : Bytes) → entry files' name ≡ entry s.files name → fact_of other name ≡ fact_of s name
  unfolding entry
  fact_same name e = rw e refl

  walk_same :
      (names : List Bytes) (w : Walk)
      → All (λ name. entry files' name ≡ entry s.files name) names
      → codex_walk other names w ≡ codex_walk s names w
  unfolding codex_walk
  walk_same [] w h = refl
  walk_same (name ∷ names) w h =
      walk_same names (codex_name (fact_of other name) name w) h.1
      ∙ ap (λ fact. codex_walk s names (codex_name fact name w)) (fact_same name h.0)

  directories_same :
      (parts : List Bytes) (base : Bytes) (xs : List Bytes) (w : Walk)
      → ((name : Bytes)
          → contains (add_directories xs base parts) name ≡ true
          → entry files' name ≡ entry s.files name)
      → codex_directories other base parts w ≡ codex_directories s base parts w
  unfolding codex_directories add_directories
  directories_same [] base xs w h = refl
  directories_same (part ∷ parts) base xs w h =
      let dir = join_path base part in
      let override = join_path dir (codes "AGENTS.override.md") in
      let agents = join_path dir (codes "AGENTS.md") in
      let added = append_unique xs override in
      let first = h override (
        add_directories-keeps parts dir (append_unique added agents) override
          (append_unique-keeps added agents override (append_unique-adds xs override))) in
      let second = h agents (
        add_directories-keeps parts dir (append_unique added agents) agents
          (append_unique-adds added agents)) in
      rw (first, second) (directories_same parts dir (append_unique added agents) _ h)

  -- What Codex is found to read depends on no file but those at its candidate paths: for two lists of
  -- facts that agree on the candidate paths of the options, the nested ones included, and on the name
  -- `?`, the answer is the same.
  pub codex_resolve_local :
      Agree (candidate_paths (codes "codex") s.options) s.files files'
      → codex_resolve other ≡ codex_resolve s
  unfolding codex_resolve candidate_paths bytes_beq
  codex_resolve_local h =
      let fallback = option s.options (codes "fallbackFilenames") in
      let parts = working_parts (option s.options (codes "workingDirectory")) in
      let names =
        walk_same (codex_names fallback) no_walk
          (All-imp (codex_names fallback) h (candidate_paths-IsCovered s.options)) in
      let nested =
        directories_same parts [] _ (codex_walk s (codex_names fallback) no_walk)
          (λ name among. h name (inr among)) in
      rw (names, nested) refl
