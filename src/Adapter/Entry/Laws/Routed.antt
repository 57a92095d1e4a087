-- ===== src/Adapter/Entry/Laws/Routed.antt =====
-- Codex after the loop over the names, and the adapters together.
use uawp.Base.{
  none, some, true, false, [], ◌∷◌, inl, inr, bytes_eq, nat_eq, ◌==◌, ◌≡◌, ◌≢◌, if◌then◌else◌, All,
  arith, Bool-cases, ◌||◌, trim_space, subst, All-imp, refl,
}
use uawp.Adapter.Entry.Codex.{
  working_parts, agents_entry, listed, codex_resolve, codex_names, codex_nested, codex_directories,
  Walk, join_path, codex_walk, no_walk,
}
use uawp.Adapter.Entry.Planner.{lookup_adapter, Adapter, codex, claude_code, work_buddy}
use uawp.Adapter.Entry.{
  Snapshot, Bytes, canonical, List, Option, Candidate, option, is_empty, codes, FileFact,
  is_present, Bool, route_to, is_filled, entry,
}
use uawp.Adapter.Entry.Laws.{IsRouted, IsRouted-sort, work_buddy-IsRouted}
use uawp.Adapter.Entry.Laws.CodexWalk.{
  ReadsAs, codex_walk-IsSound, appended, bare_unread, codex_walk-none,
}
use uawp.Base.FilePath.{split}
use uawp.Core.Manifest.{managed_block}
use uawp.Adapter.Entry.Laws.ClaudeCases.{claude-IsRouted}

listed-filled : (names : List Bytes) → All (λ n. n ≢ []) (listed names)
unfolding listed
listed-filled [] = tt
listed-filled (name ∷ names) = elim (Bool-cases (is_empty (trim_space name))) [
  | inl blank ↦ rw (listed, blank) (listed-filled names)
  | inr filled ↦ rw (listed, filled) ((λ e. ground arith), listed-filled names)
]

codex_names-filled : (fallback : Bytes) → All (λ n. n ≢ []) (codex_names fallback)
unfolding codex_names
codex_names-filled fallback = (
  (λ e. ground arith),
  (
    (λ e. ground arith),
    (elim (Bool-cases (fallback == codes "?" || is_empty fallback)) [
      | inl none_listed ↦ rw none_listed tt
      | inr some_listed ↦ rw some_listed (listed-filled (split b',' fallback))
    ]),
  ),
)

module _ (name : Bytes) where
  codex_nested-ReadsAs :
      (fact : Option FileFact) (path : Bytes) (chosen : Bool) (w : Walk)
      → All (ReadsAs name) w.candidates
      → All (ReadsAs name) (codex_nested fact path chosen w).1.candidates
  unfolding codex_nested
  codex_nested-ReadsAs none path chosen w h = h
  codex_nested-ReadsAs (some fact) path chosen w h = elim (Bool-cases (is_filled fact)) [
    | inl filled ↦ elim (Bool-cases chosen) [
      | inl before ↦ rw (filled, before) (appended name w.candidates _ h refl)
      | inr first ↦ rw (filled, first) (appended name w.candidates _ h refl)
    ]
    | inr bare ↦ rw bare (appended name w.candidates _ h (bare_unread _))
  ]

  codex_directories-ReadsAs :
      (s : Snapshot) (base : Bytes) (parts : List Bytes) (w : Walk)
      → All (ReadsAs name) w.candidates
      → All (ReadsAs name) (codex_directories s base parts w).candidates
  unfolding codex_directories
  codex_directories-ReadsAs s base [] w h = h
  codex_directories-ReadsAs s base (part ∷ parts) w h =
      let dir = join_path base part in
      let first =
        codex_nested-ReadsAs (entry s.files (join_path dir (codes "AGENTS.override.md")))
          (join_path dir (codes "AGENTS.override.md")) false w h in
      codex_directories-ReadsAs s dir parts _ (
        codex_nested-ReadsAs (entry s.files (join_path dir agents_entry))
          (join_path dir agents_entry) _ _ first)

codex_route-IsRouted :
    (s : Snapshot) (candidates : List Candidate) (name : Bytes)
    → All (ReadsAs name) candidates
    → (name ≢ [] → is_present s name ≡ true)
    → (name ≡ [] → is_present s agents_entry ≡ false)
    → IsRouted s candidates (
        if is_empty name
        then route_to agents_entry managed_block true
        else route_to name managed_block false)
codex_route-IsRouted s candidates [] h found created = record {
  read = All-imp candidates (λ c k e. absurd ((k e).1 refl)) h;
  created = λ _. created refl;
  found = ground arith;
}
codex_route-IsRouted s candidates (x ∷ name) h found created = record {
  read = All-imp candidates (λ c k e. ((k e).0, refl)) h;
  created = ground arith;
  found = λ _. found;
}

codex-IsRouted : (s : Snapshot) → IsRouted s (codex_resolve s).candidates (codex_resolve s).route
unfolding codex_resolve canonical codex_names
codex-IsRouted s =
    let fallback = option s.options (codes "fallbackFilenames") in
    let names = codex_walk s (codex_names fallback) no_walk in
    let sound =
      codex_walk-IsSound s (codex_names fallback) no_walk (codex_names-filled fallback)
        (record { read = tt; found = ground arith }) in
    IsRouted-sort s _ _ (
      codex_route-IsRouted s _ names.effective_name
        (codex_directories-ReadsAs names.effective_name s []
          (working_parts (option s.options (codes "workingDirectory"))) names sound.read)
        sound.found
        (λ e.
          (codex_walk-none s (codex_names fallback) no_walk (codex_names-filled fallback) e).1.1.0))

-- Every adapter that Lookup knows answers with a route that agrees with the facts it is given. An
-- entry with the state EFFECTIVE or FALLBACK_EFFECTIVE is the one at the route, which is then not to
-- be created (CO_LOADED entries are not counted). Where the route is to be created, the facts have at
-- its path no file that is REGULAR with content: it is missing, empty, unsafe, binary, not UTF-8 or too
-- large. Where it is not to be created and there is a route, they have such a file there.
pub resolve-IsRouted :
    (id : Bytes) (adapter : Adapter) (s : Snapshot)
    → lookup_adapter id ≡ some adapter
    → IsRouted s (adapter.resolve s).candidates (adapter.resolve s).route
unfolding lookup_adapter
resolve-IsRouted id adapter s h = elim (Bool-cases (id == codes "codex")) [
  | inl is_codex ↦
      subst (λ (a : Adapter). IsRouted s (a.resolve s).candidates (a.resolve s).route) {x = codex}
        {y = adapter} (ground arith) (codex-IsRouted s)
  | inr no_codex ↦ elim (Bool-cases (id == codes "claude-code")) [
    | inl is_claude ↦
        subst (λ (a : Adapter). IsRouted s (a.resolve s).candidates (a.resolve s).route)
          {x = claude_code} {y = adapter} (ground arith) (claude-IsRouted s)
    | inr no_claude ↦
        subst (λ (a : Adapter). IsRouted s (a.resolve s).candidates (a.resolve s).route)
          {x = work_buddy} {y = adapter} (ground arith) (work_buddy-IsRouted s)
  ]
]
