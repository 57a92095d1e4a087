-- ===== src/Adapter/Entry/Codex.antt =====
-- internal/adapter/codex.go
use uawp.Base.{
  ℕ, ◌+◌, ◌*◌, Bool, true, false, not, ◌&&◌, ◌||◌, Option, none, some, List, [], ◌∷◌, ◌++◌, ◌==◌,
  bytes_eq, nat_eq, if◌then◌else◌, Bytes, codes, is_empty, trim_space, length, ltb, reverse,
}
use uawp.Base.FilePath.{split, clean}
use uawp.Core.Manifest.{managed_block}
use uawp.Adapter.Entry.{
  EntryState, effective, co_loaded, shadowed, unavailable, missing, Snapshot, Resolution, verified,
  conditional, FileFact, file_missing, entry, option, canonical, route_to, Candidate, is_filled,
  is_regular_fact, is_missing_fact,
}

-- path.Join of two elements.
unfoldable pub join_path : Bytes → Bytes → Bytes
unfolding clean
join_path a b =
    if is_empty a
    then (if is_empty b then [] else clean b)
    else if is_empty b
    then clean a
    else clean (a ++ (b'/' ∷ b))

unfoldable pub trim_left : ℕ → Bytes → Bytes
trim_left c [] = []
trim_left c (x ∷ xs) = if x == c then trim_left c xs else x ∷ xs

-- strings.Trim for one byte.
unfoldable pub trim_byte : ℕ → Bytes → Bytes
unfolding trim_left
trim_byte c s = reverse (trim_left c (reverse (trim_left c s)))

-- The names of a list with commas, without the blank ones.
unfoldable pub listed : List Bytes → List Bytes
unfolding trim_space
listed [] = []
listed (name ∷ names) =
    let rest = listed names in if is_empty (trim_space name) then rest else trim_space name ∷ rest

abbrev override_entry : Bytes
override_entry = codes "AGENTS.override.md"

abbrev pub agents_entry : Bytes
agents_entry = codes "AGENTS.md"

-- The names in the order in which they are looked up.
unfoldable pub codex_names : Bytes → List Bytes
unfolding listed split
codex_names fallback =
    override_entry
    ∷ agents_entry
    ∷ (if fallback == codes "?" || is_empty fallback then [] else listed (split b',' fallback))

-- The variables of the loops.
pub record Walk : Type 0 where
  pub effective_name : Bytes
  pub total : ℕ
  pub candidates : List Candidate

abbrev missing_fact : Bytes → FileFact
missing_fact name = record {
  path = name;
  state = file_missing;
  sha256 = [];
  content = [];
  mode = 0;
}

abbrev pub fact_of : Snapshot → Bytes → FileFact
fact_of s name = elim (entry s.files name) [ none ↦ missing_fact name | some fact ↦ fact ]

abbrev pub seen : Bytes → EntryState → List Candidate
seen name state = record { path = name; state = state } ∷ []

-- The body of the loop over the names.
unfoldable pub codex_name : FileFact → Bytes → Walk → Walk
codex_name fact name w =
    if is_filled fact
    then (if is_empty w.effective_name
        then record {
          effective_name = name;
          total = w.total + length fact.content;
          candidates = w.candidates ++ seen name effective;
        }
        else record w {
          total = w.total + length fact.content;
          candidates = w.candidates ++ seen name shadowed;
        })
    else record w {
      candidates =
          w.candidates
          ++ seen name (
              if not (is_missing_fact fact.state) && not (is_regular_fact fact.state)
              then unavailable
              else missing);
    }

unfoldable pub codex_walk : Snapshot → List Bytes → Walk → Walk
unfolding codex_name entry
codex_walk s [] w = w
codex_walk s (name ∷ names) w = codex_walk s names (codex_name (fact_of s name) name w)

-- The body of the loop over the two names in a directory; the flag tells whether one was chosen.
unfoldable pub codex_nested : Option FileFact → Bytes → Bool → Walk → Bool × Walk
codex_nested none name chosen w = (chosen, w)
codex_nested (some fact) name chosen w =
    if is_filled fact
    then (if chosen then (true, record w { candidates = w.candidates ++ seen name shadowed }) else (
      true,
      record w {
        total = w.total + length fact.content;
        candidates = w.candidates ++ seen name co_loaded;
      },
    ))
    else (
      chosen,
      record w {
        candidates =
            w.candidates
            ++ seen name (
                if not (is_missing_fact fact.state) && not (is_regular_fact fact.state)
                then unavailable
                else missing);
      },
    )

-- The loop over the directories on the way to the working directory.
unfoldable pub codex_directories : Snapshot → Bytes → List Bytes → Walk → Walk
unfolding codex_nested join_path entry
codex_directories s base [] w = w
codex_directories s base (part ∷ parts) w =
    let dir = join_path base part in
    let override = join_path dir override_entry in
    let agents = join_path dir agents_entry in
    let (chosen, first) = codex_nested (entry s.files override) override false w in
    let (_, second) = codex_nested (entry s.files agents) agents chosen first in
    codex_directories s dir parts second

-- The directories of the working directory, none for the root.
unfoldable pub working_parts : Bytes → List Bytes
unfolding trim_byte split
working_parts directory =
    let working = trim_byte b'/' directory in
    if is_empty working || working == codes "." then [] else split b'/' working

abbrev max_total : ℕ
max_total = 32 * 1024

abbrev pub no_walk : Walk
no_walk = record { effective_name = []; total = 0; candidates = [] }

unfoldable pub codex_resolve : Snapshot → Resolution
unfolding option codex_names codex_walk codex_directories working_parts canonical
codex_resolve s =
    let fallback = option s.options (codes "fallbackFilenames") in
    let names = codex_walk s (codex_names fallback) no_walk in
    let walk =
      codex_directories s [] (working_parts (option s.options (codes "workingDirectory"))) names in
    let unknown = fallback == codes "?" in
    let limit = ltb max_total walk.total in
    canonical record {
      provider = codes "codex";
      candidates = walk.candidates;
      route =
          if is_empty names.effective_name
          then route_to agents_entry managed_block true
          else route_to names.effective_name managed_block false;
      confidence = if unknown then conditional else verified;
      findings =
          (if unknown
            then record { code = codes "CODEX_CONFIG_UNKNOWN"; severity = codes "warning" } ∷ []
            else [])
          ++ (if limit
              then record { code = codes "CODEX_INSTRUCTION_LIMIT"; severity = codes "warning" }
                ∷ []
              else []);
      health = if limit then codes "DEGRADED" else codes "HEALTHY";
    }
