-- ===== src/Adapter/Entry/Tests.antt =====
-- Runs of the adapters, and the theorems at them.
use uawp.Base.{
  ◌==◌, bytes_eq, bytes_beq, space_width, last_space_width, trim_by, trim_space, equal_fold,
  has_prefix, contains_any, bytes_ltb, has_suffix, trim_prefix, trim_suffix, nat_eq, ◌∷◌, [], ◌≡◌,
  refl, some, Bytes, codes, Bool-cases, inr, inl, bytes_beq_iff, subst, sym, arith,
}
use uawp.Base.FilePath.{split, join, count_byte, clean_segments, clean, cut}
use uawp.Base.Sort.{insert, sort}
use uawp.Base.Pattern.{all, is_hash, is_name, is_identifier, is_slug_from, is_slug}
use uawp.Base.Number.{digits_value, parse_uint, atoi_digits, atoi, digits, decimal, decimal_four}
use uawp.Adapter.Entry.{
  entry, option, is_present, canonical, set_state, file_regular, FileFact, Snapshot, Resolution,
  effective, shadowed, missing, List, false,
}
use uawp.Adapter.Entry.Codex.{
  join_path, trim_left, trim_byte, listed, codex_names, codex_name, codex_walk, codex_nested,
  codex_directories, working_parts, codex_resolve,
}
use uawp.Adapter.Entry.Claude.{
  is_direct_version, version_support, claude_direct_support, present_files, claude_states,
  claude_agents, claude_route, claude_resolve,
}
use uawp.Adapter.Entry.WorkBuddy.{work_buddy_entries, work_buddy_resolve}
use uawp.Adapter.Entry.Planner.{
  lookup_adapter, append_unique, add_fallbacks, add_directories, candidate_paths, artifact_id,
  codex,
}
use uawp.Adapter.Entry.Laws.{IsRouted}
use uawp.Adapter.Entry.Laws.Facts.{codex_resolve_local, Agree, IsCovered}
use uawp.Adapter.Entry.Laws.Routed.{resolve-IsRouted}

unfoldable pub resolved : Bytes → Snapshot → Resolution
unfolding bytes_beq space_width last_space_width trim_by trim_space equal_fold has_prefix
    contains_any bytes_ltb has_suffix trim_prefix trim_suffix split join count_byte clean_segments
    clean cut insert sort all is_hash is_name is_identifier is_slug_from is_slug digits_value
    parse_uint atoi_digits atoi digits decimal decimal_four entry option is_present canonical
    set_state join_path trim_left trim_byte listed codex_names codex_name codex_walk codex_nested
    codex_directories working_parts codex_resolve is_direct_version version_support
    claude_direct_support present_files claude_states claude_agents claude_route claude_resolve
    work_buddy_entries work_buddy_resolve lookup_adapter append_unique add_fallbacks add_directories
    candidate_paths artifact_id
resolved id s = codex.resolve s

abbrev fact : Bytes → Bytes × FileFact
fact path = (
  path,
  record {
    path = path;
    state = file_regular;
    sha256 = codes "hash";
    content = codes "text";
    mode = 0o644;
  },
)

-- Both files of the root are there; the fallback names the second again.
abbrev both : Snapshot
both = record {
  root = codes "/w";
  files = fact (codes "AGENTS.md") ∷ fact (codes "TEAM.md") ∷ [];
  provider_version = [];
  options = (codes "fallbackFilenames", codes "TEAM.md, AGENTS.md") ∷ [];
}

codex_known : lookup_adapter (codes "codex") ≡ some codex
unfolding resolved
codex_known = refl

-- The repeated name is a candidate twice, once as the effective entry and once as a shadowed one.
codex_twice :
    (codex.resolve both).candidates
    ≡ record { path = codes "AGENTS.md"; state = effective }
      ∷ record { path = codes "AGENTS.md"; state = shadowed }
      ∷ record { path = codes "AGENTS.override.md"; state = missing }
      ∷ record { path = codes "TEAM.md"; state = shadowed }
      ∷ []
unfolding resolved
codex_twice = refl

resolve-IsRouted_example : IsRouted both (codex.resolve both).candidates (codex.resolve both).route
resolve-IsRouted_example = resolve-IsRouted (codes "codex") codex both codex_known

-- A file that Codex does not look at.
abbrev more_files : List (Bytes × FileFact)
more_files = fact (codes "README.md") ∷ both.files

not_looked_at :
    (name : Bytes)
    → IsCovered (candidate_paths (codes "codex") both.options) name
    → codes "README.md" == name ≡ false
unfolding resolved
not_looked_at name covered = elim (Bool-cases (codes "README.md" == name)) [
  | inr e ↦ e
  | inl e ↦
      let same = (bytes_beq_iff (codes "README.md") name).0 e in
      let never : IsCovered (candidate_paths (codes "codex") both.options) (codes "README.md") =
        subst (IsCovered (candidate_paths (codes "codex") both.options)) (sym same) covered in
      elim never [ inl bad ↦ absurd (ground arith) | inr bad ↦ absurd (ground arith) ]
]

more_files-Agree : Agree (candidate_paths (codes "codex") both.options) both.files more_files
unfolding resolved
more_files-Agree name covered = rw (not_looked_at name covered) refl

codex_resolve_local_example :
    codex_resolve (record both { files = more_files }) ≡ codex_resolve both
codex_resolve_local_example = codex_resolve_local both more_files more_files-Agree
