-- ===== src/Workspace/Boundary/Tests.antt =====
-- Runs of the path checks on a small workspace.
use uawp.Base.{
  ◌≡◌, refl, ok, err, codes, ◌∷◌, [], none, Bytes, Result, bytes_beq, has_prefix, has_suffix,
  contains_any, trim_prefix,
}
use uawp.Base.FilePath.{split, join, cut, clean, clean_segments}
use uawp.Base.Utf8.{runes}
use uawp.Workspace.Disk.{Disk, directory, symlink, file, lookup}
use uawp.Workspace.Op.{ApplyError, invalid_path, unsafe_ancestor}
use uawp.Workspace.Boundary.{
  device_name, is_device, is_portable_segment, all_portable, is_allowed_path, ways, inspect,
  reject_symlink_ancestors, resolve_uawp, last_of, is_root_markdown, is_nested_codex,
  resolve_native, target_for_change,
}

abbrev disk : Disk
disk =
    (codes ".uawp", directory)
    ∷ (codes ".uawp/checkpoints", directory)
    ∷ (codes "docs", symlink none)
    ∷ (codes "AGENTS.md", file (codes "read this") 420)
    ∷ []

-- Unfolding this opens all that the checks call.
target : Bytes → Result ApplyError Bytes
unfolding target_for_change resolve_uawp resolve_native reject_symlink_ancestors inspect ways
    is_nested_codex is_root_markdown last_of is_allowed_path all_portable is_portable_segment
    is_device device_name split join cut clean clean_segments runes lookup bytes_beq has_prefix
    has_suffix contains_any trim_prefix
target = target_for_change disk

checkpoint :
    target_for_change disk (codes ".uawp/checkpoints/one.md")
    ≡ ok (codes ".uawp/checkpoints/one.md")
unfolding target
checkpoint = refl

entry : target (codes "lib/AGENTS.md") ≡ ok (codes "lib/AGENTS.md")
unfolding target
entry = refl

upwards : target (codes ".uawp/../AGENTS.md") ≡ err invalid_path
unfolding target
upwards = refl

reserved : target (codes ".uawp/checkpoints/con.md") ≡ err invalid_path
unfolding target
reserved = refl

other_file : target (codes "lib/main.go") ≡ err invalid_path
unfolding target
other_file = refl

over_link : target (codes "docs/AGENTS.md") ≡ err unsafe_ancestor
unfolding target
over_link = refl

over_file : target (codes "AGENTS.md/AGENTS.md") ≡ err unsafe_ancestor
unfolding target
over_file = refl
