-- ===== src/Adapter/Entry/WorkBuddy.antt =====
-- internal/adapter/workbuddy.go
use uawp.Base.{
  Bool, true, false, not, ◌&&◌, [], ◌∷◌, ◌/=◌, bytes_eq, if◌then◌else◌, Bytes, codes, is_empty,
}
use uawp.Core.Manifest.{managed_block}
use uawp.Adapter.Entry.{
  EntryState, effective, shadowed, fallback_effective, missing, Snapshot, Resolution, Route,
  verified, is_present, option, canonical, route_to,
}

abbrev pub own_entry : Bytes
own_entry = codes "CODEBUDDY.md"

abbrev pub agents_entry : Bytes
agents_entry = codes "AGENTS.md"

-- The switch: the states of the two entries, and the route.
unfoldable pub work_buddy_entries : Bool → Bool → EntryState × EntryState × Route
work_buddy_entries true agents =
    (effective, (if agents then shadowed else missing), route_to own_entry managed_block false)
work_buddy_entries false true =
    (missing, fallback_effective, route_to agents_entry managed_block false)
work_buddy_entries false false = (missing, missing, route_to own_entry managed_block true)

unfoldable pub work_buddy_resolve : Snapshot → Resolution
unfolding is_present option canonical work_buddy_entries
work_buddy_resolve s =
    let (own, agents, route) =
      work_buddy_entries (is_present s own_entry) (is_present s agents_entry) in
    let registered = option s.options (codes "registeredPath") in
    let drifted = not (is_empty registered) && registered /= route.path in
    canonical record {
      provider = codes "workbuddy";
      candidates =
          record { path = own_entry; state = own }
          ∷ record { path = agents_entry; state = agents }
          ∷ [];
      route = route;
      confidence = verified;
      findings =
          if drifted
          then record { code = codes "ENTRY_DRIFT"; severity = codes "error" } ∷ []
          else [];
      health = if drifted then codes "ENTRY_DRIFT" else codes "HEALTHY";
    }
