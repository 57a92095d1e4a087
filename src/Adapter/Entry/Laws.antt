-- ===== src/Adapter/Entry/Laws.antt =====
-- The route of an adapter, and the entries that its tool reads.
pub mod ClaudeCases
pub mod CodexWalk
pub mod Routed
pub mod Facts
use uawp.Base.{
  none, some, true, false, [], ◌∷◌, inl, inr, bytes_eq, nat_eq, ◌≡◌, All, ◌≢◌, arith, refl,
}
use uawp.Adapter.Entry.{
  effective, fallback_effective, missing, by_candidate, Snapshot, Route, EntryState, canonical,
  List, Candidate, Bool, sort, is_present,
}
use uawp.Adapter.Entry.WorkBuddy
use uawp.Adapter.Entry.WorkBuddy.{work_buddy_resolve, work_buddy_entries}
use uawp.Base.Sort.{All-sort}

-- The tool reads the entry, and no other in its place.
abbrev pub is_read : EntryState → Bool
is_read effective = true
is_read fallback_effective = true
is_read _ = false

-- An entry that is read is the one at the route, and is not created.
abbrev pub IsAt : Route → Candidate → Type 0
IsAt route c = is_read c.state ≡ true → (c.path ≡ route.path) × (route.create ≡ false)

-- What is read is at the route; a file is created only where the facts have none that is REGULAR with
-- content, so that an empty, unsafe, binary, undecodable or oversized file counts as none.
pub record IsRouted (s : Snapshot) (candidates : List Candidate) (route : Route) : Type 0 where
  pub read : All (IsAt route) candidates
  pub created : route.create ≡ true → is_present s route.path ≡ false
  pub found : route.create ≡ false → route.path ≢ [] → is_present s route.path ≡ true

pub IsRouted-sort :
    (s : Snapshot) (candidates : List Candidate) (route : Route)
    → IsRouted s candidates route
    → IsRouted s (sort by_candidate candidates) route
IsRouted-sort s candidates route h = record {
  read = All-sort by_candidate (IsAt route) candidates h.read;
  created = h.created;
  found = h.found;
}

work_buddy_entries-IsRouted :
    (s : Snapshot) (own agents : Bool)
    → is_present s WorkBuddy.own_entry ≡ own
    → is_present s WorkBuddy.agents_entry ≡ agents
    → let (a, b, route) = work_buddy_entries own agents in
      IsRouted s
        (record { path = WorkBuddy.own_entry; state = a }
          ∷ record { path = WorkBuddy.agents_entry; state = b }
          ∷ [])
        route
unfolding work_buddy_entries
work_buddy_entries-IsRouted s true true o a = record {
  read = ground arith;
  created = ground arith;
  found = λ _ _. o;
}
work_buddy_entries-IsRouted s true false o a = record {
  read = ground arith;
  created = ground arith;
  found = λ _ _. o;
}
work_buddy_entries-IsRouted s false true o a = record {
  read = ground arith;
  created = ground arith;
  found = λ _ _. a;
}
work_buddy_entries-IsRouted s false false o a = record {
  read = ground arith;
  created = λ _. o;
  found = ground arith;
}

pub work_buddy-IsRouted :
    (s : Snapshot) → IsRouted s (work_buddy_resolve s).candidates (work_buddy_resolve s).route
unfolding work_buddy_resolve canonical
work_buddy-IsRouted s = IsRouted-sort s _ _ (
    work_buddy_entries-IsRouted s (is_present s WorkBuddy.own_entry)
      (is_present s WorkBuddy.agents_entry) refl refl)
