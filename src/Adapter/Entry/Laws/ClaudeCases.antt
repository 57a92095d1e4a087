-- ===== src/Adapter/Entry/Laws/ClaudeCases.antt =====
-- Claude Code: the files that may be there, case by case.
use uawp.Base.{
  ◌==◌, ◌≡◌, inl, inr, Bool, Bytes, arith, All, true, false, bytes_eq, bytes_beq, refl, Bool-cases,
}
use uawp.Adapter.Entry.Claude.{
  own_entry, nested_entry, local_entry, agents_entry, managed_only, Present, claude_route,
  claude_states, claude_agents, present_files, claude_resolve, setting_of, claude_direct_support,
}
use uawp.Adapter.Entry.{Snapshot, Resolution, set_state, is_present, canonical, codes}
use uawp.Adapter.Entry.Laws.{IsAt, IsRouted, IsRouted-sort}

module _ (s : Snapshot) (setting : Bytes) where
  abbrev resolved : Bool × Bool → Present → Resolution
  resolved support here = claude_route setting here support (claude_states setting here)

  read_cases :
      (support : Bool × Bool) (own nested local agents : Bool)
      → let r =
          resolved support
            (record { own = own; nested = nested; local = local; agents = agents }) in
        All (IsAt r.route) r.candidates
  unfolding claude_route claude_states claude_agents set_state bytes_beq
  read_cases (direct, known) true nested local agents = ground arith
  read_cases (direct, known) false true local agents = ground arith
  read_cases (direct, known) false false true agents = ground arith
  read_cases (direct, known) false false false true = ground arith
  read_cases (direct, known) false false false false = ground arith

  created_cases :
      (support : Bool × Bool) (own nested local agents : Bool)
      → is_present s own_entry ≡ own
      → let r =
          resolved support
            (record { own = own; nested = nested; local = local; agents = agents }) in
        r.route.create ≡ true → is_present s r.route.path ≡ false
  unfolding claude_route claude_agents
  created_cases (direct, known) true nested local agents o h = ground arith
  created_cases (direct, known) false true local agents o h = ground arith
  created_cases (direct, known) false false true agents o h = o
  created_cases (direct, known) false false false true o h = ground arith
  created_cases (direct, known) false false false false o h = o

  found_cases :
      (support : Bool × Bool) (own nested local agents : Bool)
      → is_present s own_entry ≡ own
      → is_present s nested_entry ≡ nested
      → is_present s agents_entry ≡ agents
      → let r =
          resolved support
            (record { own = own; nested = nested; local = local; agents = agents }) in
        r.route.create ≡ false → is_present s r.route.path ≡ true
  unfolding claude_route claude_agents
  found_cases (direct, known) true nested local agents o n a h = o
  found_cases (direct, known) false true local agents o n a h = n
  found_cases (direct, known) false false true agents o n a h = ground arith
  found_cases (direct, known) false false false true o n a h = ground arith
  found_cases (direct, known) false false false false o n a h = ground arith

  routed :
      (support : Bool × Bool)
      → let r = resolved support (present_files s) in IsRouted s r.candidates r.route
  unfolding present_files
  routed support =
      let own = is_present s own_entry in
      let nested = is_present s nested_entry in
      let local = is_present s local_entry in
      let agents = is_present s agents_entry in
      record {
        read = read_cases support own nested local agents;
        created = created_cases support own nested local agents refl;
        found = λ h _. found_cases support own nested local agents refl refl refl h;
      }

managed-IsRouted : (s : Snapshot) → IsRouted s managed_only.candidates managed_only.route
managed-IsRouted s = record {
  read = ground arith;
  created = ground arith;
  found = λ h ne. absurd (ne refl);
}

pub claude-IsRouted :
    (s : Snapshot) → IsRouted s (claude_resolve s).candidates (claude_resolve s).route
unfolding claude_resolve canonical
claude-IsRouted s = elim (Bool-cases (setting_of s == codes "managed-only")) [
  | inl managed ↦ rw managed (IsRouted-sort s _ _ (managed-IsRouted s))
  | inr other ↦ rw other (IsRouted-sort s _ _ (routed s (setting_of s) (claude_direct_support s)))
]
