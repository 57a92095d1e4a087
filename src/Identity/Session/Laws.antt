-- ===== src/Identity/Session/Laws.antt =====
-- The bindings are a map from pairs of a workspace and a profile to Sessions.
use uawp.Base.{
  ◌≡◌, refl, arith, ◌&&◌, none, some, List, [], ◌∷◌, ◌==◌, bytes_eq, bytes_beq_iff, if◌then◌else◌,
  Bytes,
}
use uawp.Identity.Store.{SessionBinding, Registry}
use uawp.Identity.Session.{
  is_for, put, upsert_binding, without, remove_binding, find_binding, binding,
}

find_binding-put :
    (value : SessionBinding) (bindings : List SessionBinding) (workspace profile_id : Bytes)
    → find_binding (put value bindings) workspace profile_id ≡ (
        if is_for value workspace profile_id
        then some value
        else find_binding bindings workspace profile_id)
unfolding find_binding put
find_binding-put value [] workspace profile_id = refl
find_binding-put value (b ∷ bindings) workspace profile_id = ground (
  arith,
  find_binding-put value bindings workspace profile_id,
  bytes_beq_iff b.workspace value.workspace,
  bytes_beq_iff b.profile_id value.profile_id,
  bytes_beq_iff b.workspace workspace,
  bytes_beq_iff b.profile_id profile_id,
  bytes_beq_iff value.workspace workspace,
  bytes_beq_iff value.profile_id profile_id,
)

-- After UpsertBinding the given binding is found under its own workspace and profile, and every
-- other pair finds what it found before.
binding-upsert_binding :
    (r : Registry) (value : SessionBinding) (workspace profile_id : Bytes)
    → binding (upsert_binding r value) workspace profile_id
      ≡ (if is_for value workspace profile_id then some value else binding r workspace profile_id)
unfolding binding upsert_binding
binding-upsert_binding r value = find_binding-put value r.bindings

find_binding-without :
    (bindings : List SessionBinding) (w p workspace profile_id : Bytes)
    → find_binding (without w p bindings) workspace profile_id ≡ (
        if w == workspace && p == profile_id
        then none
        else find_binding bindings workspace profile_id)
unfolding find_binding without
find_binding-without [] w p workspace profile_id = ground arith
find_binding-without (b ∷ bindings) w p workspace profile_id = ground (
  arith,
  find_binding-without bindings w p workspace profile_id,
  bytes_beq_iff b.workspace w,
  bytes_beq_iff b.profile_id p,
  bytes_beq_iff b.workspace workspace,
  bytes_beq_iff b.profile_id profile_id,
  bytes_beq_iff w workspace,
  bytes_beq_iff p profile_id,
)

-- After RemoveBinding its pair of a workspace and a profile finds nothing, and every other pair
-- finds what it found before.
binding-remove_binding :
    (r : Registry) (w p workspace profile_id : Bytes)
    → binding (remove_binding r w p) workspace profile_id
      ≡ (if w == workspace && p == profile_id then none else binding r workspace profile_id)
unfolding binding remove_binding
binding-remove_binding r = find_binding-without r.bindings
