-- ===== src/Identity/Session.antt =====
-- internal/identity/session.go: the bindings of Sessions to workspaces and profiles.
pub mod Laws
pub mod Validity
use uawp.Base.{
  Bool, ◌&&◌, ◌||◌, Option, none, some, List, [], ◌∷◌, ◌==◌, ◌/=◌, bytes_eq, if◌then◌else◌, Result,
  ◌>>=◌, ok, Bytes, codes,
}
use uawp.Identity.Profile.{IdentityError, random_id}
use uawp.Identity.Store.{SessionBinding, Registry}

unfoldable pub new_session_id : Bytes → Result IdentityError (Bytes × Bytes)
new_session_id random = random_id (codes "session-") random

abbrev pub is_for : SessionBinding → Bytes → Bytes → Bool
is_for b workspace profile_id = b.workspace == workspace && b.profile_id == profile_id

-- The loop of `UpsertBinding` and the append after it.
unfoldable pub put : SessionBinding → List SessionBinding → List SessionBinding
put value [] = value ∷ []
put value (b ∷ bindings) =
    if is_for b value.workspace value.profile_id then value ∷ bindings else b ∷ put value bindings

unfoldable pub upsert_binding : Registry → SessionBinding → Registry
unfolding put
upsert_binding r value = record r { bindings = put value r.bindings }

-- The loop of `RemoveBinding`.
unfoldable pub without : Bytes → Bytes → List SessionBinding → List SessionBinding
without workspace profile_id [] = []
without workspace profile_id (b ∷ bindings) =
    let rest = without workspace profile_id bindings in
    if b.workspace /= workspace || b.profile_id /= profile_id then b ∷ rest else rest

unfoldable pub remove_binding : Registry → Bytes → Bytes → Registry
unfolding without
remove_binding r workspace profile_id = record r {
  bindings = without workspace profile_id r.bindings;
}

-- The loop of `Binding`.
unfoldable pub find_binding : List SessionBinding → Bytes → Bytes → Option SessionBinding
find_binding [] workspace profile_id = none
find_binding (b ∷ bindings) workspace profile_id =
    if is_for b workspace profile_id then some b else find_binding bindings workspace profile_id

unfoldable pub binding : Registry → Bytes → Bytes → Option SessionBinding
unfolding find_binding
binding r workspace profile_id = find_binding r.bindings workspace profile_id
