-- ===== src/Identity/Session/Validity.antt =====
-- Changing the bindings keeps a registry valid.
use uawp.Base.{
  ◌/=◌, subst, ◌≡◌, ◌≢◌, arith, true, false, ◌||◌, List, [], ◌∷◌, ◌++◌, bytes_eq, nat_eq,
  bytes_beq_iff, Bytes, ok, All, AreDistinct, contains, Bool-cases, inl, inr,
}
use uawp.Identity.Store.{SessionBinding, Registry, binding_key, validate_registry}
use uawp.Identity.Store.Laws.{IsBindingOf, validate_registry_iff}
use uawp.Identity.Session.{is_for, put, upsert_binding, without, remove_binding}

-- The workspace has no zero byte, as a path of the operating system never has.
abbrev pub HasPath : SessionBinding → Type 0
HasPath b = contains b.workspace 0 ≡ false

-- Around a separator that neither left part contains, the parts can be told.
separated_inj :
    (a b c d : Bytes)
    → contains a 0 ≡ false
    → contains b 0 ≡ false
    → a ++ (0 ∷ c) ≡ b ++ (0 ∷ d)
    → (a ≡ b) × (c ≡ d)
separated_inj [] [] c d h k e = ground arith
separated_inj [] (y ∷ b) c d h k e = ground arith
separated_inj (x ∷ a) [] c d h k e = ground arith
separated_inj (x ∷ a) (y ∷ b) c d h k e = ground (arith, separated_inj a b c d)

All-put {κ} :
    (P : SessionBinding → Type κ) (value : SessionBinding) (bindings : List SessionBinding)
    → P value
    → All P bindings
    → All P (put value bindings)
unfolding put
All-put P value [] h hs = (h, tt)
All-put P value (b ∷ bindings) h hs =
    elim (Bool-cases (is_for b value.workspace value.profile_id)) [
      | inl e ↦ rw e (h, hs.1)
      | inr e ↦ rw e (hs.0, All-put P value bindings h hs.1)
    ]

All-without {κ} :
    (P : SessionBinding → Type κ) (w p : Bytes) (bindings : List SessionBinding)
    → All P bindings
    → All P (without w p bindings)
unfolding without
All-without P w p [] hs = tt
All-without P w p (b ∷ bindings) hs = elim (Bool-cases (b.workspace /= w || b.profile_id /= p)) [
  | inl e ↦ rw e (hs.0, All-without P w p bindings hs.1)
  | inr e ↦ rw e (All-without P w p bindings hs.1)
]

is_for-binding_key :
    (value b : SessionBinding)
    → is_for b value.workspace value.profile_id ≡ true
    → binding_key b ≡ binding_key value
is_for-binding_key value b e =
    ground (
      arith,
      bytes_beq_iff b.workspace value.workspace,
      bytes_beq_iff b.profile_id value.profile_id,
    )

is_for-distinct :
    (value b : SessionBinding)
    → is_for b value.workspace value.profile_id ≡ false
    → HasPath b
    → HasPath value
    → binding_key b ≢ binding_key value
is_for-distinct value b e hb h same = ground (
  arith,
  separated_inj b.workspace value.workspace b.profile_id value.profile_id hb h same,
  bytes_beq_iff b.workspace value.workspace,
  bytes_beq_iff b.profile_id value.profile_id,
)

AreDistinct-put :
    (value : SessionBinding) (bindings : List SessionBinding)
    → HasPath value
    → All HasPath bindings
    → AreDistinct binding_key bindings
    → AreDistinct binding_key (put value bindings)
unfolding put
AreDistinct-put value [] h hs distinct = (tt, tt)
AreDistinct-put value (b ∷ bindings) h hs distinct =
    elim (Bool-cases (is_for b value.workspace value.profile_id)) [
      | inl e ↦ rw e (
        subst (λ k. All (λ c. k ≢ binding_key c) bindings) (is_for-binding_key value b e)
            distinct.0,
        distinct.1,
      )
      | inr e ↦ rw e (
        All-put (λ c. binding_key b ≢ binding_key c) value bindings
            (is_for-distinct value b e hs.0 h) distinct.0,
        AreDistinct-put value bindings h hs.1 distinct.1,
      )
    ]

AreDistinct-without :
    (w p : Bytes) (bindings : List SessionBinding)
    → AreDistinct binding_key bindings
    → AreDistinct binding_key (without w p bindings)
unfolding without
AreDistinct-without w p [] distinct = tt
AreDistinct-without w p (b ∷ bindings) distinct =
    elim (Bool-cases (b.workspace /= w || b.profile_id /= p)) [
      | inl e ↦ rw e (
        All-without (λ c. binding_key b ≢ binding_key c) w p bindings distinct.0,
        AreDistinct-without w p bindings distinct.1,
      )
      | inr e ↦ rw e (AreDistinct-without w p bindings distinct.1)
    ]

-- UpsertBinding keeps a valid registry valid, where the binding is well formed for the registry's
-- profiles and neither its workspace nor a bound one contains a zero byte.
pub validate_registry-upsert_binding :
    (r : Registry) (value : SessionBinding)
    → validate_registry r ≡ ok tt
    → IsBindingOf r.profiles value
    → HasPath value
    → All HasPath r.bindings
    → validate_registry (upsert_binding r value) ≡ ok tt
unfolding upsert_binding
validate_registry-upsert_binding r value valid fits h hs =
    let (schema, ps, ids, workers, default, bs, distinct) = (validate_registry_iff r).0 valid in
    (validate_registry_iff (upsert_binding r value)).1 (
      schema,
      ps,
      ids,
      workers,
      default,
      All-put (IsBindingOf r.profiles) value r.bindings fits bs,
      AreDistinct-put value r.bindings h hs distinct,
    )

-- RemoveBinding keeps a valid registry valid.
validate_registry-remove_binding :
    (r : Registry) (w p : Bytes)
    → validate_registry r ≡ ok tt
    → validate_registry (remove_binding r w p) ≡ ok tt
unfolding remove_binding
validate_registry-remove_binding r w p valid =
    let (schema, ps, ids, workers, default, bs, distinct) = (validate_registry_iff r).0 valid in
    (validate_registry_iff (remove_binding r w p)).1 (
      schema,
      ps,
      ids,
      workers,
      default,
      All-without (IsBindingOf r.profiles) w p r.bindings bs,
      AreDistinct-without w p r.bindings distinct,
    )
