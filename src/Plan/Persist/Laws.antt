-- ===== src/Plan/Persist/Laws.antt =====
-- A plan survives storage, and what is restored is the plan that its name stands for.
use uawp.Base.{
  ◌≡◌, refl, ◌≢◌, arith, List, [], ◌∷◌, map, Bytes, ok, bytes_beq_iff, bytes_eq, All, Bool-cases,
  inl, inr, bytes_ltb_asymm, Result-cases,
}
use uawp.Base.Int.{int_ltb_asymm}
use uawp.Base.Sort.{sort, any, sort_of_IsSorted, sort-IsSorted, any-sort, All-sort}
use uawp.Plan.Change.{Change, PersistedChange, persist_change, restore_change}
use uawp.Plan.Change.Laws.{IsConsistent, restore_change_iff}
use uawp.Plan.Persist.{
  Input, Metadata, Plan, PersistedPlan, is_explicit, by_sequence, by_path, by_input_path,
  order_changes, persisted, new_plan, restore_changes, restore,
}

order_changes_idem : (cs : List Change) → order_changes (order_changes cs) ≡ order_changes cs
unfolding order_changes
order_changes_idem cs = elim (Bool-cases (any is_explicit cs)) [
  | inl e ↦
      simp (e, any-sort)
        (sort_of_IsSorted by_sequence _
          (sort-IsSorted by_sequence (λ c d. int_ltb_asymm c.sequence d.sequence) cs))
  | inr e ↦
      simp (e, any-sort)
        (sort_of_IsSorted by_path _
          (sort-IsSorted by_path (λ c d. bytes_ltb_asymm c.path d.path) cs))
]

sort_inputs_idem :
    (is : List Input) → sort by_input_path (sort by_input_path is) ≡ sort by_input_path is
sort_inputs_idem is =
    sort_of_IsSorted by_input_path _
      (sort-IsSorted by_input_path (λ i j. bytes_ltb_asymm i.path j.path) is)

All-order_changes {κ} :
    (P : Change → Type κ) (cs : List Change) → All P cs → All P (order_changes cs)
unfolding order_changes
All-order_changes P cs h = elim (Bool-cases (any is_explicit cs)) [
  | inl e ↦ rw e (All-sort by_sequence P cs h)
  | inr e ↦ rw e (All-sort by_path P cs h)
]

module _ (hash_bytes : Bytes → Bytes)
    (marshal : Bytes → Bytes → List Change → List Input → Metadata → Bytes) where
  -- A change that `RestoreChange` accepts in its stored form.
  abbrev pub IsStorable : Change → Type 0
  IsStorable c = (c.path ≢ []) × IsConsistent hash_bytes c.kind c

  restore_changes-persist :
      (cs : List Change)
      → All IsStorable cs
      → restore_changes hash_bytes (map persist_change cs) ≡ ok cs
  unfolding restore_changes
  restore_changes-persist [] h = refl
  restore_changes-persist (c ∷ cs) h = ground (
    arith,
    (restore_change_iff hash_bytes (persist_change c) c).1 (h.0.0, h.0.1, refl),
    restore_changes-persist cs h.1,
  )

  -- Ordering what is ordered builds the same plan.
  new_plan_again :
      (operation workspace : Bytes) (changes : List Change) (inputs : List Input)
      (metadata : Metadata)
      → new_plan hash_bytes marshal operation workspace
          (order_changes changes)
          (sort by_input_path inputs)
          metadata
        ≡ new_plan hash_bytes marshal operation workspace changes inputs metadata
  unfolding new_plan
  new_plan_again operation workspace changes inputs metadata =
      rw (order_changes_idem changes, sort_inputs_idem inputs)

  -- Any plan over storable changes, with an operation, is restored from its stored form as it was,
  -- provided that a hash is never the empty text.
  pub restore-persisted :
      (operation workspace : Bytes) (changes : List Change) (inputs : List Input)
      (metadata : Metadata)
      → operation ≢ []
      → All IsStorable changes
      → ((content : Bytes) → hash_bytes content ≢ [])
      → let p = new_plan hash_bytes marshal operation workspace changes inputs metadata in
        restore hash_bytes marshal (persisted p) ≡ ok p
  unfolding restore persisted new_plan
  restore-persisted operation workspace changes inputs metadata named storable hashes =
      let id = hash_bytes (
        marshal operation workspace (order_changes changes) (sort by_input_path inputs) metadata) in
      ground (
        arith,
        restore_changes-persist (order_changes changes)
            (All-order_changes IsStorable changes storable),
        order_changes_idem changes,
        sort_inputs_idem inputs,
        hashes (
            marshal operation workspace (order_changes changes) (sort by_input_path inputs)
              metadata),
        bytes_beq_iff id id,
      )

  restore_changes_sound :
      (vs : List PersistedChange) (cs : List Change)
      → restore_changes hash_bytes vs ≡ ok cs
      → All IsStorable cs × (vs ≡ map persist_change cs)
  unfolding restore_changes
  restore_changes_sound [] cs h = ground arith
  restore_changes_sound (v ∷ vs) cs h = elim (Result-cases (restore_change hash_bytes v)) [
    | inr (x, bad) ↦ ground arith
    | inl (c, good) ↦ elim (Result-cases (restore_changes hash_bytes vs)) [
      | inr (x, bad) ↦ ground arith
      | inl (ds, rest) ↦
          let same : cs ≡ c ∷ ds = ground arith in
          let (storable, stored) = restore_changes_sound vs ds rest in
          let (path, consistent, from) = (restore_change_iff hash_bytes v c).0 good in
          rw same (((path, consistent), storable), cc)
    ]
  ]

  -- What `Restore` returns is the plan over the stored changes, every one of them consistent,
  -- under the stored name, which is the hash of the plan's canonical form.
  pub restore_sound :
      (q : PersistedPlan) (p : Plan)
      → restore hash_bytes marshal q ≡ ok p
      → (cs : List Change) × (q.changes ≡ map persist_change cs)
        × All IsStorable cs
        × (p ≡ new_plan hash_bytes marshal q.operation q.workspace cs q.inputs q.metadata)
        × (q.id ≡ hash_bytes (marshal p.operation p.workspace p.changes p.inputs p.metadata))
  unfolding restore new_plan
  restore_sound q p h = elim (Result-cases (restore_changes hash_bytes q.changes)) [
    | inr (x, bad) ↦ absurd (ground arith)
    | inl (cs, good) ↦
        let (storable, stored) = restore_changes_sound q.changes cs good in
        let r = new_plan hash_bytes marshal q.operation q.workspace cs q.inputs q.metadata in
        (cs, stored, storable, ground arith, ground (arith, bytes_beq_iff r.id q.id))
  ]
