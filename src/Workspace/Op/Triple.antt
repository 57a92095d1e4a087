-- ===== src/Workspace/Op/Triple.antt =====
-- What holds of the disk after an operation, in terms of what held before it: one predicate for the
-- disk it returns with, one for the disk it fails with. A rule for each way to build an operation.
use uawp.Base.{
  ◌≡◌, refl, arith, Bool, true, false, none, if◌then◌else◌, Result, ok, err, Bytes, Option-cases,
  inl, inr, ◌⊎◌, Bool-cases,
}
use uawp.Workspace.Disk.{Node, Disk, lookup, set, unset, has_parent, has_children, is_directory}
use uawp.Workspace.Op.{
  ApplyError, Op, pure, fail, check, after, on_error, continue, ◌>>=◌, ◌>>◌, modify, refuse_when,
  create, replace, remove, not_found, not_empty, exists_already, no_parent,
}

module _ {A : Type 0} (Q : A → Disk → Type 0) (E : Disk → Type 0) where
  abbrev pub Post : Result ApplyError A → Disk → Type 0
  Post (ok a) d = Q a d
  Post (err e) d = E d

pub record Triple {A : Type 0} (P : Disk → Type 0) (Q : A → Disk → Type 0) (E : Disk → Type 0)
    (m : Op A) : Type 0 where
  pub at : (d : Disk) → P d → Post Q E (m d).0 (m d).1

-- The invariant holds before and after, and so does the property of the result.
abbrev pub Keeps : {A : Type 0} → (Disk → Type 0) → (A → Type 0) → Op A → Type 0
Keeps I R m = Triple I (λ a d. I d × R a) I m

abbrev pub Anything : {A : Type 0} → A → Type 0
Anything a = Unit

module _ {A : Type 0} (Q Q' : A → Disk → Type 0) (E E' : Disk → Type 0) where
  Post-weaken :
      (r : Result ApplyError A) (d d' : Disk)
      → ((a : A) → Q a d → Q' a d')
      → (E d → E' d')
      → Post Q E r d
      → Post Q' E' r d'
  Post-weaken (ok a) d d' kq ke h = kq a h
  Post-weaken (err e) d d' kq ke h = ke h

module _ {A : Type 0} {P : Disk → Type 0} {Q : A → Disk → Type 0} {E : Disk → Type 0} where
  pub Triple-pure : (a : A) → ((d : Disk) → P d → Q a d) → Triple P Q E (pure a)
  unfolding pure
  Triple-pure a k = record { at = k }

  pub Triple-fail : (e : ApplyError) → ((d : Disk) → P d → E d) → Triple P Q E (fail e)
  unfolding fail
  Triple-fail e k = record { at = k }

  pub Triple-check :
      (f : Disk → Result ApplyError A)
      → ((d : Disk) (a : A) → P d → f d ≡ ok a → Q a d)
      → ((d : Disk) → P d → E d)
      → Triple P Q E (check f)
  unfolding check
  Triple-check f k ke = record { at = λ d h. post_of (f d) d (λ a e. k d a h e) (ke d h) }
    where
      post_of :
          (r : Result ApplyError A) (d : Disk) → ((a : A) → r ≡ ok a → Q a d) → E d → Post Q E r d
      post_of (ok a) d k ke = k a refl
      post_of (err e) d k ke = ke

  pub Triple-if :
      (b : Bool) (m n : Op A) → Triple P Q E m → Triple P Q E n → Triple P Q E (if b then m else n)
  Triple-if true m n km kn = km
  Triple-if false m n km kn = kn

  pub Triple-after :
      {Q' : A → Disk → Type 0} {E' : Disk → Type 0} (m : Op A) (f : Disk → Disk)
      → Triple P Q' E' m
      → ((a : A) (d : Disk) → Q' a d → Q a (f d))
      → ((d : Disk) → E' d → E (f d))
      → Triple P Q E (after m f)
  unfolding after
  Triple-after m f km kq ke = record {
    at = λ d h.
        Post-weaken _ _ _ _ (m d).0 (m d).1 (f (m d).1) (λ a. kq a (m d).1) (ke (m d).1)
          (km.at d h);
  }

  pub Triple-on_error :
      {E' : Disk → Type 0} (m : Op A) (f : Disk → Disk)
      → Triple P Q E' m
      → ((d : Disk) → E' d → E (f d))
      → Triple P Q E (on_error m f)
  unfolding on_error
  Triple-on_error {E'} m f km ke = record { at = λ d h. undone (m d).0 (m d).1 (km.at d h) }
    where
      undone :
          (r : Result ApplyError A) (d : Disk)
          → Post Q E' r d
          → Post Q E r (elim r [ ok a ↦ d | err e ↦ f d ])
      undone (ok a) d h = h
      undone (err e) d h = ke d h

  pub Triple-weaken :
      {P' : Disk → Type 0} {Q' : A → Disk → Type 0} {E' : Disk → Type 0} (m : Op A)
      → Triple P' Q' E' m
      → ((d : Disk) → P d → P' d)
      → ((a : A) (d : Disk) → Q' a d → Q a d)
      → ((d : Disk) → E' d → E d)
      → Triple P Q E m
  Triple-weaken m km kp kq ke = record {
    at = λ d h.
        Post-weaken _ _ _ _ (m d).0 (m d).1 (m d).1 (λ a. kq a (m d).1) (ke (m d).1)
          (km.at d (kp d h));
  }

module _ {A B : Type 0} {P : Disk → Type 0} {R : A → Disk → Type 0} {Q : B → Disk → Type 0}
    {E : Disk → Type 0} where
  pub Triple-bind :
      (m : Op A) (f : A → Op B)
      → Triple P R E m
      → ((a : A) → Triple (R a) Q E (f a))
      → Triple P Q E (m >>= f)
  unfolding ◌>>=◌
  Triple-bind m f km kf = record {
    at = λ d h. let (r, d') = m d in continue_at (m d).0 (m d).1 (km.at d h);
  }
    where
      continue_at :
          (r : Result ApplyError A) (d : Disk)
          → Post R E r d
          → Post Q E (continue r f d).0 (continue r f d).1
      continue_at (ok a) d h = (kf a).at d h
      continue_at (err e) d h = h

-- The two changes of the invariant rules: what is kept of the result is at hand afterwards.
module _ {A B : Type 0} {I : Disk → Type 0} {R : A → Type 0} {S : B → Type 0} where
  pub Keeps-bind :
      (m : Op A) (f : A → Op B)
      → Keeps I R m
      → ((a : A) → R a → Keeps I S (f a))
      → Keeps I S (m >>= f)
  Keeps-bind m f km kf = Triple-bind m f km (λ a. record { at = λ d h. (kf a h.1).at d h.0 })

module _ {B : Type 0} {I : Disk → Type 0} {S : B → Type 0} where
  pub Keeps-then :
      (m : Op (Unit {0})) (n : Op B) → Keeps I Anything m → Keeps I S n → Keeps I S (m >> n)
  Keeps-then m n km kn = Keeps-bind m (λ _. n) km (λ _ _. kn)

-- A call that fails leaves the disk as it is; one that returns has made its one change.
create-cases :
    (p : Bytes) (n : Node) (d : Disk)
    → ((create p n d ≡ (ok tt, set d p n)) × (lookup d p ≡ none))
      ⊎ ((e : ApplyError) × (create p n d ≡ (err e, d)))
unfolding create
create-cases p n d = elim (Bool-cases (has_parent d p)) [
  | inl t ↦ elim (Option-cases (lookup d p)) [
    | inl e ↦ inl (ground arith)
    | inr (m, e) ↦ inr (exists_already, ground arith)
  ]
  | inr t ↦ inr (no_parent, ground arith)
]

replace-cases :
    (p : Bytes) (n : Node) (d : Disk)
    → (replace p n d ≡ (ok tt, set d p n)) ⊎ ((e : ApplyError) × (replace p n d ≡ (err e, d)))
unfolding replace
replace-cases p n d = elim (Bool-cases (has_parent d p)) [
  | inl t ↦ elim (Bool-cases (is_directory (lookup d p))) [
    | inl u ↦ inr (exists_already, ground arith)
    | inr u ↦ inl (ground arith)
  ]
  | inr t ↦ inr (no_parent, ground arith)
]

remove-cases :
    (p : Bytes) (d : Disk)
    → (remove p d ≡ (ok tt, unset d p)) ⊎ ((e : ApplyError) × (remove p d ≡ (err e, d)))
unfolding remove
remove-cases p d = elim (Option-cases (lookup d p)) [
  | inl e ↦ inr (not_found, ground arith)
  | inr (m, e) ↦ elim (Bool-cases (has_children d p)) [
    | inl u ↦ inr (not_empty, ground arith)
    | inr u ↦ inl (ground arith)
  ]
]

module _ (Q : Unit {0} → Disk → Type 0) (E : Disk → Type 0) where
  by_cases :
      (m : Op (Unit {0})) (d d' : Disk)
      → (((m d ≡ (ok tt, d')) × Q tt d') ⊎ ((e : ApplyError) × (m d ≡ (err e, d))))
      → E d
      → Post Q E (m d).0 (m d).1
  by_cases m d d' (inl (e, h)) ke = rw e h
  by_cases m d d' (inr (x, e)) ke = rw e ke

module _ {P : Disk → Type 0} {Q : Unit {0} → Disk → Type 0} {E : Disk → Type 0} where
  pub Triple-create :
      (p : Bytes) (n : Node)
      → ((d : Disk) → P d → lookup d p ≡ none → Q tt (set d p n))
      → ((d : Disk) → P d → E d)
      → Triple P Q E (create p n)
  Triple-create p n k ke = record {
    at = λ d h. elim (create-cases p n d) [
      | inl (e, f) ↦ by_cases Q E (create p n) d (set d p n) (inl (e, k d h f)) (ke d h)
      | inr f ↦ by_cases Q E (create p n) d d (inr f) (ke d h)
    ];
  }

  pub Triple-replace :
      (p : Bytes) (n : Node)
      → ((d : Disk) → P d → Q tt (set d p n))
      → ((d : Disk) → P d → E d)
      → Triple P Q E (replace p n)
  Triple-replace p n k ke = record {
    at = λ d h. elim (replace-cases p n d) [
      | inl e ↦ by_cases Q E (replace p n) d (set d p n) (inl (e, k d h)) (ke d h)
      | inr f ↦ by_cases Q E (replace p n) d d (inr f) (ke d h)
    ];
  }

  pub Triple-remove :
      (p : Bytes)
      → ((d : Disk) → P d → Q tt (unset d p))
      → ((d : Disk) → P d → E d)
      → Triple P Q E (remove p)
  Triple-remove p k ke = record {
    at = λ d h. elim (remove-cases p d) [
      | inl e ↦ by_cases Q E (remove p) d (unset d p) (inl (e, k d h)) (ke d h)
      | inr f ↦ by_cases Q E (remove p) d d (inr f) (ke d h)
    ];
  }

  pub Triple-refuse_when :
      (b : Bool) (e : ApplyError)
      → ((d : Disk) → P d → b ≡ false → Q tt d)
      → ((d : Disk) → P d → E d)
      → Triple P Q E (refuse_when b e)
  unfolding refuse_when
  Triple-refuse_when true e k ke = record { at = ke }
  Triple-refuse_when false e k ke = record { at = λ d h. k d h refl }

  pub Triple-modify : (f : Disk → Disk) → ((d : Disk) → P d → Q tt (f d)) → Triple P Q E (modify f)
  unfolding modify
  Triple-modify f k = record { at = k }
