-- ===== src/Workspace/Apply/Quiet.antt =====
-- Operations that keep a predicate of the disk; a predicate that does not look at the internal paths
-- is kept by what writes to them only.
use uawp.Workspace.Op.{
  lstat, ApplyError, Op, pure, fail, check, ◌>>=◌, refuse_when, create, replace, remove,
}
use uawp.Base.{◌≡◌, Bool, true, Result, Bytes, ok, err, subst, sym, false}
use uawp.Workspace.Disk.{Node, Disk, set, unset}
use uawp.Workspace.Op.Triple.{
  Triple, Triple-pure, Triple-fail, Triple-check, Triple-bind, Triple-create, Triple-replace,
  Triple-remove, Triple-refuse_when, Triple-weaken, Post, Keeps,
}
use uawp.Workspace.Apply.Frame.{is_internal, IsStable, Same-set, Same-unset}

abbrev pub Quiet : {A : Type 0} → (Disk → Type 0) → Op A → Type 0
Quiet I m = Triple I (λ _ d. I d) I m

module _ {I : Disk → Type 0} where
  pub Quiet-refuse_when : (b : Bool) (e : ApplyError) → Quiet I (refuse_when b e)
  Quiet-refuse_when b e = Triple-refuse_when b e (λ d h _. h) (λ d h. h)

  pub Keeps-guard : (b : Bool) (e : ApplyError) → Keeps I (λ _. b ≡ false) (refuse_when b e)
  Keeps-guard b e = Triple-refuse_when b e (λ d h u. (h, u)) (λ d h. h)

  pub Quiet-lstat : (p : Bytes) → Quiet I (lstat p)
  unfolding lstat
  Quiet-lstat p = record { at = λ d h. h }

module _ {A : Type 0} {I : Disk → Type 0} where
  pub Quiet-pure : (a : A) → Quiet I (pure a)
  Quiet-pure a = Triple-pure a (λ d h. h)

  pub Quiet-fail : (e : ApplyError) → Quiet I (fail {A = A} e)
  Quiet-fail e = Triple-fail e (λ d h. h)

  pub Quiet-check : (f : Disk → Result ApplyError A) → Quiet I (check f)
  Quiet-check f = Triple-check f (λ d a h e. h) (λ d h. h)

module _ {A B : Type 0} {I E : Disk → Type 0} {Q : B → Disk → Type 0} where
  -- The first operation keeps the predicate, and where it fails the error's predicate follows.
  pub Quiet-bind :
      (m : Op A) (f : A → Op B)
      → ((d : Disk) → I d → E d)
      → Quiet I m
      → ((a : A) → Triple I Q E (f a))
      → Triple I Q E (m >>= f)
  Quiet-bind m f ke km kf = Triple-bind m f (Triple-weaken m km (λ d h. h) (λ a d h. h) ke) kf

module _ {A B : Type 0} {I : Disk → Type 0} {Q : B → Disk → Type 0} {m : Op A} {f : A → Op B} where
  -- The same, where the error's predicate is the one kept.
  pub Quiet-step : Quiet I m → ((a : A) → Triple I Q I (f a)) → Triple I Q I (m >>= f)
  Quiet-step km kf = Triple-bind m f km kf

module _ {A : Type 0} {I : Disk → Type 0} where
  -- An operation that leaves the disk as it is.
  pub Quiet-reads : (m : Op A) → ((d : Disk) → (m d).1 ≡ d) → Quiet I m
  Quiet-reads m same = record { at = λ d h. either (m d).0 (m d).1 (subst I (sym (same d)) h) }
    where
      either : (r : Result ApplyError A) (d : Disk) → I d → Post (λ _ d. I d) I r d
      either (ok a) d h = h
      either (err e) d h = h

module _ (receipt : Bytes) {I : Disk → Type 0} (stable : IsStable receipt I) where
  pub Quiet-create : (p : Bytes) (n : Node) → is_internal receipt p ≡ true → Quiet I (create p n)
  Quiet-create p n u =
      Triple-create p n (λ d h _. stable d (set d p n) (Same-set receipt d p n u) h) (λ d h. h)

  pub Quiet-replace : (p : Bytes) (n : Node) → is_internal receipt p ≡ true → Quiet I (replace p n)
  Quiet-replace p n u =
      Triple-replace p n (λ d h. stable d (set d p n) (Same-set receipt d p n u) h) (λ d h. h)

  pub Quiet-remove : (p : Bytes) → is_internal receipt p ≡ true → Quiet I (remove p)
  Quiet-remove p u =
      Triple-remove p (λ d h. stable d (unset d p) (Same-unset receipt d p u) h) (λ d h. h)

module _ {A B : Type 0} {I : Disk → Type 0} {R : A → Type 0} {Q : B → Disk → Type 0} {m : Op A}
    {f : A → Op B} where
  -- The same, with what is known of the first result.
  pub Keeps-step : Keeps I R m → ((a : A) → R a → Triple I Q I (f a)) → Triple I Q I (m >>= f)
  Keeps-step km kf = Triple-bind m f km (λ a. record { at = λ d h. (kf a h.1).at d h.0 })
