-- ===== src/Prelude/Exec.antt =====
-- Methods that change an object and may fail. What was changed before a failure stays changed, so the
-- state comes back beside the error too.
use fs.Prelude.{◌≡◌, refl, Bool, true, false, if◌then◌else◌, Out, ok, err, panic, Error, Holds}

abbrev pub Exec {ℓ κ} : Type ℓ → Type κ → Type (ℓ ⊔ κ)
Exec S A = S → Out A × S

module _ {ℓ κ λ'} {S : Type ℓ} {A : Type κ} {B : Type λ'} where
  abbrev pub continue : Out A → (A → Exec S B) → Exec S B
  continue (ok a) f s = f a s
  continue (err e) f s = (err e, s)
  continue panic f s = (panic, s)

  infixl 5 ◌>>=◌
  abbrev pub ◌>>=◌ : Exec S A → (A → Exec S B) → Exec S B
  ◌>>=◌ m f s = continue (m s).0 f (m s).1

  -- One step of a method: what the first part returns and leaves, then the rest.
  pub step :
      (m : Exec S A) (f : A → Exec S B) {s s' : S} {a : A} {r : Out B × S}
      → m s ≡ (ok a, s')
      → f a s' ≡ r
      → (m >>= f) s ≡ r
  step m f e h = rw e h

module _ {ℓ κ} {S : Type ℓ} {B : Type κ} where
  infixl 5 ◌>>◌
  abbrev pub ◌>>◌ : Exec S (Unit {0}) → Exec S B → Exec S B
  m >> k = m >>= λ _. k

module _ {ℓ κ} {S : Type ℓ} {A : Type κ} where
  abbrev pub pure : A → Exec S A
  pure a s = (ok a, s)

  -- A call that only reads.
  abbrev pub reads : (S → Out A) → Exec S A
  reads f s = (f s, s)

  abbrev pub lift : Out A → Exec S A
  lift r s = (r, s)

module _ {ℓ} {S : Type ℓ} where
  abbrev pub modify : (S → S) → Exec S (Unit {0})
  modify f s = (ok tt, f s)

module _ {ℓ κ λ'} {S : Type ℓ} {A : Type κ} {B : Type λ'} where
  abbrev pub settle : Out A → (A → Exec S B) → (Error → Exec S B) → Exec S B
  settle (ok a) f g s = f a s
  settle (err e) f g s = g e s
  settle panic f g s = (panic, s)

  -- `match m { Ok(a) => f(a), Err(e) => g(e) }`; what a failed `m` changed stays changed.
  abbrev pub attempt : Exec S A → (A → Exec S B) → (Error → Exec S B) → Exec S B
  attempt m f g s = settle (m s).0 f g (m s).1

-- What a method returns, from any state, if it succeeds.
abbrev pub Returns {ℓ κ λ'} : {S : Type ℓ} {A : Type κ} → (A → Type λ') → Exec S A → Type (ℓ ⊔ λ')
Returns {S} P m = (s : S) → Holds P (m s).0

module _ {ℓ κ λ' μ} {S : Type ℓ} {A : Type κ} {B : Type λ'} where
  Holds-continue :
      (P : B → Type μ) (r : Out A) (f : A → Exec S B) (s : S)
      → ((a : A) → Returns P (f a))
      → Holds P (continue r f s).0
  Holds-continue P (ok a) f s each = each a s
  Holds-continue P (err e) f s each = tt
  Holds-continue P panic f s each = tt

  pub Returns-bind :
      (P : B → Type μ) (m : Exec S A) (f : A → Exec S B)
      → ((a : A) → Returns P (f a))
      → Returns P (m >>= f)
  Returns-bind P m f each s = Holds-continue P (m s).0 f (m s).1 each

  Holds-continue_eq :
      (P : B → Type μ) (r : Out A) (f : A → Exec S B) (s : S)
      → ((a : A) → r ≡ ok a → Holds P (f a s).0)
      → Holds P (continue r f s).0
  Holds-continue_eq P (ok a) f s each = each a refl
  Holds-continue_eq P (err e) f s each = tt
  Holds-continue_eq P panic f s each = tt

  pub Returns-step :
      (P : B → Type μ) (m : Exec S A) (f : A → Exec S B)
      → ((s : S) (a : A) → (m s).0 ≡ ok a → Holds P (f a (m s).1).0)
      → Returns P (m >>= f)
  Returns-step P m f each s = Holds-continue_eq P (m s).0 f (m s).1 (each s)

pub Returns-if {ℓ κ λ'} :
    {S : Type ℓ} {A : Type κ} (P : A → Type λ') (b : Bool) (x y : Exec S A)
    → Returns P x
    → Returns P y
    → Returns P (if b then x else y)
Returns-if P true x y hx hy = hx
Returns-if P false x y hx hy = hy
