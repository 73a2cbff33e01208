-- ===== src/Core/Exec.antt =====
-- Code that changes a state `S` and returns, fails with an error or panics. What was written before
-- an error or a panic stays written.
use dr_metrix.Prelude.{◌≡◌, ◌≢◌, refl, Option, none, some, List, [], ◌∷◌}
use dr_metrix.Core.Error.{MetricsError, Result}
use dr_metrix.Core.Error

pub data Outcome (E A : Type 0) : Type 0 where
  ok : A → Outcome E A
  err : MetricsError E → Outcome E A
  panicked : Outcome E A

abbrev pub Exec : Type 0 → Type 0 → Type 0 → Type 0
Exec S E A = S → Outcome E A × S

module _ {S E A : Type 0} where
  abbrev pub pure : A → Exec S E A
  pure a s = (ok a, s)

  abbrev pub throw : MetricsError E → Exec S E A
  throw e s = (err e, s)

  abbrev pub panic : Exec S E A
  panic s = (panicked, s)

  abbrev pub gets : (S → A) → Exec S E A
  gets f s = (ok (f s), s)

  -- The `?` on a result.
  abbrev pub lift : Result E A → Exec S E A
  lift (Error.ok a) = pure a
  lift (Error.err e) = throw e

  -- `None` as a panic.
  abbrev pub or_panic : Option A → Exec S E A
  or_panic (some a) = pure a
  or_panic none = panic

module _ {S E : Type 0} where
  abbrev pub modify : (S → S) → Exec S E (Unit {0})
  modify f s = (ok tt, f s)

module _ {S E A B : Type 0} where
  infixl 5 ◌>>=◌ ◌>>◌
  abbrev pub continue : Outcome E A × S → (A → Exec S E B) → Outcome E B × S
  continue (ok a, s) f = f a s
  continue (err e, s) f = (err e, s)
  continue (panicked, s) f = (panicked, s)

  abbrev pub ◌>>=◌ : Exec S E A → (A → Exec S E B) → Exec S E B
  ◌>>=◌ m f s = continue (m s) f

  abbrev pub ◌>>◌ : Exec S E A → Exec S E B → Exec S E B
  m >> n = m >>= λ _. n

-- A result or an error is no panic.
pub ok_ne_panicked : {E A : Type 0} {o : Outcome E A} {a : A} → o ≡ ok a → o ≢ panicked
ok_ne_panicked e h = cc

pub err_ne_panicked :
    {E A : Type 0} {o : Outcome E A} {e : MetricsError E} → o ≡ err e → o ≢ panicked
err_ne_panicked e h = cc

-- A panic is passed on.
pub continue_panicked :
    {S E A B : Type 0} (done : Outcome E A × S) (f : A → Exec S E B)
    → done.0 ≡ panicked
    → (continue done f).0 ≡ panicked
continue_panicked (ok a, s) f h = cc
continue_panicked (err e, s) f h = cc
continue_panicked (panicked, s) f h = refl

module _ {S E A B : Type 0} (f : A → B) where
  continue-pure : (done : Outcome E A × S) → (continue done (λ a. pure (f a))).1 ≡ done.1
  continue-pure (ok a, s) = refl
  continue-pure (err e, s) = refl
  continue-pure (panicked, s) = refl

  -- What is done with the result alone leaves the state.
  pub state-pure : (m : Exec S E A) (s : S) → ((m >>= λ a. pure (f a)) s).1 ≡ (m s).1
  state-pure m s = continue-pure (m s)

-- `for x in xs { body(x) }`
module _ {S E A : Type 0} (body : A → Exec S E (Unit {0})) where
  unfoldable pub for_each : List A → Exec S E (Unit {0})
  for_each [] = pure tt
  for_each (x ∷ xs) = do body x; for_each xs

-- A body that always runs through is a change of the state.
pub for_each-fold :
    {S E A : Type 0} (body : A → Exec S E (Unit {0})) (change : A → S → S)
    → ((x : A) (s : S) → body x s ≡ (ok tt, change x s))
    → (fold : List A → S → S) → ((s : S) → fold [] s ≡ s)
    → ((x : A) (xs : List A) (s : S) → fold (x ∷ xs) s ≡ fold xs (change x s))
    → (xs : List A) (s : S) → for_each body xs s ≡ (ok tt, fold xs s)
unfolding for_each
for_each-fold body change runs fold nil cons [] s = rw nil
for_each-fold body change runs fold nil cons (x ∷ xs) s =
    rw (runs x s, cons x xs s) (for_each-fold body change runs fold nil cons xs (change x s))
