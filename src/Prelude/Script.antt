-- ===== src/Prelude/Script.antt =====
-- Code that changes a state and may raise: a script returns, or raises, in the state that it leaves.
use mathlib.Core.Path.{◌≡◌, refl}
use mathlib.Core.Bool.{Bool, true, false}
use mathlib.Core.List.{List, [], ◌∷◌}
use mathlib.Core.Option.{Option, none, some}
use native.Mathlib.Omega.{arith}
use ccp.Prelude.Raise.{Exception, Result, raised, ok}

abbrev pub Script : Type 0 → Type 0 → Type 0
Script S A = S → Result A × S

-- An exception that no code catches ends the script in the state that it was raised in.
abbrev pub continue : {S A B : Type 0} → Result A × S → (A → Script S B) → Result B × S
continue (raised e, s) k = (raised e, s)
continue (ok a, s) k = k a s

-- `try: ... except Exception as e: handler(e)`
abbrev pub recover : {S A : Type 0} → Result A × S → (Exception → Script S A) → Result A × S
recover (raised e, s) handler = handler e s
recover (ok a, s) handler = (ok a, s)

module _ {S : Type 0} where
  infixl 10 ◌>>=◌
  abbrev pub ◌>>=◌ : {A B : Type 0} → Script S A → (A → Script S B) → Script S B
  m >>= k = λ s. continue (m s) k

  abbrev pub pure : {A : Type 0} → A → Script S A
  pure a = λ s. (ok a, s)

  abbrev pub throw : {A : Type 0} → Exception → Script S A
  throw e = λ s. (raised e, s)

  -- A call that touches no state.
  abbrev pub lift : {A : Type 0} → Result A → Script S A
  lift r = λ s. (r, s)

  abbrev pub try_catch : {A : Type 0} → Script S A → (Exception → Script S A) → Script S A
  try_catch m handler = λ s. recover (m s) handler

  abbrev pub get : Script S S
  get = λ s. (ok s, s)

  abbrev pub modify : (S → S) → Script S (Unit {0})
  modify f = λ s. (ok tt, f s)

  abbrev pub skip : Script S (Unit {0})
  skip = λ s. (ok tt, s)

  abbrev pub when : Bool → Script S (Unit {0}) → Script S (Unit {0})
  when true m = m
  when false m = skip

  -- for x in xs: body(x)
  abbrev pub for_each : {A : Type 0} → List A → (A → Script S (Unit {0})) → Script S (Unit {0})
  for_each [] body = skip
  for_each (x ∷ xs) body = body x >>= (λ _. for_each xs body)

  -- What an exception would be, as the script that raises it.
  abbrev pub check : Option Exception → Script S (Unit {0})
  check none = skip
  check (some e) = throw e

  -- A script moves the state along a relation, whether it returns or raises.
  unfoldable pub Respects : {A : Type 0} → (S → S → Type 0) → Script S A → Type 0
  Respects R m = (s : S) → R s (m s).1

-- Scripts that move along a relation make up scripts that do.
pub record IsTransitive (S : Type 0) (R : S → S → Type 0) : Type 0 where
  pub same : (s : S) → R s s
  pub chain : (s t u : S) → R s t → R t u → R s u

module _ {S : Type 0} (R : S → S → Type 0) (law : IsTransitive S R) where
  pub Respects-lift : {A : Type 0} → (r : Result A) → Respects {A = A} R (lift r)
  unfolding Respects
  Respects-lift r = law.same

  step :
      {A B : Type 0}
      → (s : S) (o : Result A × S) (k : A → Script S B) → R s o.1
      → ((a : A) → Respects {A = B} R (k a))
      → R s (continue o k).1
  unfolding Respects
  step s (raised e, t) k h f = h
  step s (ok a, t) k h f = law.chain s t (k a t).1 h (f a t)

  pub Respects->>= :
      {A B : Type 0}
      → (m : Script S A) (k : A → Script S B) → Respects {A = A} R m
      → ((a : A) → Respects {A = B} R (k a))
      → Respects {A = B} R (m >>= k)
  unfolding Respects
  Respects->>= m k h f = λ s. step s (m s) k (h s) f

  pub Respects-for_each :
      {A : Type 0}
      → (xs : List A) (body : A → Script S (Unit {0}))
      → ((a : A) → Respects {A = Unit {0}} R (body a))
      → Respects {A = Unit {0}} R (for_each xs body)
  unfolding Respects
  Respects-for_each [] body h = law.same
  Respects-for_each (x ∷ xs) body h =
      Respects->>= (body x) (λ _. for_each xs body) (h x) (λ _. Respects-for_each xs body h)

  recovered :
      {A : Type 0}
      → (s : S) (o : Result A × S) (handler : Exception → Script S A) → R s o.1
      → ((e : Exception) → Respects {A = A} R (handler e))
      → R s (recover o handler).1
  unfolding Respects
  recovered s (raised e, t) handler h f = law.chain s t (handler e t).1 h (f e t)
  recovered s (ok a, t) handler h f = h

  pub Respects-try_catch :
      {A : Type 0}
      → (m : Script S A) (handler : Exception → Script S A) → Respects {A = A} R m
      → ((e : Exception) → Respects {A = A} R (handler e))
      → Respects {A = A} R (try_catch m handler)
  unfolding Respects
  Respects-try_catch m handler h f = λ s. recovered s (m s) handler (h s) f

module _ {S A B : Type 0} where
  -- A chain of two scripts that returns: the first of them does, and the second goes on from there.
  pub continue-eq-ok :
      (o : Result A × S) (k : A → Script S B) {b : B} {t : S}
      → continue o k ≡ (ok b, t)
      → (a : A) × ((o.0 ≡ ok a) × (k a o.1 ≡ (ok b, t)))
  continue-eq-ok (raised e, s) k h = cc
  continue-eq-ok (ok a, s) k h = (a, (refl, h))

-- Whatever a script returns passes a test.
unfoldable pub Returns : {S B : Type 0} → (B → Bool) → Script S B → Type 0
Returns {S} {B} p m = (s : S) (b : B) → (m s).0 ≡ ok b → p b ≡ true

module _ (S : Type 0) {B : Type 0} (p : B → Bool) where
  same_result : (a b : B) → p a ≡ true → ◌≡◌ {A = Result B} (ok a) (ok b) → p b ≡ true
  same_result a b h r = ground (arith, r)

  pub Returns-pure : (b : B) → p b ≡ true → Returns {S = S} p (pure b)
  unfolding Returns
  Returns-pure b h = λ s c. same_result b c h

  pub Returns-throw : (e : Exception) → Returns {S = S} p (throw e)
  unfolding Returns
  Returns-throw e = λ s b r. absurd (ground (arith, r))

  returned :
      {A : Type 0}
      → (q : A → Bool) (o : Result A × S) (k : A → Script S B) (b : B)
      → ((a : A) → o.0 ≡ ok a → q a ≡ true)
      → ((a : A) → q a ≡ true → Returns p (k a))
      → (continue o k).0 ≡ ok b
      → p b ≡ true
  unfolding Returns
  returned q (raised e, s) k b f h r = absurd (ground (arith, r))
  returned q (ok a, s) k b f h r = h a (f a refl) s b r

  -- What a chain returns is what its last script returns, of what the first returned.
  pub Returns-chain :
      {A : Type 0}
      → (q : A → Bool) (m : Script S A) (k : A → Script S B) → Returns q m
      → ((a : A) → q a ≡ true → Returns p (k a))
      → Returns p (m >>= k)
  unfolding Returns
  Returns-chain q m k f h = λ s b. returned q (m s) k b (f s) h

  pub Returns->>= :
      {A : Type 0}
      → (m : Script S A) (k : A → Script S B) → ((a : A) → Returns p (k a))
      → Returns p (m >>= k)
  unfolding Returns
  Returns->>= m k h = Returns-chain (λ a. true) m k (λ s a r. refl) (λ a r. h a)

-- A script moves the state along a relation when it returns a given value.
unfoldable pub Within : {S B : Type 0} → (S → S → Type 0) → B → Script S B → Type 0
Within {S} R c m = (s : S) → (m s).0 ≡ ok c → R s (m s).1

module _ {S B : Type 0} (R : S → S → Type 0) (law : IsTransitive S R) (c : B) where
  pub Within-Respects : (m : Script S B) → Respects R m → Within R c m
  unfolding Within Respects
  Within-Respects m h = λ s r. h s

  -- What a script never returns asks nothing of it.
  pub Within-never : (p : B → Bool) (m : Script S B) → p c ≡ false → Returns p m → Within R c m
  unfolding Within Returns
  Within-never p m f h = λ s r. absurd (never (p c) (h s c r) f)
    where
      never : (b : Bool) → b ≡ true → b ≡ false → ⊥
      never b t f = ground arith

  reached :
      {A : Type 0}
      → (s : S) (o : Result A × S) (k : A → Script S B) → R s o.1
      → ((a : A) → Within R c (k a))
      → (continue o k).0 ≡ ok c
      → R s (continue o k).1
  unfolding Within
  reached s (raised e, t) k h f r = h
  reached s (ok a, t) k h f r = law.chain s t (k a t).1 h (f a t r)

  pub Within->>= :
      {A : Type 0}
      → (m : Script S A) (k : A → Script S B) → Respects R m
      → ((a : A) → Within R c (k a))
      → Within R c (m >>= k)
  unfolding Within Respects
  Within->>= m k h f = λ s. reached s (m s) k (h s) f
