-- ===== src/Exec/Triple.antt =====
-- Triples: what holds after a handler returned, and what holds after it threw, from what held
-- before it. There is one rule for each way to build a handler; a fact that a read or a guard
-- established is part of the next step's precondition.
use auto_ops.Prelude.{
  ◌⊎◌, inl, inr, ◌≡◌, refl, Bool, true, false, Option, none, some, if◌then◌else◌,
}
use auto_ops.Errors.{Thrown}
use auto_ops.Exec.{
  Result, ok, err, Exec, pure, throw, gets, or_throw, modify, require, catch, handle, continue,
  ◌>>=◌,
}

module _ {W A : Type 0} where
  abbrev pub Post : (A → W → Type 0) → (W → Type 0) → Result A × W → Type 0
  Post Q E (ok a, w) = Q a w
  Post Q E (err e, w) = E w

  pub record Triple (P : W → Type 0) (m : Exec W A) (Q : A → W → Type 0) (E : W → Type 0)
      : Type 0 where
    pub at : (w : W) → P w → Post Q E (m w)

  module _ {P : W → Type 0} {Q : A → W → Type 0} {E : W → Type 0} where
    pub Triple-pure : (a : A) → ((w : W) → P w → Q a w) → Triple P (pure a) Q E
    unfolding pure
    Triple-pure a h = record { at = h }

    pub Triple-throw : (e : Thrown) → ((w : W) → P w → E w) → Triple P (throw e) Q E
    unfolding throw
    Triple-throw e h = record { at = h }

  module _ {P E : W → Type 0} where
    pub Triple-gets : (f : W → A) → Triple P (gets f) (λ a w. P w × (f w ≡ a)) E
    unfolding gets
    Triple-gets f = record { at = λ w h. (h, refl) }

    pub Triple-or_throw :
        (o : Option A) (e : Thrown)
        → ((w : W) → P w → E w)
        → Triple P (or_throw o e) (λ a w. P w × (o ≡ some a)) E
    unfolding or_throw
    Triple-or_throw none e h = record { at = h }
    Triple-or_throw (some a) e h = record { at = λ w p. (p, refl) }

module _ {W : Type 0} {P E : W → Type 0} where
  pub Triple-require :
      (b : Bool) (e : Thrown)
      → ((w : W) → P w → E w)
      → Triple P (require b e) (λ _ w. P w × (b ≡ true)) E
  unfolding require
  Triple-require true e h = record { at = λ w p. (p, refl) }
  Triple-require false e h = record { at = h }

  pub Triple-modify :
      (f : W → W) {Q : W → Type 0} → ((w : W) → P w → Q (f w)) → Triple P (modify f) (λ _ w. Q w) E
  unfolding modify
  Triple-modify f h = record { at = h }

module _ {W A B : Type 0} {E : W → Type 0} {Q : A → W → Type 0} {R : B → W → Type 0} where
  bind-Post :
      (r : Result A × W) (f : A → Exec W B)
      → Post Q E r
      → ((a : A) → Triple (Q a) (f a) R E)
      → Post R E (continue r f)
  bind-Post (ok a, w) f h k = (k a).at w h
  bind-Post (err e, w) f h k = h

  pub Triple-bind :
      {P : W → Type 0} {m : Exec W A} {f : A → Exec W B}
      → Triple P m Q E
      → ((a : A) → Triple (Q a) (f a) R E)
      → Triple P (m >>= f) R E
  unfolding ◌>>=◌
  Triple-bind {m} {f} t k = record { at = λ w p. bind-Post (m w) f (t.at w p) k }

module _ {W A : Type 0} {P E : W → Type 0} {Q : A → W → Type 0} where
  pub Triple-if :
      (b : Bool) {m n : Exec W A}
      → (b ≡ true → Triple P m Q E)
      → (b ≡ false → Triple P n Q E)
      → Triple P (if b then m else n) Q E
  Triple-if true km kn = km refl
  Triple-if false km kn = kn refl

-- A handler keeps an invariant, whether it returns or throws.
abbrev pub Keeps : {W A : Type 0} → (W → Type 0) → Exec W A → Type 0
Keeps P m = Triple P m (λ _. P) P

module _ {W A : Type 0} {P : W → Type 0} where
  pub Keeps-pure : (a : A) → Keeps P (pure a)
  Keeps-pure a = Triple-pure a (λ _ h. h)

  pub Keeps-throw : (e : Thrown) → Keeps {A = A} P (throw e)
  Keeps-throw e = Triple-throw e (λ _ h. h)

  pub Keeps-gets : (f : W → A) → Keeps P (gets f)
  unfolding gets
  Keeps-gets f = record { at = λ w h. h }

  pub Keeps-or_throw : (o : Option A) (e : Thrown) → Keeps P (or_throw o e)
  unfolding or_throw
  Keeps-or_throw none e = record { at = λ _ h. h }
  Keeps-or_throw (some a) e = record { at = λ _ h. h }

module _ {W : Type 0} {P : W → Type 0} where
  pub Keeps-require : (b : Bool) (e : Thrown) → Keeps P (require b e)
  unfolding require
  Keeps-require true e = record { at = λ _ h. h }
  Keeps-require false e = record { at = λ _ h. h }

  pub Keeps-modify : (f : W → W) → ((w : W) → P w → P (f w)) → Keeps P (modify f)
  Keeps-modify f h = Triple-modify f h

module _ {W A B : Type 0} {P : W → Type 0} where
  pub Keeps-bind :
      {m : Exec W A} {f : A → Exec W B} → Keeps P m → ((a : A) → Keeps P (f a)) → Keeps P (m >>= f)
  Keeps-bind t k = Triple-bind t k

pub Keeps-if :
    {W A : Type 0} {P : W → Type 0} (b : Bool) {m n : Exec W A}
    → Keeps P m
    → Keeps P n
    → Keeps P (if b then m else n)
Keeps-if true km kn = km
Keeps-if false km kn = kn

pub ruleset keeps = (
  Keeps-pure, Keeps-throw, Keeps-gets, Keeps-or_throw, Keeps-require, Keeps-modify, Keeps-bind,
  Keeps-if,
)

module _ {W A : Type 0} {P : W → Type 0} where
  handle-Post :
      (r : Result A × W) (h : Thrown → Exec W A)
      → Post (λ (_ : A). P) P r
      → ((e : Thrown) → Keeps P (h e))
      → Post (λ (_ : A). P) P (handle r h)
  handle-Post (ok a, w) h p k = p
  handle-Post (err e, w) h p k = (k e).at w p

  pub Keeps-catch :
      {m : Exec W A} {h : Thrown → Exec W A}
      → Keeps P m
      → ((e : Thrown) → Keeps P (h e))
      → Keeps P (catch m h)
  unfolding catch
  Keeps-catch {m} {h} t k = record { at = λ w p. handle-Post (m w) h (t.at w p) k }

-- A handler returned or threw.
pub outcome-cases :
    {W A : Type 0} (r : Result A × W)
    → ((a : A) × (w : W) × (r ≡ (ok a, w))) ⊎ ((e : Thrown) × (w : W) × (r ≡ (err e, w)))
outcome-cases (ok a, w) = inl (a, w, refl)
outcome-cases (err e, w) = inr (e, w, refl)

-- What is computed from a value leaves the world alone.
pub continue-pure :
    {W A B : Type 0} (r : Result A × W) (f : A → B) → (continue r (λ a. pure (f a))).1 ≡ r.1
unfolding pure
continue-pure (ok a, w) f = refl
continue-pure (err e, w) f = refl
