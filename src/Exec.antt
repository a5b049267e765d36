-- ===== src/Exec.antt =====
-- The monad of asynchronous handlers: they read and write a world and may throw. What was written
-- before a throw stays written, so the world comes back beside the error too.
pub mod Triple
use auto_ops.Prelude.{Bool, true, false, Option, none, some}
use auto_ops.Errors.{Thrown}

pub data Result {ℓ} (A : Type ℓ) : Type ℓ where
  ok : A → Result A
  err : Thrown → Result A

abbrev pub Exec {ℓ} : Type ℓ → Type ℓ → Type ℓ
Exec W A = W → Result A × W

module _ {ℓ} {W A : Type ℓ} where
  unfoldable pub pure : A → Exec W A
  pure a w = (ok a, w)

  unfoldable pub throw : Thrown → Exec W A
  throw e w = (err e, w)

  unfoldable pub gets : (W → A) → Exec W A
  gets f w = (ok (f w), w)

  -- A value, or the error that stands for its absence.
  unfoldable pub or_throw : Option A → Thrown → Exec W A
  or_throw none e w = (err e, w)
  or_throw (some a) e w = (ok a, w)

  -- `try`: the handler runs in the world that the failed body left.
  abbrev pub handle : Result A × W → (Thrown → Exec W A) → Result A × W
  handle (ok a, w) h = (ok a, w)
  handle (err e, w) h = h e w

  unfoldable pub catch : Exec W A → (Thrown → Exec W A) → Exec W A
  catch m h w = handle (m w) h

module _ {W : Type 0} where
  unfoldable pub modify : (W → W) → Exec W (Unit {0})
  modify f w = (ok tt, f w)

  -- `if (!test) throw error;`
  unfoldable pub require : Bool → Thrown → Exec W (Unit {0})
  require true e w = (ok tt, w)
  require false e w = (err e, w)

module _ {ℓ} {W A B : Type ℓ} where
  abbrev pub continue : Result A × W → (A → Exec W B) → Result B × W
  continue (ok a, w) f = f a w
  continue (err e, w) f = (err e, w)

  infixl 10 ◌>>=◌ ◌>>◌
  -- Opening this opens the actions above too.
  unfoldable pub ◌>>=◌ : Exec W A → (A → Exec W B) → Exec W B
  unfolding pure throw gets or_throw modify require catch
  ◌>>=◌ m f w = continue (m w) f

  abbrev pub ◌>>◌ : Exec W A → Exec W B → Exec W B
  m >> n = m >>= λ _. n
