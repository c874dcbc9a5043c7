-- ===== src/Exec.antt =====
-- Methods that read and write an object and may raise.
use dcc_mcp_obs.Base.{String, Bool, true, false}
use dcc_mcp_obs.Result.{Error, bridge_error, Result, ok, err}

-- A raise undoes nothing: the object is returned as it is then, with the error.
abbrev pub Exec {ℓ} : Type ℓ → Type ℓ → Type ℓ
Exec S A = (before : S) → Result A × S

module _ {S : Type 0} where
  -- `if not test: raise BridgeError(code)`
  unfoldable pub guard : Bool → String → Exec S (Unit {0})
  guard false code object = (err (bridge_error code), object)
  guard true code object = (ok tt, object)

  unfoldable pub modify : (S → S) → Exec S (Unit {0})
  modify write object = (ok tt, write object)

module _ {ℓ} {S A : Type ℓ} where
  unfoldable pub gets : (S → A) → Exec S A
  gets read object = (ok (read object), object)

  unfoldable pub lift : Result A → Exec S A
  lift result object = (result, object)

  unfoldable pub raise : Error → Exec S A
  raise error object = (err error, object)

  unfoldable pub pure : A → Exec S A
  pure value object = (ok value, object)

module _ {ℓ} {S A B : Type ℓ} where
  abbrev proceed : Result A → (A → Exec S B) → Exec S B
  proceed (err error) next object = (err error, object)
  proceed (ok value) next object = next value object

  infixl 5 ◌>>=◌ ◌>>◌
  -- whoever opens the sequence opens the single actions
  unfoldable pub ◌>>=◌ : Exec S A → (A → Exec S B) → Exec S B
  unfolding guard modify gets lift raise pure
  ◌>>=◌ first next object = let (result, after) = first object in proceed result next after

  abbrev pub ◌>>◌ : Exec S A → Exec S B → Exec S B
  first >> rest = first >>= λ done. rest
