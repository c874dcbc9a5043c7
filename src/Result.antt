-- ===== src/Result.antt =====
-- Exceptions as values, and code that only computes and may raise.
pub mod Fails
pub mod Yields
use dcc_mcp_obs.Base.{String, ◌≡◌, refl}

-- `bridge_error c` is `BridgeError(c)`; the others are the exceptions of Python itself that the
-- code can let escape: an unhashable value looked up in a set, an attribute of the wrong type,
-- an int too large for a float or of too
-- many digits, a path without a home, a text nested too deeply.
pub data Error : Type 0 where
  bridge_error : String → Error
  type_error attribute_error overflow_error value_error runtime_error recursion_error : Error
  -- no exception of the program: a loop of the model has used up its fuel
  out_of_fuel : Error

-- what was raised, or what was returned
pub data Result {ℓ} (A : Type ℓ) : Type ℓ where
  err : Error → Result A
  ok : A → Result A

module _ {ℓ κ} {A : Type ℓ} {B : Type κ} where
  infixl 5 ◌>>=◌
  abbrev pub ◌>>=◌ : Result A → (A → Result B) → Result B
  err raised >>= next = err raised
  ok value >>= next = next value

  -- a chain that returns has returned at its first link
  pub >>=-eq-ok :
      (first : Result A) (next : A → Result B) {b : B}
      → (first >>= next) ≡ ok b
      → (value : A) × (first ≡ ok value) × (next value ≡ ok b)
  >>=-eq-ok (err raised) next returns = cc
  >>=-eq-ok (ok value) next returns = (value, refl, returns)

infixl 5 ◌>>◌
-- a test, and what is computed if it passes
abbrev pub ◌>>◌ {ℓ} : {A : Type ℓ} → Result (Unit {0}) → Result A → Result A
test >> rest = test >>= λ passed. rest
