-- ===== src/Result/Yields.antt =====
-- What is known of a result that was returned, one rule for each way to compute it.
use dcc_mcp_obs.Base.{◌≡◌, refl, Bool, true, false, if◌then◌else◌}
use dcc_mcp_obs.Result.{Error, Result, ok, err, ◌>>=◌}

-- If `r` returns a value, the value has `P`.
pub record Yields {A : Type 0} (P : A → Type 0) (r : Result A) : Type 0 where
  pub gives : (a : A) → r ≡ ok a → P a

same_ok : {A : Type 0} (a b : A) → ◌≡◌ {A = Result A} (ok a) (ok b) → a ≡ b
same_ok a b h = cc

module _ {A : Type 0} {P : A → Type 0} where
  pub Yields-ok : (a : A) → P a → Yields P (ok a)
  Yields-ok a p = record { gives = λ b h. rw (same_ok a b h) at p }

  pub Yields-err : (e : Error) → Yields P (err e)
  Yields-err e = record { gives = λ b h. cc }

  pub Yields-if :
      (b : Bool) (r q : Result A)
      → (b ≡ true → Yields P r)
      → (b ≡ false → Yields P q)
      → Yields P (if b then r else q)
  Yields-if true r q yr yq = yr refl
  Yields-if false r q yr yq = yq refl

module _ {A B : Type 0} {P : B → Type 0} where
  pub Yields-bind :
      (r : Result A) (f : A → Result B) → ((a : A) → r ≡ ok a → Yields P (f a)) → Yields P (r >>= f)
  Yields-bind (ok a) f h = h a refl
  Yields-bind (err e) f h = Yields-err e

  -- what the first step yields is known to the second
  pub Yields-then :
      {Q : A → Type 0} (r : Result A) (f : A → Result B)
      → Yields Q r
      → ((a : A) → Q a → Yields P (f a))
      → Yields P (r >>= f)
  Yields-then r f q h = Yields-bind r f (λ a e. h a (q.gives a e))
