-- ===== src/Result/Fails.antt =====
-- The errors that a computation can end in, one rule for each way to build it.
use dcc_mcp_obs.Base.{◌≡◌, refl, Bool, true, false, if◌then◌else◌}
use dcc_mcp_obs.Result.{Error, Result, ok, err, ◌>>=◌}

-- whatever error `r` is, it has `P`
pub record Fails {A : Type 0} (P : Error → Type 0) (r : Result A) : Type 0 where
  pub because : (e : Error) → r ≡ err e → P e

err-injective : {A : Type 0} (e c : Error) → ◌≡◌ {A = Result A} (err e) (err c) → e ≡ c
err-injective e c h = cc

module _ {P : Error → Type 0} {A : Type 0} where
  pub Fails-ok : (a : A) → Fails P (ok a)
  Fails-ok a = record { because = λ e h. cc }

  pub Fails-err : (e : Error) → P e → Fails {A = A} P (err e)
  Fails-err e p = record { because = λ c h. rw (err-injective e c h) at p }

  pub Fails-if : (b : Bool) (r q : Result A) → Fails P r → Fails P q → Fails P (if b then r else q)
  Fails-if true r q fr fq = fr
  Fails-if false r q fr fq = fq

module _ {P : Error → Type 0} {A B : Type 0} where
  pub Fails-bind :
      (r : Result A) (f : A → Result B) → Fails P r → ((a : A) → Fails P (f a)) → Fails P (r >>= f)
  Fails-bind (ok a) f fr ff = ff a
  Fails-bind (err e) f fr ff = Fails-err e (fr.because e refl)

pub ruleset fails_rules = (Fails-ok, Fails-if, Fails-bind)
