-- ===== src/Base/Lists.antt =====
-- Lists measured by native numbers, and membership of texts in a fixed set.
use Prim.Native.Nat.{ℕ, zero, suc, ◌+◌}
use Prim.Native.String.{String}
use mathlib.Core.Path.{◌≡◌, refl}
use mathlib.Core.Logic.{inl, inr}
use text.Mathlib.TextEquality.{eq_iff}
use dcc_mcp_obs.Base.Tests.{Bool-cases}
use mathlib.Core.Bool.{Bool, true, false, ◌||◌, ◌&&◌}
use mathlib.Core.List.{List, [], ◌∷◌, ◌++◌}
use native.Mathlib.Omega.{arith}
use text.Mathlib.Text.{◌==◌}

module _ {ℓ} {A : Type ℓ} where
  abbrev pub length : List A → ℕ
  length [] = 0
  length (x ∷ xs) = suc (length xs)

  abbrev pub take : ℕ → List A → List A
  take zero xs = []
  take (suc n) [] = []
  take (suc n) (x ∷ xs) = x ∷ take n xs

  abbrev pub drop : ℕ → List A → List A
  drop zero xs = xs
  drop (suc n) [] = []
  drop (suc n) (x ∷ xs) = drop n xs

  abbrev pub replicate : ℕ → A → List A
  replicate zero a = []
  replicate (suc n) a = a ∷ replicate n a

  abbrev pub all : (A → Bool) → List A → Bool
  all p [] = true
  all p (x ∷ xs) = p x && all p xs

  pub length-append : (xs ys : List A) → length (xs ++ ys) ≡ length xs + length ys
  length-append [] ys = omega arith
  length-append (x ∷ xs) ys = omega (arith, length-append xs ys)

-- `s in {…}` for a set of texts
abbrev pub mem_text : List String → String → Bool
mem_text [] s = false
mem_text (t ∷ ts) s = s == t || mem_text ts s

pub both : (b c : Bool) → (b && c) ≡ true → (b ≡ true) × (c ≡ true)
both true c h = (refl, h)
both false c h = cc

pub all-mem :
    (p : String → Bool) (ts : List String) (c : String)
    → all p ts ≡ true
    → mem_text ts c ≡ true
    → p c ≡ true
all-mem p [] c every m = cc
all-mem p (t ∷ ts) c every m =
    let (here, later) = both (p t) (all p ts) every in
    elim (Bool-cases (c == t)) [
      | inl e ↦ rw ((eq_iff c t).0 e) here
      | inr e ↦ all-mem p ts c later (rw e at m)
    ]
