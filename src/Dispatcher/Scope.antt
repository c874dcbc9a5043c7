-- ===== src/Dispatcher/Scope.antt =====
-- The deadline that a call of src/dcc_mcp_obs/dispatcher.py leaves behind.
use dcc_mcp_obs.Base.{
  ℕ, suc, ◌+◌, ◌-◌, ◌^◌, ◌≤◌, ◌<◌, Bool, true, false, ◌≡◌, refl, ◌⊎◌, inl, inr, Option, none, some,
  leb, ltb, arith, ◌%◌, both,
}
use dcc_mcp_obs.Value.{pos, negsuc, Value, null, bool, int, float, str, list, dict, Fields}
use dcc_mcp_obs.Value.Float.{is_finite, int_too_large}
use dcc_mcp_obs.Value.Check.{need, number_type, number_finite}
use dcc_mcp_obs.Value.Dict.{get}
use dcc_mcp_obs.Result.{Error, bridge_error, overflow_error, Result, ok, err}
use dcc_mcp_obs.Exec.{Exec, lift, ◌>>=◌}
use dcc_mcp_obs.Dispatcher.{
  Context, Clock, positive, require_hint, deadline_scope, deadline_of, dispatch_callable,
  dispatch_keys, without_all,
}

-- The smallest int for which float() raises OverflowError.
abbrev pub too_large_from : ℕ
too_large_from = 2 ^ 1024 - 2 ^ 970

-- An int or a float, finite and above 0: the bits of these floats lie between those of 0.0 and of inf.
abbrev pub IsPositive : Value → Type 0
IsPositive (int (pos n)) = (1 ≤ n) × (n < too_large_from)
IsPositive (float bits) = (1 ≤ bits) × (bits < 0x7ff0000000000000)
IsPositive _ = ⊥

abbrev pub IsHuge : Value → Type 0
IsHuge (int (pos n)) = too_large_from ≤ n
IsHuge (int (negsuc n)) = too_large_from ≤ suc n
IsHuge _ = ⊥

-- A timeout that is refused, and the exception.
pub record Refused (hint : Value) (e : Error) : Type 0 where
  pub given : hint ≡ null → ⊥
  pub not_positive : IsPositive hint → ⊥
  pub error : (e ≡ bridge_error "OBS_ARGUMENT_INVALID") ⊎ (IsHuge hint × (e ≡ overflow_error))

at_most : (a b : ℕ) → leb a b ≡ true → a ≤ b
at_most a b h = ground (arith, h)

above : (a b : ℕ) → leb a b ≡ false → b < a
above a b h = ground (arith, h)

below : (a b : ℕ) → ltb a b ≡ true → a < b
below a b h = ground (arith, h)

from_below : (a b : ℕ) → a < b → ltb a b ≡ true
from_below a b h = ground (arith, h)

from_at_most : (a b : ℕ) → a ≤ b → leb a b ≡ true
from_at_most a b h = ground (arith, h)

unsigned : (bits : ℕ) → bits < 2 ^ 63 → bits % 2 ^ 63 ≡ bits
unsigned bits h = omega (arith, h)

large_from : (n : ℕ) → int_too_large n ≡ true → too_large_from ≤ n
unfolding int_too_large
large_from n h = at_most too_large_from n h

small_from : (n : ℕ) → int_too_large n ≡ false → n < too_large_from
unfolding int_too_large
small_from n h = above too_large_from n h

differs : {b : Bool} → b ≡ true → b ≡ false → ⊥
differs yes_b no_b = cc

positive_bits :
    (bits : ℕ) → is_finite bits ≡ true → positive (float bits) ≡ true → IsPositive (float bits)
unfolding is_finite positive
positive_bits bits finite above_zero =
    let (plus, nonzero) = both (ltb bits (2 ^ 63)) (leb 1 bits) above_zero in
    (
      at_most 1 bits nonzero,
      below bits 0x7ff0000000000000 (rw (unsigned bits (below bits (2 ^ 63) plus)) at finite),
    )

finite_bits : (bits : ℕ) → IsPositive (float bits) → is_finite bits ≡ true
unfolding is_finite
finite_bits bits (nonzero, small) =
    rw (unsigned bits (omega (arith, small))) (from_below bits 0x7ff0000000000000 small)

above_zero_bits : (bits : ℕ) → IsPositive (float bits) → positive (float bits) ≡ true
unfolding positive
above_zero_bits bits (nonzero, small) =
    rw (from_below bits (2 ^ 63) (omega (arith, small)), from_at_most 1 bits nonzero) refl

module _ {W : Type 0} (clock : Clock W) where
  abbrev Timed : Value → Context W → Result (Option ℕ) → Type 0
  Timed hint c (ok deadline) =
      ((hint ≡ null) × (deadline ≡ none))
      ⊎ (IsPositive hint × (deadline ≡ some (clock.now c.world + clock.ticks hint)))
  Timed hint c (err e) = Refused hint e

  no_number :
      (hint : Value)
      → (hint ≡ null → ⊥)
      → (IsPositive hint → ⊥)
      → Refused hint (bridge_error "OBS_ARGUMENT_INVALID")
  no_number hint given not_positive = record {
    given = given;
    not_positive = not_positive;
    error = inl refl;
  }

  float-Timed :
      (bits : ℕ) (c : Context W) (finite above_zero : Bool)
      → is_finite bits ≡ finite
      → positive (float bits) ≡ above_zero
      → Timed (float bits) c (deadline_of clock (float bits) c)
  unfolding deadline_of require_hint need number_type number_finite
  float-Timed bits c false above_zero infinite _ =
      rw infinite (no_number (float bits) (λ e. cc) (λ p. differs (finite_bits bits p) infinite))
  float-Timed bits c true false finite minus =
      rw (finite, minus)
        (no_number (float bits) (λ e. cc) (λ p. differs (above_zero_bits bits p) minus))
  float-Timed bits c true true finite plus =
      rw (finite, plus) (inr (positive_bits bits finite plus, refl))

  int-Timed :
      (n : ℕ) (c : Context W) (huge above_zero : Bool)
      → int_too_large n ≡ huge
      → leb 1 n ≡ above_zero
      → Timed (int (pos n)) c (deadline_of clock (int (pos n)) c)
  unfolding deadline_of require_hint need number_type number_finite positive
  int-Timed n c true above_zero large _ = rw large (record {
    given = λ e. cc;
    not_positive = λ (_, small). omega (arith, large_from n large, small);
    error = inr (large_from n large, refl);
  })
  int-Timed n c false false small zero_hint =
      rw (small, zero_hint)
        (no_number (int (pos n)) (λ e. cc)
          (λ (nonzero, _). omega (arith, nonzero, above 1 n zero_hint)))
  int-Timed n c false true small nonzero =
      rw (small, nonzero) (inr ((at_most 1 n nonzero, small_from n small), refl))

  negative-Timed :
      (n : ℕ) (c : Context W) (huge : Bool)
      → int_too_large (suc n) ≡ huge
      → Timed (int (negsuc n)) c (deadline_of clock (int (negsuc n)) c)
  unfolding deadline_of require_hint need number_type number_finite positive
  negative-Timed n c true large = rw large (record {
    given = λ e. cc;
    not_positive = λ p. p;
    error = inr (large_from (suc n) large, refl);
  })
  negative-Timed n c false small = rw small (no_number (int (negsuc n)) (λ e. cc) (λ p. p))

  deadline_of-Timed : (hint : Value) (c : Context W) → Timed hint c (deadline_of clock hint c)
  unfolding deadline_of require_hint need number_type
  deadline_of-Timed null c = inl (refl, refl)
  deadline_of-Timed (bool b) c = no_number (bool b) (λ e. cc) (λ p. p)
  deadline_of-Timed (str s) c = no_number (str s) (λ e. cc) (λ p. p)
  deadline_of-Timed (list l) c = no_number (list l) (λ e. cc) (λ p. p)
  deadline_of-Timed (dict d) c = no_number (dict d) (λ e. cc) (λ p. p)
  deadline_of-Timed (int (pos n)) c = int-Timed n c _ _ refl refl
  deadline_of-Timed (int (negsuc n)) c = negative-Timed n c _ refl
  deadline_of-Timed (float bits) c = float-Timed bits c _ _ refl refl

module _ {W A : Type 0} (clock : Clock W) (func : Fields → Exec (Context W) A) where
  -- the function has run, without the keys that are the dispatcher's, under this deadline, and the context
  -- has its old one again
  abbrev pub Ran : Fields → Context W → Option ℕ → Result A × Context W → Type 0
  Ran kwargs c deadline p =
      ((func (without_all dispatch_keys kwargs) (record c { current_deadline = deadline })).0 ≡ p.0)
      × ((func (without_all dispatch_keys kwargs)
            (record c { current_deadline = deadline })).1.world
          ≡ p.1.world)
      × (p.1.current_deadline ≡ c.current_deadline)

  abbrev pub Dispatched : Fields → Context W → Result A × Context W → Type 0
  Dispatched kwargs c p =
      ((get "timeout_hint_secs" kwargs ≡ null) × Ran kwargs c none p)
      ⊎ (IsPositive (get "timeout_hint_secs" kwargs)
          × Ran kwargs c (some (clock.now c.world + clock.ticks (get "timeout_hint_secs" kwargs)))
              p)
      ⊎ ((e : Error) × Refused (get "timeout_hint_secs" kwargs) e × (p ≡ (err e, c)))

  dispatched :
      (kwargs : Fields) (c : Context W) (deadline : Result (Option ℕ))
      → Timed clock (get "timeout_hint_secs" kwargs) c deadline
      → Dispatched kwargs c
          ((lift deadline >>= λ d. deadline_scope d (func (without_all dispatch_keys kwargs))) c)
  unfolding lift ◌>>=◌ deadline_scope
  dispatched kwargs c (err e) refused = inr (inr (e, refused, refl))
  dispatched kwargs c (ok deadline) (inl (missing, untimed)) =
      inl (missing, rw untimed (refl, refl, refl))
  dispatched kwargs c (ok deadline) (inr (positive_hint, timed)) =
      inr (inl (positive_hint, rw timed (refl, refl, refl)))

  -- Without a timeout, or with None, the function runs without a deadline. With a finite number above 0 it
  -- runs under the deadline that lies as far ahead. Then `dispatch_callable` returns or raises what the
  -- function does, without the keys that are the dispatcher's, with what it does to the rest of the context,
  -- and leaves the deadline of the context as it was before. Any other timeout is refused, with OverflowError only if it is an int too large for a float,
  -- and nothing changes.
  pub dispatch_callable-Dispatched :
      (kwargs : Fields) (c : Context W)
      → Dispatched kwargs c (dispatch_callable clock func kwargs c)
  unfolding dispatch_callable
  dispatch_callable-Dispatched kwargs c =
      dispatched kwargs c (deadline_of clock (get "timeout_hint_secs" kwargs) c)
        (deadline_of-Timed clock (get "timeout_hint_secs" kwargs) c)
