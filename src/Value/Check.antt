-- ===== src/Value/Check.antt =====
-- The tests on values from which the code builds its checks. A condition `A or B or …` that raises
-- one exception is the chain of the negated tests, each raising it: `need (not A); need (not B); …`.
use dcc_mcp_obs.Base.{
  ℕ, suc, String, count, ◌==◌, eq_iff, ap, ◌≡◌, arith, Bool, true, false, not, List, [], leb,
  between, mem_text, if◌then◌else◌,
}
use dcc_mcp_obs.Value.{pos, negsuc, Value, null, bool, int, float, str, list, dict, elements}
use dcc_mcp_obs.Result.{bridge_error, type_error, overflow_error, Result, ok, err}
use dcc_mcp_obs.Value.Float.{is_finite, int_too_large}

-- v is True
unfoldable pub is_true : Value → Bool
is_true (bool b) = b
is_true _ = false

-- v is False
unfoldable pub is_false : Value → Bool
is_false (bool b) = not b
is_false _ = false

-- v is b, for a bool b
unfoldable pub is_bool : Bool → Value → Bool
is_bool true v = is_true v
is_bool false v = is_false v

-- type(v) is bool
unfoldable pub bool_type : Value → Bool
bool_type (bool b) = true
bool_type _ = false

-- v is None
unfoldable pub is_null : Value → Bool
is_null null = true
is_null _ = false

-- isinstance(v, str)
unfoldable pub text_type : Value → Bool
text_type (str s) = true
text_type _ = false

-- isinstance(v, str) and lo <= len(v) <= hi; `len` counts code points
unfoldable pub text_between : ℕ → ℕ → Value → Bool
text_between lo hi (str s) = between lo hi (count s)
text_between lo hi _ = false

-- v == s, for a text s
unfoldable pub equals_text : String → Value → Bool
equals_text s (str t) = t == s
equals_text s _ = false

pub equals_text-str : (s : String) (v : Value) → equals_text s v ≡ true → v ≡ str s
unfolding equals_text
equals_text-str s (str t) h = ap str ((eq_iff t s).0 h)
equals_text-str s null h = cc
equals_text-str s (bool b) h = cc
equals_text-str s (int n) h = cc
equals_text-str s (float x) h = cc
equals_text-str s (list l) h = cc
equals_text-str s (dict d) h = cc

-- type(v) is int
unfoldable pub int_type : Value → Bool
int_type (int n) = true
int_type _ = false

-- type(v) is int and lo <= v
unfoldable pub int_from : ℕ → Value → Bool
int_from lo (int (pos n)) = leb lo n
int_from lo _ = false

-- type(v) is int and lo <= v <= hi
unfoldable pub int_between : ℕ → ℕ → Value → Bool
int_between lo hi (int (pos n)) = between lo hi n
int_between lo hi _ = false

-- isinstance(v, list)
unfoldable pub list_type : Value → Bool
list_type (list vs) = true
list_type _ = false

-- isinstance(v, dict), isinstance(v, Mapping)
unfoldable pub dict_type : Value → Bool
dict_type (dict d) = true
dict_type _ = false

-- the elements of a list, none of another value
unfoldable pub items_of : Value → List Value
unfolding elements
items_of (list vs) = elements vs
items_of _ = []

-- `raise BridgeError(c)` if the condition does not hold
unfoldable pub need : String → Bool → Result (Unit {0})
need c true = ok tt
need c false = err (bridge_error c)

pub need-eq-ok : (c : String) (b : Bool) {u : Unit {0}} → need c b ≡ ok u → b ≡ true
unfolding need
need-eq-ok c b h = ground arith

-- `v in {…}`: a list and a dict are unhashable
unfoldable pub hashable : Value → Bool
hashable (list vs) = false
hashable (dict d) = false
hashable _ = true

unfoldable pub in_texts : List String → Value → Bool
in_texts ts (str s) = mem_text ts s
in_texts ts _ = false

-- `if v not in {…}: raise BridgeError(c)`
unfoldable pub need_member : String → List String → Value → Result (Unit {0})
unfolding need hashable in_texts
need_member c ts v = if hashable v then need c (in_texts ts v) else err type_error

-- math.isfinite(v) and math.isfinite(float(v)) of a number
unfoldable pub number_finite : Value → Result Bool
unfolding is_finite int_too_large
number_finite (float bits) = ok (is_finite bits)
number_finite (int (pos n)) = if int_too_large n then err overflow_error else ok true
number_finite (int (negsuc n)) = if int_too_large (suc n) then err overflow_error else ok true
number_finite _ = ok false

-- type(v) in (int, float)
unfoldable pub number_type : Value → Bool
number_type (int n) = true
number_type (float bits) = true
number_type _ = false
