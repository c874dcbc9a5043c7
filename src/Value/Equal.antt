-- ===== src/Value/Equal.antt =====
-- Python's `==` on the objects that JSON decoding yields: src/dcc_mcp_obs/bridge.py compares what it
-- reads back with what it has asked for. A `bool` is the int 0 or 1, an int and a float are equal if
-- their exact values are, a NaN equals nothing, and a dict has no order.
use dcc_mcp_obs.Base.{
  ℕ, suc, ◌+◌, ◌*◌, ◌/◌, ◌%◌, ◌^◌, Bool, true, false, not, ◌&&◌, ◌||◌, ltb, nat_eq, if◌then◌else◌,
}
use dcc_mcp_obs.Value.{
  ℤ, pos, negsuc, Value, null, bool, int, float, str, list, dict, Fields, field, end, Items, cons,
  nil,
}
use dcc_mcp_obs.Value.Dict.{get, has}
use dcc_mcp_obs.Value.Float.{is_finite}
use dcc_mcp_obs.Value.Check.{is_null, equals_text}

-- A finite float has the magnitude significand * 2^(exponent - 1075).
unfoldable pub exponent : ℕ → ℕ
exponent bits = let e = bits / 2 ^ 52 % 2 ^ 11 in if nat_eq e 0 then 1 else e

unfoldable pub significand : ℕ → ℕ
significand bits =
    let m = bits % 2 ^ 52 in if nat_eq (bits / 2 ^ 52 % 2 ^ 11) 0 then m else 2 ^ 52 + m

unfoldable pub magnitude_is : ℕ → ℕ → Bool
unfolding exponent significand is_finite
magnitude_is n bits = is_finite bits && nat_eq (n * 2 ^ 1075) (significand bits * 2 ^ exponent bits)

unfoldable pub same_int : ℤ → ℤ → Bool
same_int (pos n) (pos m) = nat_eq n m
same_int (negsuc n) (negsuc m) = nat_eq n m
same_int _ _ = false

-- an int and a float
unfoldable pub int_is_float : ℤ → ℕ → Bool
unfolding magnitude_is
int_is_float (pos n) bits = (nat_eq n 0 || ltb bits (2 ^ 63)) && magnitude_is n bits
int_is_float (negsuc n) bits = not (ltb bits (2 ^ 63)) && magnitude_is (suc n) bits

-- two floats: no NaN, and the same bits or two zeros
unfoldable pub same_float : ℕ → ℕ → Bool
same_float x y =
    not (ltb 0x7ff0000000000000 (x % 2 ^ 63))
    && (nat_eq x y || nat_eq (x % 2 ^ 63) 0 && nat_eq (y % 2 ^ 63) 0)

unfoldable pub int_equals : ℤ → Value → Bool
unfolding same_int int_is_float
int_equals n (int m) = same_int n m
int_equals n (float bits) = int_is_float n bits
int_equals n (bool true) = same_int n (pos 1)
int_equals n (bool false) = same_int n (pos 0)
int_equals n _ = false

unfoldable pub float_equals : ℕ → Value → Bool
unfolding same_float int_is_float
float_equals bits (int m) = int_is_float m bits
float_equals bits (float other) = same_float bits other
float_equals bits (bool true) = int_is_float (pos 1) bits
float_equals bits (bool false) = int_is_float (pos 0) bits
float_equals bits _ = false

-- set(d) <= set(e)
unfoldable pub keys_among : Fields → Fields → Bool
unfolding has
keys_among end e = true
keys_among (field k v d) e = has k e && keys_among d e

unfoldable pub items_or_none : Value → Bool × Items
items_or_none (list vs) = (true, vs)
items_or_none _ = (false, nil)

unfoldable pub fields_or_none : Value → Bool × Fields
fields_or_none (dict d) = (true, d)
fields_or_none _ = (false, end)

unfoldable mutual
  unfolding get keys_among int_equals float_equals items_or_none fields_or_none is_null equals_text

  pub same_value : Value → Value → Bool
  same_value null w = is_null w
  same_value (str s) w = equals_text s w
  same_value (int n) w = int_equals n w
  same_value (float x) w = float_equals x w
  same_value (bool true) w = int_equals (pos 1) w
  same_value (bool false) w = int_equals (pos 0) w
  same_value (list vs) w = let (is_list, ws) = items_or_none w in is_list && same_items vs ws
  same_value (dict d) w =
      let (is_dict, e) = fields_or_none w in
      is_dict && keys_among d e && keys_among e d && same_fields d e

  pub same_fields : Fields → Fields → Bool
  same_fields end e = true
  same_fields (field k v d) e = same_value v (get k e) && same_fields d e

  pub same_items : Items → Items → Bool
  same_items nil nil = true
  same_items nil (cons w ws) = false
  same_items (cons v vs) nil = false
  same_items (cons v vs) (cons w ws) = same_value v w && same_items vs ws
