-- ===== src/Value/Dict.antt =====
-- Python's `dict` with text keys, as the code uses it: `d.get(k)`, `k in d`, `{**d, k: v}` and the
-- comparisons of `set(d)` with a set of keys. A list of fields, the first of a key being the entry.
use dcc_mcp_obs.Base.{
  String, Bool, true, false, ◌&&◌, List, [], ◌∷◌, ◌==◌, eq_iff, eq_refl, ◌≡◌, refl, arith, mem_text,
  if◌then◌else◌,
}
use dcc_mcp_obs.Value.{Value, null, Fields, end, field}

-- d.get(k), which is None where the key is missing
unfoldable pub get : String → Fields → Value
get k end = null
get k (field j v d) = if j == k then v else get k d

-- k in d
unfoldable pub has : String → Fields → Bool
has k end = false
has k (field j v d) = if j == k then true else has k d

-- {**d, k: v}
unfoldable pub put : String → Value → Fields → Fields
put k v end = field k v end
put k v (field j w d) = if j == k then field k v d else field j w (put k v d)

-- {key: value for key, value in d.items() if key != k}
unfoldable pub without : String → Fields → Fields
without k end = end
without k (field j v d) = let rest = without k d in if j == k then rest else field j v rest

-- a dict display
unfoldable pub entries : List (String × Value) → Fields
entries [] = end
entries ((k, v) ∷ kvs) = field k v (entries kvs)

-- {**d, **e}
unfoldable pub merge : Fields → Fields → Fields
merge d end = d
merge d (field k v e) = merge (put k v d) e

-- not set(d) - allowed
unfoldable pub keys_within : List String → Fields → Bool
keys_within allowed end = true
keys_within allowed (field k v d) = mem_text allowed k && keys_within allowed d

-- set(d) >= required
unfoldable pub has_all : List String → Fields → Bool
has_all [] d = true
has_all (k ∷ ks) d = has k d && has_all ks d

-- set(d) == keys
unfoldable pub keys_equal : List String → Fields → Bool
unfolding has_all keys_within
keys_equal ks d = keys_within ks d && has_all ks d

-- {k: d[k] for k in ks if k in d}
unfoldable pub pick : List String → Fields → Fields
pick [] d = end
pick (k ∷ ks) d = let rest = pick ks d in if has k d then field k (get k d) rest else rest

pub get-put :
    (k j : String) (v : Value) (d : Fields) → get j (put k v d) ≡ (if k == j then v else get j d)
unfolding get put
get-put k j v end = refl
get-put k j v (field i w d) = ground (arith, eq_iff k j, eq_iff i k, eq_iff i j, get-put k j v d)

pub get-put_self : (k : String) (v : Value) (d : Fields) → get k (put k v d) ≡ v
get-put_self k v d = simp (get-put, eq_refl)
