-- ===== src/Bridge/Controls/Exact.antt =====
-- What `_select_exact_name` of src/dcc_mcp_obs/bridge.py accepts.
use dcc_mcp_obs.Base.{
  ◌↔◌, ℕ, suc, String, count, Bool, true, false, Bool-cases, List, [], ◌∷◌, ◌++◌, ◌≡◌, refl, ap,
  inl, inr, arith, between, leb, eq_refl,
}
use dcc_mcp_obs.Value.{Value, Items, null, bool, int, float, str, list, dict, Fields, elements}
use dcc_mcp_obs.Value.Dict.{get}
use dcc_mcp_obs.Value.Check.{
  is_false, list_type, items_of, equals_text, equals_text-str, need, need-eq-ok,
}
use dcc_mcp_obs.Result.{ok, >>=-eq-ok}
use dcc_mcp_obs.Bridge.Controls.Arguments.{require_name, select_exact_name, names_in}

suc_zero : {n : ℕ} → suc n ≡ 0 → ⊥
suc_zero h = omega (arith, h)

zero_one : ◌≡◌ {A = ℕ} 0 1 → ⊥
zero_one h = omega (arith, h)

differs : {b : Bool} → b ≡ true → b ≡ false → ⊥
differs yes_b no_b = cc

module _ (name_key name : String) where
  -- The entry is a dict that carries the name under the key.
  abbrev pub Carries : Value → Type 0
  Carries (dict d) = get name_key d ≡ str name
  Carries _ = ⊥

  abbrev pub NoneCarries : List Value → Type 0
  NoneCarries [] = Unit
  NoneCarries (v ∷ vs) = (Carries v → ⊥) × NoneCarries vs

  -- One entry carries the name, and none before it or after it does.
  abbrev pub OneCarries : List Value → Type 0
  OneCarries entries =
      (before : List Value) × (after : List Value) × (entry : Value) × (entries
        ≡ before ++ entry ∷ after)
      × Carries entry
      × NoneCarries before
      × NoneCarries after

  -- A complete listing in which exactly one entry carries the name.
  pub record OneNamed (response : Fields) (collection_key : String) : Type 0 where
    pub items : Items
    pub listed : get collection_key response ≡ list items
    pub whole : get "truncated" response ≡ bool false
    pub once : OneCarries (elements items)

  test_of_text : equals_text name (str name) ≡ true
  unfolding equals_text
  test_of_text = eq_refl name

  no_names : (entries : List Value) → names_in name_key name entries ≡ 0 → NoneCarries entries
  unfolding names_in
  no_names [] h = tt
  no_names (dict d ∷ entries) h = elim (Bool-cases (equals_text name (get name_key d))) [
    | inl same ↦ absurd (suc_zero (rw same at h))
    | inr other ↦
        let rest : names_in name_key name entries ≡ 0 = rw other at h in
        (
          λ (carries : get name_key d ≡ str name). differs test_of_text (rw carries at other),
          no_names entries rest,
        )
  ]
  no_names (null ∷ entries) h = (λ c. c, no_names entries h)
  no_names (bool b ∷ entries) h = (λ c. c, no_names entries h)
  no_names (int n ∷ entries) h = (λ c. c, no_names entries h)
  no_names (float x ∷ entries) h = (λ c. c, no_names entries h)
  no_names (str s ∷ entries) h = (λ c. c, no_names entries h)
  no_names (list l ∷ entries) h = (λ c. c, no_names entries h)

  names_in-none : (entries : List Value) → NoneCarries entries → names_in name_key name entries ≡ 0
  unfolding names_in
  names_in-none [] none = refl
  names_in-none (dict d ∷ entries) (not_here, none) =
      elim (Bool-cases (equals_text name (get name_key d))) [
        | inl same ↦ absurd (not_here (equals_text-str name (get name_key d) same))
        | inr other ↦ rw other (names_in-none entries none)
      ]
  names_in-none (null ∷ entries) (not_here, none) = names_in-none entries none
  names_in-none (bool b ∷ entries) (not_here, none) = names_in-none entries none
  names_in-none (int n ∷ entries) (not_here, none) = names_in-none entries none
  names_in-none (float x ∷ entries) (not_here, none) = names_in-none entries none
  names_in-none (str s ∷ entries) (not_here, none) = names_in-none entries none
  names_in-none (list l ∷ entries) (not_here, none) = names_in-none entries none

  later :
      (v : Value) (entries : List Value)
      → (Carries v → ⊥)
      → OneCarries entries
      → OneCarries (v ∷ entries)
  later v entries not_here (before, after, entry, same, carries, none, none_after) =
      (v ∷ before, after, entry, ap (λ l. v ∷ l) same, carries, (not_here, none), none_after)

  one_name : (entries : List Value) → names_in name_key name entries ≡ 1 → OneCarries entries
  unfolding names_in
  one_name [] h = absurd (zero_one h)
  one_name (dict d ∷ entries) h = elim (Bool-cases (equals_text name (get name_key d))) [
    | inl same ↦
        let rest : suc (names_in name_key name entries) ≡ 1 = rw same at h in
        (
          [],
          entries,
          dict d,
          refl,
          equals_text-str name (get name_key d) same,
          tt,
          no_names entries (omega (arith, rest)),
        )
    | inr other ↦
        later (dict d) entries
          (λ (carries : get name_key d ≡ str name). differs test_of_text (rw carries at other))
          (one_name entries (rw other at h))
  ]
  one_name (null ∷ entries) h = later null entries (λ c. c) (one_name entries h)
  one_name (bool b ∷ entries) h = later (bool b) entries (λ c. c) (one_name entries h)
  one_name (int n ∷ entries) h = later (int n) entries (λ c. c) (one_name entries h)
  one_name (float x ∷ entries) h = later (float x) entries (λ c. c) (one_name entries h)
  one_name (str s ∷ entries) h = later (str s) entries (λ c. c) (one_name entries h)
  one_name (list l ∷ entries) h = later (list l) entries (λ c. c) (one_name entries h)

  names_in-middle :
      (before after : List Value) (entry : Value)
      → Carries entry
      → NoneCarries before
      → NoneCarries after
      → names_in name_key name (before ++ entry ∷ after) ≡ 1
  unfolding names_in
  names_in-middle [] after (dict d) carries none none_after =
      rw (carries, test_of_text, names_in-none after none_after) refl
  names_in-middle [] after null carries none none_after = absurd carries
  names_in-middle [] after (bool b) carries none none_after = absurd carries
  names_in-middle [] after (int n) carries none none_after = absurd carries
  names_in-middle [] after (float x) carries none none_after = absurd carries
  names_in-middle [] after (str s) carries none none_after = absurd carries
  names_in-middle [] after (list l) carries none none_after = absurd carries
  names_in-middle (dict d ∷ before) after entry carries (not_here, none) none_after =
      elim (Bool-cases (equals_text name (get name_key d))) [
        | inl same ↦ absurd (not_here (equals_text-str name (get name_key d) same))
        | inr other ↦ rw other (names_in-middle before after entry carries none none_after)
      ]
  names_in-middle (null ∷ before) after entry carries (_, none) none_after =
      names_in-middle before after entry carries none none_after
  names_in-middle (bool b ∷ before) after entry carries (_, none) none_after =
      names_in-middle before after entry carries none none_after
  names_in-middle (int n ∷ before) after entry carries (_, none) none_after =
      names_in-middle before after entry carries none none_after
  names_in-middle (float x ∷ before) after entry carries (_, none) none_after =
      names_in-middle before after entry carries none none_after
  names_in-middle (str s ∷ before) after entry carries (_, none) none_after =
      names_in-middle before after entry carries none none_after
  names_in-middle (list l ∷ before) after entry carries (_, none) none_after =
      names_in-middle before after entry carries none none_after

as_list : (v : Value) → list_type v ≡ true → (items : Items) × (v ≡ list items)
unfolding list_type
as_list (list items) h = (items, refl)
as_list null h = cc
as_list (bool b) h = cc
as_list (int n) h = cc
as_list (float x) h = cc
as_list (str s) h = cc
as_list (dict d) h = cc

as_false : (v : Value) → is_false v ≡ true → v ≡ bool false
unfolding is_false
as_false (bool false) h = refl
as_false (bool true) h = cc
as_false null h = cc
as_false (int n) h = cc
as_false (float x) h = cc
as_false (str s) h = cc
as_false (list l) h = cc
as_false (dict d) h = cc

one-of : (n : ℕ) → leb n 1 ≡ true → leb 1 n ≡ true → n ≡ 1
one-of n a b = ground arith

require_name-same : (name found : String) → require_name (str name) ≡ ok found → found ≡ name
unfolding require_name
require_name-same name found h = ground arith

found-OneNamed :
    (response : Fields) (collection_key name_key name : String)
    → list_type (get collection_key response) ≡ true
    → is_false (get "truncated" response) ≡ true
    → names_in name_key name (items_of (get collection_key response)) ≡ 1
    → OneNamed name_key name response collection_key
unfolding items_of
found-OneNamed response collection_key name_key name is_list whole once =
    let (items, listed) = as_list (get collection_key response) is_list in
    record {
      items = items;
      listed = listed;
      whole = as_false (get "truncated" response) whole;
      once = one_name name_key name (elements items) (rw listed at once);
    }

select_exact_name-OneNamed :
    (response : Fields) (collection_key name_key name missing_code : String)
    → select_exact_name response collection_key name_key (str name) missing_code ≡ ok tt
    → OneNamed name_key name response collection_key
unfolding select_exact_name
select_exact_name-OneNamed response collection_key name_key name missing_code h =
    let (found, valid, h1) = >>=-eq-ok (require_name (str name)) _ h in
    let (_, listed, h2) =
      >>=-eq-ok (need "OBS_RESPONSE_INVALID" (list_type (get collection_key response))) _ h1 in
    let (_, whole, h3) =
      >>=-eq-ok (need "OBS_RESPONSE_INCOMPLETE" (is_false (get "truncated" response))) _ h2 in
    let n = names_in name_key found (items_of (get collection_key response)) in
    let (_, few, some_entry) = >>=-eq-ok (need "OBS_TARGET_AMBIGUOUS" (leb n 1)) _ h3 in
    found-OneNamed response collection_key name_key name (need-eq-ok _ _ listed)
      (need-eq-ok _ _ whole)
      (rw (← require_name-same name found valid)
        (one-of n (need-eq-ok _ _ few) (need-eq-ok missing_code (leb 1 n) some_entry)))

one_counted :
    (name_key name : String) (entries : List Value)
    → OneCarries name_key name entries
    → names_in name_key name entries ≡ 1
one_counted name_key name entries (before, after, entry, same, carries, none, none_after) =
    rw same (names_in-middle name_key name before after entry carries none none_after)

OneNamed-select_exact_name :
    (response : Fields) (collection_key name_key name missing_code : String)
    → between 1 256 (count name) ≡ true
    → OneNamed name_key name response collection_key
    → select_exact_name response collection_key name_key (str name) missing_code ≡ ok tt
unfolding select_exact_name require_name need list_type is_false items_of
OneNamed-select_exact_name response collection_key name_key name missing_code valid one =
    rw (valid, one.listed, one.whole, one_counted name_key name (elements one.items) one.once) refl

-- A name of 1 to 256 characters is accepted by `_select_exact_name` if and only if the collection is a
-- list, `truncated` is False, and one entry of the list is a dict with the name under the key, while none
-- before it or after it is.
pub select_exact_name-exact :
    (response : Fields) (collection_key name_key name missing_code : String)
    → between 1 256 (count name) ≡ true
    → (select_exact_name response collection_key name_key (str name) missing_code ≡ ok tt)
      ↔ OneNamed name_key name response collection_key
select_exact_name-exact response collection_key name_key name missing_code valid = (
  select_exact_name-OneNamed response collection_key name_key name missing_code,
  OneNamed-select_exact_name response collection_key name_key name missing_code valid,
)
