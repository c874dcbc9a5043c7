-- ===== src/Bridge/Controls/AgentInput/Keys.antt =====
-- The keys of the agent input overlay as they travel: src/dcc_mcp_obs/bridge.py joins them to
-- `keysCsv` and splits the `keysCsv` that it reads back.
use dcc_mcp_obs.Base.{
  ℕ, suc, String, count, Bool, both, ap, ◌∙◌, true, not, ◌≡◌, refl, List, [], ◌∷◌, all, mem_text,
  all-mem, leb, nat_eq, arith,
}
use text.Mathlib.TextLemmas.{length-cons}
use dcc_mcp_obs.Value.Text.{attach, join_commas, split_commas, prepend, all_codes}
use dcc_mcp_obs.Bridge.Validate.Overlays.{agent_input_keys}
use dcc_mcp_obs.Bridge.Controls.AgentInput.Showing.{keys_in}

abbrev comma_free : String → Bool
comma_free = all_codes (λ c. not (nat_eq c b','))

split-plain : (w : String) → comma_free w ≡ true → split_commas w ≡ w ∷ []
unfolding split_commas all_codes prepend
split-plain String.[] free = refl
split-plain (String.◌∷◌ c w) free = ground (arith, split-plain w)

split-attach :
    (w rest : String)
    → comma_free w ≡ true
    → split_commas (attach w (attach "," rest)) ≡ w ∷ split_commas rest
unfolding split_commas all_codes prepend attach
split-attach String.[] rest free = refl
split-attach (String.◌∷◌ c w) rest free = ground (arith, split-attach w rest)

split-join :
    (k : String) (ks : List String)
    → all comma_free (k ∷ ks) ≡ true
    → split_commas (join_commas (k ∷ ks)) ≡ k ∷ ks
unfolding join_commas attach
split-join k [] free = split-plain k (both (comma_free k) true free).0
split-join k (l ∷ ks) free =
    let (here, later) = both (comma_free k) (all comma_free (l ∷ ks)) free in
    split-attach k (join_commas (l ∷ ks)) here
    ∙ ap (λ (r : List String). k ∷ r) (split-join l ks later)

known-free :
    (keys : List String) → all (mem_text agent_input_keys) keys ≡ true → all comma_free keys ≡ true
unfolding all_codes agent_input_keys
known-free [] known = refl
known-free (k ∷ ks) known =
    let (here, later) =
      both (mem_text agent_input_keys k) (all (mem_text agent_input_keys) ks) known in
    rw (all-mem comma_free agent_input_keys k refl here) (known-free ks later)

abbrev nonempty : String → Bool
nonempty s = leb 1 (count s)

at_least_one : (n : ℕ) → leb 1 (suc n) ≡ true
at_least_one n = ground arith

attach-nonempty : (s t : String) → nonempty s ≡ true → nonempty (attach s t) ≡ true
unfolding attach
attach-nonempty String.[] t long = cc
attach-nonempty (String.◌∷◌ c s) t long = ground (arith, length-cons c (attach s t))

join-nonempty :
    (k : String) (ks : List String) → nonempty k ≡ true → nonempty (join_commas (k ∷ ks)) ≡ true
unfolding join_commas
join-nonempty k [] long = long
join-nonempty k (l ∷ ks) long = attach-nonempty k _ long

-- Keys that the overlay knows are split out of `keysCsv` again as they were joined into it.
pub keys_in-join_commas :
    (keys : List String)
    → all (mem_text agent_input_keys) keys ≡ true
    → keys_in (join_commas keys) ≡ keys
unfolding keys_in join_commas agent_input_keys
keys_in-join_commas [] known = refl
keys_in-join_commas (k ∷ ks) known =
    let (here, later) =
      both (mem_text agent_input_keys k) (all (mem_text agent_input_keys) ks) known in
    rw (join-nonempty k ks (all-mem nonempty agent_input_keys k refl here))
      (split-join k ks (known-free (k ∷ ks) known))
