-- ===== src/Server/Owned.antt =====
-- No adapter of src/dcc_mcp_obs/server.py is lost.
use dcc_mcp_obs.Base.{
  ℕ, String, Bool, true, false, Bool-cases, ◌≡◌, ◌∙◌, refl, sym, ap, inl, inr, [], ◌∷◌, Option,
  none, some, nat_eq, arith, if◌then◌else◌,
}
use dcc_mcp_obs.Server.{
  constructed, called, stopped, Log, Ran, returned, raised, Adapters, Interpreter, stop, ended,
  load, start_up, cleaned, settled, launched, replaced, started, start_server, released,
  stopped_server, stop_server,
}

-- Was adapter `n` constructed, and has its `stop` not returned since?
unfoldable pub unstopped : ℕ → Log → Bool
unstopped n [] = false
unstopped n (constructed m ∷ log) = let rest = unstopped n log in if nat_eq m n then true else rest
unstopped n (stopped m ∷ log) = let rest = unstopped n log in if nat_eq m n then false else rest
unstopped n (called name m ∷ log) = unstopped n log

abbrev pub OnlyUnstopped : Option ℕ → Log → Type 0
OnlyUnstopped server log = (n : ℕ) → unstopped n log ≡ true → server ≡ some n

-- Every adapter that was constructed and has not been stopped is the one that the interpreter holds.
pub record Owns (i : Interpreter) : Type 0 where
  pub held : OnlyUnstopped i.server i.log

NoneUnstopped : Log → Type 0
NoneUnstopped log = (n : ℕ) → unstopped n log ≡ false

-- a `stop` that returns leaves no adapter, and one that raises leaves what there was
StopEnds : ℕ → Option String × Log → Type 0
unfolding NoneUnstopped
StopEnds n (none, log) = NoneUnstopped log
StopEnds n (some e, log) = OnlyUnstopped (some n) log

some_injective : {n m : ℕ} → ◌≡◌ {A = Option ℕ} (some n) (some m) → n ≡ m
some_injective e = cc

same_some : {n m : ℕ} → ◌≡◌ {A = Option ℕ} (some n) (some m) → nat_eq n m ≡ true
same_some {n} {m} e = ground (arith, some_injective e)

nat_eq-eq : (a b : ℕ) → nat_eq a b ≡ true → a ≡ b
nat_eq-eq a b h = ground (arith, h)

none-some : {n : ℕ} → ◌≡◌ {A = Option ℕ} none (some n) → ⊥
none-some e = cc

none-NoneUnstopped : (log : Log) → OnlyUnstopped none log → NoneUnstopped log
unfolding NoneUnstopped
none-NoneUnstopped log held m = elim (Bool-cases (unstopped m log)) [
  | inl there ↦ absurd (none-some (held m there))
  | inr gone ↦ gone
]

differs : {b : Bool} → b ≡ true → b ≡ false → ⊥
differs yes_b no_b = cc

only_other :
    (n m : ℕ) (log : Log)
    → OnlyUnstopped (some n) log
    → nat_eq n m ≡ false
    → unstopped m log ≡ false
only_other n m log held other = elim (Bool-cases (unstopped m log)) [
  | inl there ↦ absurd (differs (same_some (held m there)) other)
  | inr gone ↦ gone
]

module _ (adapters : Adapters) where
  ended-StopEnds :
      (n : ℕ) (r : Option String) (log : Log)
      → OnlyUnstopped (some n) log
      → StopEnds n (ended adapters n r log)
  unfolding ended StopEnds NoneUnstopped unstopped
  ended-StopEnds n none log held = λ m. elim (Bool-cases (nat_eq n m)) [
    | inl same ↦ rw same refl
    | inr other ↦ rw (other, only_other n m log held other) refl
  ]
  ended-StopEnds n (some e) log held = held

  stop-StopEnds :
      (n : ℕ) (log : Log) → OnlyUnstopped (some n) log → StopEnds n (stop adapters n log)
  unfolding stop unstopped
  stop-StopEnds n log held = ended-StopEnds n _ _ held

  released-Owns : (n : ℕ) (p : Option String × Log) → StopEnds n p → Owns (released adapters n p).1
  unfolding released StopEnds NoneUnstopped
  released-Owns n (none, log) gone = record { held = λ m there. absurd (differs there (gone m)) }
  released-Owns n (some e, log) held = record { held = held }

  stopped_server-Owns :
      (server : Option ℕ) (log : Log)
      → OnlyUnstopped server log
      → Owns (stopped_server adapters server log).1
  unfolding stopped_server
  stopped_server-Owns none log held = record { held = held }
  stopped_server-Owns (some n) log held = released-Owns n _ (stop-StopEnds n log held)

  -- calls other than `stop` leave the adapters there are
  start_up-same : (n m : ℕ) (log : Log) → unstopped m (start_up adapters n log).1 ≡ unstopped m log
  unfolding start_up load unstopped
  start_up-same n m log = ground arith

  cleaned-Owns :
      (n : ℕ) (primary : String) (p : Option String × Log)
      → StopEnds n p
      → Owns (cleaned adapters n primary p).1
  unfolding cleaned StopEnds NoneUnstopped
  cleaned-Owns n primary (none, log) gone = record {
    held = λ m there. absurd (differs there (gone m));
  }
  cleaned-Owns n primary (some e, log) held = record { held = held }

  settled-Owns :
      (n : ℕ) (p : Option String × Log) → OnlyUnstopped (some n) p.1 → Owns (settled adapters n p).1
  unfolding settled
  settled-Owns n (none, log) held = record { held = held }
  settled-Owns n (some primary, log) held = cleaned-Owns n primary _ (stop-StopEnds n log held)

  constructed-only :
      (n : ℕ) (log : Log) → NoneUnstopped log → OnlyUnstopped (some n) (constructed n ∷ log)
  unfolding unstopped NoneUnstopped
  constructed-only n log gone m there = elim (Bool-cases (nat_eq n m)) [
    | inl same ↦ ap (λ (k : ℕ). some k) (nat_eq-eq n m same)
    | inr other ↦ absurd (differs (rw other at there) (gone m))
  ]

  launched-Owns :
      (before : Option ℕ) (made : Ran ℕ) (log : Log)
      → NoneUnstopped log
      → Owns (launched adapters before made log).1
  unfolding launched NoneUnstopped
  launched-Owns before (raised e) log gone = record {
    held = λ m there. absurd (differs there (gone m));
  }
  launched-Owns before (returned n) log gone = settled-Owns n _ (λ m there.
      constructed-only n log gone m (sym (start_up-same n m (constructed n ∷ log)) ∙ there))

  replaced-Owns : (n : ℕ) (p : Option String × Log) → StopEnds n p → Owns (replaced adapters n p).1
  unfolding replaced StopEnds
  replaced-Owns n (some e, log) held = record { held = held }
  replaced-Owns n (none, log) gone = launched-Owns (some n) (adapters.construct log) log gone

  started-Owns :
      (server : Option ℕ) (log : Log)
      → OnlyUnstopped server log
      → Owns (started adapters server log).1
  unfolding started
  started-Owns none log held =
      launched-Owns none (adapters.construct log) log (none-NoneUnstopped log held)
  started-Owns (some n) log held = elim (Bool-cases (adapters.is_running log n)) [
    | inl runs ↦ rw runs (record { held = held })
    | inr idle ↦ rw idle (replaced-Owns n _ (stop-StopEnds n log held))
  ]

  -- Whatever the adapters do, `start_server` and `stop_server` lose none of them: if every adapter that was
  -- constructed and has not been stopped is the one that `_server` holds, then so it is after either call,
  -- however the call ends.
  pub start_stop-Owns :
      (i : Interpreter)
      → Owns i
      → Owns (start_server adapters i).1 × Owns (stop_server adapters i).1
  unfolding start_server stop_server
  start_stop-Owns i owns =
      (started-Owns i.server i.log owns.held, stopped_server-Owns i.server i.log owns.held)
