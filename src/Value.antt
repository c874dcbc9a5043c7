-- ===== src/Value.antt =====
-- The Python objects that JSON decoding yields, which the bridge receives and sends:
-- src/dcc_mcp_obs/bridge.py and src/dcc_mcp_obs/protocol.py work on nothing else.
pub mod Dict
pub mod Check
pub mod Float
pub mod Equal
pub mod Text
pub mod Json
use dcc_mcp_obs.Base.{ℕ, String, Bool, List, [], ◌∷◌}

-- Python's unbounded `int`; `negsuc n` is -(n + 1).
pub data ℤ : Type 0 where
  pos : ℕ → ℤ
  negsuc : ℕ → ℤ

-- A `float` is its IEEE 754 binary64 bit pattern, a number below 2^64.
mutual
  -- the entries of a dict, in their order
  pub data Fields : Type 0 where
    field : String → Value → Fields → Fields
    end : Fields

  -- the entries of a list
  pub data Items : Type 0 where
    cons : Value → Items → Items
    nil : Items

  pub data Value : Type 0 where
    str : String → Value
    int : ℤ → Value
    float : ℕ → Value
    bool : Bool → Value
    null : Value
    dict : Fields → Value
    list : Items → Value

unfoldable pub elements : Items → List Value
elements nil = []
elements (cons v vs) = v ∷ elements vs
