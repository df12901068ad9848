-- ===== src/External/Json.antt =====
-- `serde_json::Value`, as far as the program builds and reads such values.
use secure_net.Base.{ℕ, String, List, ◌≡◌, Bool, Option, some, text_eq}
use secure_net.Base.HashMap.{HashMap, get}

pub record Json : Type 1 where
  pub Value : Type 0
  pub string : String → Value
  pub number : ℕ → Value
  pub bool : Bool → Value
  pub array : List Value → Value
  -- `json!({ "k": v, … })`
  pub object : HashMap String Value → Value
  -- `v.get(k)`, which `v[k]` reads too
  pub field : Value → String → Option Value
  pub as_str : Value → Option String
  pub as_str-string : (s : String) → as_str (string s) ≡ some s
  pub field-object :
      (entries : HashMap String Value) (k : String) → field (object entries) k ≡ get k entries
