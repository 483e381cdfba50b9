-- ===== src/Protocol/Json.antt =====
-- The JSON values of `serde_json`, a third-party package, as a parameter `V` with the operations
-- that the program calls; and the program's outgoing messages (src/protocol/src/lib.rs).
use codex_warden.Prelude.{
  ℕ, String, Bool, Option, some, List, [], ◌∷◌, ◌≡◌, string_discrete, lookup, and_then,
}

-- `RpcId`.
pub data RpcId : Type 0 where
  number : ℕ → RpcId
  string : String → RpcId

-- The operations of `serde_json::Value` that the program calls.
pub record Json (V : Type 0) : Type 0 where
  -- `Value::get` with a text, `Value::as_str`, `as_array`, `as_bool`, `as_u64` and `is_null`.
  pub get : V → String → Option V
  pub as_str : V → Option String
  pub as_array : V → Option (List V)
  pub as_bool : V → Option Bool
  pub as_u64 : V → Option ℕ
  pub is_null : V → Bool
  -- `value[key] == text`.
  pub field_is : V → String → String → Bool
  -- `Value::Null`, and what the macro `json!` builds.
  pub null : V
  pub text : String → V
  pub nat : ℕ → V
  -- A number below zero, by its absolute value.
  pub negative : ℕ → V
  pub bool : Bool → V
  pub array : List V → V
  pub object : List (String × V) → V
  -- `serde_json::from_value::<RpcId>`, and `RpcId` in `json!`.
  pub to_rpc_id : V → Option RpcId
  pub of_rpc_id : RpcId → V
  -- `Display` of a value, and `{:?}` of an id.
  pub display : V → String
  pub debug_id : RpcId → String
  -- `str::to_ascii_lowercase` and `str::parse::<u64>`.
  pub to_ascii_lowercase : String → String
  pub parse_u64 : String → Option ℕ

-- What the documentation of `serde_json` says of those operations, as far as the proofs use it.
pub record JsonLaws {V : Type 0} (j : Json V) : Type 0 where
  pub get-object :
      (fs : List (String × V)) (k : String) → j.get (j.object fs) k ≡ lookup string_discrete k fs
  pub as_str-text : (s : String) → j.as_str (j.text s) ≡ some s
  pub to_rpc_id-of_rpc_id : (id : RpcId) → j.to_rpc_id (j.of_rpc_id id) ≡ some id

module _ {V : Type 0} (j : Json V) where
  -- `value.get(a).and_then(Value::as_str)`, and two levels of `get` before it.
  abbrev pub get_str : V → String → Option String
  get_str v k = and_then (j.get v k) j.as_str

  abbrev pub get_str_at : V → String → String → Option String
  get_str_at v k l = and_then (and_then (j.get v k) (λ w. j.get w l)) j.as_str

  unfoldable pub request : RpcId → String → V → V
  request id method params = j.object (
      ("jsonrpc", j.text "2.0")
      ∷ ("id", j.of_rpc_id id)
      ∷ ("method", j.text method)
      ∷ ("params", params)
      ∷ [])

  unfoldable pub notification : String → V → V
  notification method params =
      j.object (("jsonrpc", j.text "2.0") ∷ ("method", j.text method) ∷ ("params", params) ∷ [])
