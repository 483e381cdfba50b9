-- ===== src/Samples.antt =====
-- Concrete messages, events and configurations, for the examples.
use codex_warden.Prelude.{
  ℕ, String, Bool, true, false, Option, some, none, List, [], ◌∷◌, ◌≡◌, refl, arith, opt_eq,
  and_then, ite, lookup, string_discrete,
}
use codex_warden.Protocol.Json.{Json, JsonLaws, RpcId}
use codex_warden.Protocol.Frame.{Plane, lifecycle, delta, IncomingFrame}
use codex_warden.Protocol.Event.{SequencedEvent}

-- A small stand-in for `serde_json::Value`. An object is its fields one after another, and an array
-- its items; `nil` is both when empty.
pub data Value : Type 0 where
  nil null : Value
  text : String → Value
  nat : ℕ → Value
  bool : Bool → Value
  id : RpcId → Value
  field : String → Value → Value → Value
  item : Value → Value → Value

unfoldable pub get : Value → String → Option Value
get (field k v rest) q = ite (string_discrete k q) (some v) (get rest q)
get _ q = none

unfoldable pub as_str : Value → Option String
as_str (text s) = some s
as_str _ = none

unfoldable pub items : Value → List Value
items (item x rest) = x ∷ items rest
items _ = []

unfoldable pub as_array : Value → Option (List Value)
unfolding items
as_array nil = some []
as_array (item x rest) = some (x ∷ items rest)
as_array _ = none

unfoldable pub as_bool : Value → Option Bool
as_bool (bool b) = some b
as_bool _ = none

unfoldable pub as_u64 : Value → Option ℕ
as_u64 (nat n) = some n
as_u64 _ = none

unfoldable pub is_null : Value → Bool
is_null null = true
is_null _ = false

unfoldable pub to_rpc_id : Value → Option RpcId
to_rpc_id (id i) = some i
to_rpc_id _ = none

unfoldable pub array : List Value → Value
array [] = nil
array (x ∷ xs) = item x (array xs)

unfoldable pub object : List (String × Value) → Value
object [] = nil
object ((k, v) ∷ fs) = field k v (object fs)

abbrev pub json : Json Value
json = record {
  get = get;
  as_str = as_str;
  as_array = as_array;
  as_bool = as_bool;
  as_u64 = as_u64;
  is_null = is_null;
  field_is = λ v k s. opt_eq (and_then (get v k) as_str) (some s);
  null = null;
  text = text;
  nat = nat;
  negative = λ _. null;
  bool = bool;
  array = array;
  object = object;
  to_rpc_id = to_rpc_id;
  of_rpc_id = id;
  display = λ _. "error";
  debug_id = λ _. "id";
  to_ascii_lowercase = λ s. s;
  parse_u64 = λ _. none;
}

get-object :
    (fs : List (String × Value)) (k : String) → get (object fs) k ≡ lookup string_discrete k fs
unfolding get object lookup
get-object [] k = refl
get-object ((q, v) ∷ fs) k = ground (arith, get-object fs k)

pub laws : JsonLaws json
unfolding as_str to_rpc_id
laws = record { get-object = get-object; as_str-text = λ s. refl; to_rpc_id-of_rpc_id = λ i. refl }

-- A notification on thread "t" and turn "u".
abbrev pub sample : ℕ → String → Plane → SequencedEvent Value
sample sequence m plane = record {
  sequence = sequence;
  unix_receipt_ms = sequence;
  monotonic_ms = sequence;
  emitted_at_ms = none;
  plane = plane;
  thread_id = some "t";
  turn_id = some "u";
  frame = IncomingFrame.notification m nil none nil;
  reconstructed = false;
}

abbrev pub started : SequencedEvent Value
started = sample 1 "turn/started" lifecycle

abbrev pub spoken : SequencedEvent Value
spoken = sample 2 "item/agentMessage/delta" delta

abbrev pub completed : SequencedEvent Value
completed = sample 3 "turn/completed" lifecycle

-- Each event takes ten bytes.
abbrev pub ten : SequencedEvent Value → ℕ
ten _ = 10
