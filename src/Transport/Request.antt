-- ===== src/Transport/Request.antt =====
-- The outcome of a request and the interface `RpcClient` (src/transport/src/lib.rs).
use Prim.Native.String.{◌++◌}
use codex_warden.Prelude.{String, Bool, true, false, Result, ok, err}
use codex_warden.Protocol.Json.{Json, RpcId}

pub data RequestError (V : Type 0) : Type 0 where
  not_written : String → RequestError V
  written_outcome_unknown : (id : RpcId) (method detail : String) → RequestError V
  rejected : (method : String) (error : V) → RequestError V
  timed_out : (method : String) → RequestError V
  closed : RequestError V

abbrev pub Reply : Type 0 → Type 0
Reply V = Result V (RequestError V)

module _ {V : Type 0} (j : Json V) where
  -- `Display`, from the `#[error(…)]` attributes.
  unfoldable pub error_text : RequestError V → String
  error_text (not_written detail) = "request was not written: " ++ detail
  error_text (written_outcome_unknown id method detail) =
      "request "
      ++ method
      ++ " ("
      ++ j.debug_id id
      ++ ") was written but its outcome is unknown: "
      ++ detail
  error_text (rejected method error) = "request " ++ method ++ " was rejected: " ++ j.display error
  error_text (timed_out method) = "request timed out after it may have been written: " ++ method
  error_text closed = "transport is shut down"

module _ {V : Type 0} where
  abbrev pub is_not_written : Reply V → Bool
  is_not_written (err (not_written _)) = true
  is_not_written _ = false

  abbrev pub is_ok : Reply V → Bool
  is_ok (ok _) = true
  is_ok (err _) = false
