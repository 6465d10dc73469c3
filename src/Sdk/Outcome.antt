-- ===== src/Sdk/Outcome.antt =====
-- result.go: the results of a tool. `A` is what the values of a result's data map are.
use event_correlator_tool.Common.{String, Option, none, some, List, [], ◌∷◌, if◌then◌else◌, ◌==◌}
use event_correlator_tool.Common.Int.{ℤ}
use event_correlator_tool.Common.Dict.{Dict}
use event_correlator_tool.Model.{Bytes}

-- A `DataDisposition` is a string; these are its constants.
abbrev pub disposition_auto : String
disposition_auto = "auto"

abbrev pub disposition_artifact : String
disposition_artifact = "artifact"

abbrev pub disposition_inline : String
disposition_inline = "inline"

abbrev pub disposition_artifact_with_preview : String
disposition_artifact_with_preview = "artifact_with_preview"

abbrev pub status_success : String
status_success = "success"

abbrev pub status_error : String
status_error = "error"

abbrev pub status_partial : String
status_partial = "partial"

abbrev pub status_pending : String
status_pending = "pending"

abbrev pub error_code_auth_required : String
error_code_auth_required = "AUTH_REQUIRED"

-- `Content` is a byte slice that may be nil.
pub record DataObject (A : Type 0) : Type 0 where
  pub name : String
  pub content : Option Bytes
  pub mime_type : String
  pub disposition : String
  pub inline_max_bytes : ℤ
  pub description : String
  pub preview : String
  pub metadata : Dict A
  pub tags : List String

pub record ToolResult (A : Type 0) : Type 0 where
  pub status : String
  pub message : String
  pub fields : Dict A
  pub data_objects : List (DataObject A)
  pub error_code : String

module _ {A : Type 0} where
  -- A `ResultOption` is a function that changes the result.
  unfoldable pub with_data : Dict A → ToolResult A → ToolResult A
  with_data fields r = record r { fields = fields }

  unfoldable pub with_data_objects : List (DataObject A) → ToolResult A → ToolResult A
  with_data_objects objects r = record r { data_objects = objects }

  unfoldable pub with_error_code : String → ToolResult A → ToolResult A
  with_error_code code r = record r { error_code = code }

  abbrev pub apply_options : List (ToolResult A → ToolResult A) → ToolResult A → ToolResult A
  apply_options [] r = r
  apply_options (option ∷ options) r = apply_options options (option r)

  abbrev pub plain : String → String → ToolResult A
  plain status message = record {
    status = status;
    message = message;
    fields = [];
    data_objects = [];
    error_code = "";
  }

  -- `OK`, `Error`, `Partial` and `Pending`
  unfoldable pub succeed : String → List (ToolResult A → ToolResult A) → ToolResult A
  succeed message options = apply_options options (plain status_success message)

  unfoldable pub fail : String → List (ToolResult A → ToolResult A) → ToolResult A
  fail message options = apply_options options (plain status_error message)

  unfoldable pub partial : String → List (ToolResult A → ToolResult A) → ToolResult A
  partial message options = apply_options options (plain status_partial message)

  unfoldable pub pending : String → List (ToolResult A → ToolResult A) → ToolResult A
  pending message options = apply_options options (plain status_pending message)

  unfoldable pub auth_required : String → ToolResult A
  auth_required message = record (plain status_error message) {
    error_code = error_code_auth_required;
  }

unfoldable pub nil_if_empty : String → Option String
nil_if_empty s = if s == "" then none else some s
