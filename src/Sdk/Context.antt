-- ===== src/Sdk/Context.antt =====
-- context.go: what a tool reads of its environment.
use event_correlator_tool.Common.{
  String, ◌<>◌, Bool, Option, none, some, List, [], ◌∷◌, if◌then◌else◌, ◌==◌,
}
use event_correlator_tool.Common.Int.{ℤ}
use event_correlator_tool.Common.Dict
use event_correlator_tool.Common.Dict.{Dict}
use event_correlator_tool.Model.{Float64}
use mathlib.Core.Option

-- A configuration value, an `any`: nil, the types that `configInt` tells apart, and all others.
pub data Value : Type 0 where
  null : Value
  text : String → Value
  float : Float64 → Value
  int : ℤ → Value
  other : Value

pub record VolumeMount : Type 0 where
  pub volume_id : String
  pub mount_path : String
  pub read_only : Bool

-- `ToolContext`, without its pipes and callbacks. A nil map reads like an empty one.
pub record ToolContext : Type 0 where
  pub user_id : String
  pub session_id : String
  pub app_name : String
  pub task_id : String
  pub volume_mounts : List VolumeMount
  pub config : Dict Value
  pub output_dir : String
  pub oauth_token : String
  pub auth_headers : Dict String
  pub artifact_paths : Dict String
  pub artifact_meta : Dict (Dict Value)

unfoldable pub get_config : ToolContext → String → Option Value
get_config tc key = Dict.get tc.config key

unfoldable pub get_config_string : ToolContext → String → String → String
get_config_string tc key default = elim (Dict.get tc.config key) [
  | none ↦ default
  | some (text s) ↦ s
  | some _ ↦ default
]

unfoldable pub config_keys : ToolContext → List String
config_keys tc = Dict.keys tc.config

unfoldable pub get_auth_token : ToolContext → String
get_auth_token tc = tc.oauth_token

unfoldable pub authorization_header : ToolContext → String
authorization_header tc =
    let v = Option.get_or (Dict.get tc.auth_headers "Authorization") "" in
    if v == "" then (if tc.oauth_token == "" then "" else "Bearer " <> tc.oauth_token) else v

mount_path_of : List VolumeMount → String → Option String
mount_path_of [] path = none
mount_path_of (vm ∷ mounts) path =
    if vm.mount_path == path then some vm.mount_path else mount_path_of mounts path

unfoldable pub get_volume_mount_path : ToolContext → String → Option String
unfolding mount_path_of
get_volume_mount_path tc path = mount_path_of tc.volume_mounts path

-- `ConfigSchemaField` of tool.go; a default of nil is no default, and nil options are none.
pub record ConfigSchemaField : Type 0 where
  pub key : String
  pub kind : String
  pub description : String
  pub required : Bool
  pub secret : Bool
  pub default : Option Value
  pub options : List Value
