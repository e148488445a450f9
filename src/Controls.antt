-- ===== src/Controls.antt =====
-- `require_control_action` of backend/app/control_registry.py. The registry itself is read from
-- the source packs; here it is a table from control identifiers.
use Prim.Native.String.{◌++◌}
use sha.Base.{String, not, Option, none, some, List, Result, ok, err, http, if◌then◌else◌, contains}
use sha.Model.{Action, action_eq, action_text, Platform, platform_is, windows, linux, macos}

pub record RegisteredControl : Type 0 where
  pub platform : Platform
  pub supported_actions : List Action

abbrev pub Registry : Type 0
Registry = String → Option RegisteredControl

abbrev pub platform_text : Platform → String
platform_text windows = "windows"
platform_text linux = "linux"
platform_text macos = "macos"

supports : RegisteredControl → Platform → Action → Result RegisteredControl
supports control platform action =
    if not (platform_is control.platform platform)
    then err (
        http 422 (
          (("control_id is for " ++ platform_text control.platform) ++ ", not endpoint platform ")
          ++ platform_text platform))
    else if not (contains action control.supported_actions)
    then err (http 422 ("control_id does not support " ++ action_text action))
    else ok control

-- The `ValueError` is the 422 that every caller turns it into.
unfoldable pub require_control_action :
    Registry → String → Platform → Action → Result RegisteredControl
unfolding supports
require_control_action registry control_id platform action = elim (registry control_id) [
  | none ↦ err (http 422 "control_id is not present in the canonical control registry")
  | some control ↦ supports control platform action
]
