-- ===== src/Gate/Admit.antt =====
-- backend/app/auth.py: `_authorize`, which paths a role may reach.
use sha.Base.{String, Bool, not, ◌&&◌, ◌||◌, Result, ok, err, http, if◌then◌else◌, str_eq}
use sha.Authz.{Principal, Role, readonly, human, agent, enrollment, is_device_credential}
use sha.Gate.Paths.{
  HttpRequest, is_existing_agent_path, is_bootstrap_path, is_device_only_path, is_agent_path,
  is_readonly_path,
}

-- What a device credential may reach.
unfoldable pub is_device_path : HttpRequest → Bool
is_device_path request =
    (is_existing_agent_path request && not (str_eq request.path "/api/endpoints/enroll"))
    || is_device_only_path request

unfoldable pub authorize_agent : HttpRequest → Principal → Result Principal
authorize_agent request principal =
    if is_device_credential principal.auth_method
    then (if is_device_path request
        then ok principal
        else err (http 403 "forbidden for device credential"))
    else if is_existing_agent_path request
    then ok principal
    else err (http 403 "forbidden for agent token")

abbrev pub role_may_read_only : Role → Bool
role_may_read_only readonly = Bool.true
role_may_read_only _ = Bool.false

abbrev agent_path_refusal : Role → String
agent_path_refusal readonly = "forbidden for read-only principal"
agent_path_refusal human = "forbidden for human principal"
agent_path_refusal _ = "forbidden for operator principal"

-- The roles of people: nothing of the agents' paths, and only the readers' paths for a reader.
unfoldable pub authorize_person : HttpRequest → Principal → Result Principal
authorize_person request principal =
    if is_agent_path request
    then err (http 403 (agent_path_refusal principal.role))
    else if not (role_may_read_only principal.role)
    then ok principal
    else if is_readonly_path request
    then ok principal
    else err (http 403 "forbidden for read-only principal")

-- `_authorize`: the principal with which the request goes on.
unfoldable pub authorize : HttpRequest → Principal → Result Principal
authorize request principal = elim principal.role [
  | enrollment ↦
      if is_bootstrap_path request
      then ok principal
      else err (http 403 "forbidden for enrollment token")
  | agent ↦ authorize_agent request principal
  | _ ↦ authorize_person request principal
]
