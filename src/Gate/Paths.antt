-- ===== src/Gate/Paths.antt =====
-- backend/app/auth.py: which paths are the agents', the devices' and the readers'.
use Prim.Native.Char.{Char, code}
use sha.Base.{
  String, Bool, true, false, not, ◌&&◌, ◌||◌, none, some, List, [], ◌∷◌, ◌==◌, if◌then◌else◌,
  str_eq,
}
use sha.Identity.{after_literal}

-- What the middleware reads of a request: an absent header is an empty text.
pub record HttpRequest : Type 0 where
  pub method : String
  pub path : String
  pub authorization : String
  pub api_token : String
  pub session_cookie : String
  pub external_auth : String
  pub external_role : String
  pub external_user : String
  pub csrf : String
  pub origin : String
  pub referer : String
  pub sec_fetch_site : String

abbrev pub is_slash : Char → Bool
is_slash c = code c == 47

-- `str.lstrip("/")` and `str.rstrip("/")`
unfoldable pub lstrip_slash : String → String
lstrip_slash String.[] = String.[]
lstrip_slash (String.◌∷◌ c s) =
    let rest = lstrip_slash s in if is_slash c then rest else String.◌∷◌ c s

unfoldable pub rstrip_slash : String → String
rstrip_slash String.[] = String.[]
rstrip_slash (String.◌∷◌ c s) =
    let rest = rstrip_slash s in
    if is_slash c && str_eq rest "" then String.[] else String.◌∷◌ c rest

abbrev put_first : Char → List String → List String
put_first c [] = String.◌∷◌ c String.[] ∷ []
put_first c (part ∷ parts) = String.◌∷◌ c part ∷ parts

-- `str.split("/")`
unfoldable pub split_slash : String → List String
split_slash String.[] = String.[] ∷ []
split_slash (String.◌∷◌ c s) =
    let rest = split_slash s in if is_slash c then String.[] ∷ rest else put_first c rest

-- `path.strip("/").split("/")`
unfoldable pub parts_of : String → List String
unfolding split_slash rstrip_slash lstrip_slash
parts_of path = split_slash (rstrip_slash (lstrip_slash path))

abbrev pub is_post : HttpRequest → Bool
is_post request = str_eq request.method "POST"

-- The cases of `_is_existing_agent_path` that need the method to be POST.
unfoldable pub agent_parts : List String → Bool
agent_parts (a ∷ b ∷ []) = str_eq a "api" && str_eq b "posture-snapshots"
agent_parts (a ∷ b ∷ c ∷ []) = str_eq a "api" && (str_eq b "endpoints" && str_eq c "enroll")
agent_parts (a ∷ b ∷ c ∷ d ∷ []) =
    str_eq a "api"
    && ((str_eq b "endpoints" && str_eq d "heartbeat")
        || (str_eq b "response-actions" && str_eq d "result"))
agent_parts (a ∷ b ∷ c ∷ d ∷ e ∷ []) =
    str_eq a "api" && (str_eq b "endpoints" && (str_eq d "response-actions" && str_eq e "claim"))
agent_parts _ = false

-- `_is_existing_agent_path`
unfoldable pub is_existing_agent_path : HttpRequest → Bool
is_existing_agent_path request = is_post request && agent_parts (parts_of request.path)

-- `_is_bootstrap_path`
unfoldable pub is_bootstrap_path : HttpRequest → Bool
is_bootstrap_path request = is_post request && str_eq request.path "/api/agent/bootstrap"

-- `_is_device_only_path`
unfoldable pub is_device_only_path : HttpRequest → Bool
is_device_only_path request =
    if str_eq request.path "/api/agent/me"
    then str_eq request.method "GET"
    else if str_eq request.path "/api/agent/credentials/rotate"
    then is_post request
    else false

-- `_is_agent_path`
unfoldable pub is_agent_path : HttpRequest → Bool
is_agent_path request =
    is_existing_agent_path request || (is_bootstrap_path request || is_device_only_path request)

-- `{"GET", "HEAD", "OPTIONS"}`
unfoldable pub is_reading : HttpRequest → Bool
is_reading request =
    str_eq request.method "GET" || (str_eq request.method "HEAD" || str_eq request.method "OPTIONS")

-- An installer profile's artifact, which a reader may not download.
unfoldable pub artifact_parts : List String → Bool
artifact_parts (a ∷ b ∷ c ∷ d ∷ []) =
    str_eq a "api" && (str_eq b "installer-profiles" && str_eq d "artifact")
artifact_parts _ = false

abbrev under_api : String → Bool
under_api path = elim (after_literal "/api/" path) [ none ↦ false | some rest ↦ true ]

-- `_is_readonly_path`
unfoldable pub is_readonly_path : HttpRequest → Bool
is_readonly_path request =
    if not (is_reading request) || is_agent_path request
    then false
    else if artifact_parts (parts_of request.path)
    then false
    else under_api request.path

-- `_OPEN_PATHS`
unfoldable pub is_open_path : HttpRequest → Bool
is_open_path request =
    str_eq request.path "/health"
    || (str_eq request.path "/api/auth/oidc/login" || str_eq request.path "/api/auth/oidc/callback")
