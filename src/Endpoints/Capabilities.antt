-- ===== src/Endpoints/Capabilities.antt =====
-- backend/app/api/endpoints/endpoints.py and backend/app/utils.py: the capabilities that an agent
-- declares, and its manifest.
use Prim.Native.Char.{Char, code}
use Prim.Native.String.{compare}
use text.Mathlib.Text.{is_le}
use sha.Base.{
  String, Bool, true, false, not, ◌&&◌, ◌||◌, ◌==◌, leb, Option, none, some, List, [], ◌∷◌, Result,
  ok, err, http, ◌>>=◌, ◌>>◌, raise_if, if◌then◌else◌, str_eq, contains, has_duplicates, string_eq,
  order_by, map, all,
}
use sha.Text.{trim_required}
use sha.Model.{Action, apply_control, rollback_control, Platform, Fields}
use sha.Controls.{Registry, require_control_action}
use sha.Identity.{after_literal}

-- `AGENT_CAPABILITIES`
abbrev pub agent_capabilities : List String
agent_capabilities =
    "enroll" ∷ "heartbeat" ∷ "collect_posture_snapshot" ∷ "inspect_control" ∷ "apply_control"
    ∷ "rollback_control" ∷ "collect_security_context" ∷ "collect_remediation_evidence"
    ∷ "request_elevated_troubleshooting" ∷ []

abbrev is_word_char : Char → Bool
is_word_char c = let n = code c in (leb 97 n && leb n 122) || (leb 48 n && leb n 57)

abbrev is_separator : Char → Bool
is_separator c = code c == 46 || code c == 45

-- `[a-z0-9]+(?:[.-][a-z0-9]+)+`: whether a word has begun, and whether a separator was read.
unfoldable pub is_control_id : Bool → Bool → String → Bool
is_control_id in_word separated String.[] = in_word && separated
is_control_id in_word separated (String.◌∷◌ c s) =
    let word = is_control_id true separated s in
    let next = is_control_id false true s in
    (is_word_char c && word) || (in_word && (is_separator c && next))

-- The control that a typed capability names, with the action's prefix.
unfoldable pub typed_control : String → Option (Action × String)
typed_control capability = elim (after_literal "apply_control:" capability) [
  | some control_id ↦ some (apply_control, control_id)
  | none ↦ elim (after_literal "rollback_control:" capability) [
    | some control_id ↦ some (rollback_control, control_id)
    | none ↦ none
  ]
]

abbrev names_control : Option (Action × String) → Bool
names_control none = false
names_control (some (action, control_id)) = is_control_id false false control_id

-- `normalize_agent_capability`
unfoldable pub normalize_agent_capability : String → Result String
normalize_agent_capability value = do
  trimmed ← trim_required value "declared_capability"
  raise_if (not (contains trimmed agent_capabilities || names_control (typed_control trimmed)))
      (http 422 "declared_capability must be a known capability")
  ok trimmed

unfoldable pub normalize_each : List String → Result (List String)
normalize_each [] = ok []
normalize_each (c ∷ cs) = do
  first ← normalize_agent_capability c
  rest ← normalize_each cs
  ok (first ∷ rest)

-- `sorted`, by the numbers of the characters.
abbrev pub text_le : String → String → Bool
text_le a b = is_le (compare a b)

-- `_normalize_declared_capabilities`
unfoldable pub normalize_declared_capabilities : List String → Result (List String)
normalize_declared_capabilities raw = do
  capabilities ← normalize_each raw
  raise_if (has_duplicates capabilities)
      (http 422 "duplicate declared_capabilities are not allowed")
  ok (order_by text_le capabilities)

-- The kinds of a manifest's capabilities; `typed_action` is `action`.
pub data CapabilityKind : Type 0 where
  core collector typed_action : CapabilityKind

abbrev kind_is : CapabilityKind → CapabilityKind → Bool
kind_is core core = true
kind_is collector collector = true
kind_is typed_action typed_action = true
kind_is _ _ = false

pub record ManifestCapability : Type 0 where
  pub id : String
  pub kind : CapabilityKind

-- `AgentCapabilityManifest`: its capabilities, and all of it as `model_dump` gives it.
pub record CapabilityManifest : Type 0 where
  pub capabilities : List ManifestCapability
  pub dumped : Fields

abbrev same_texts : List String → List String → Bool
same_texts [] [] = true
same_texts (x ∷ xs) (y ∷ ys) = str_eq x y && same_texts xs ys
same_texts _ _ = false

unfoldable pub expected_kind : String → CapabilityKind
expected_kind identifier =
    if str_eq identifier "collect_posture_snapshot"
    then collector
    else elim (typed_control identifier) [ none ↦ core | some c ↦ typed_action ]

-- `_validate_capability_manifest`
unfoldable pub validate_capability_manifest : CapabilityManifest → List String → Result Fields
validate_capability_manifest manifest declared = do
  raise_if (not (same_texts (order_by text_le (map (λ c. c.id) manifest.capabilities)) declared))
      (http 422 "capability_manifest IDs must exactly match declared_capabilities")
  raise_if (not (all (λ c. kind_is c.kind (expected_kind c.id)) manifest.capabilities))
      (http 422 "capability has an invalid kind")
  ok manifest.dumped

unfoldable pub check_capability : Registry → Platform → Option (Action × String) → Result (Unit {0})
check_capability registry platform none = ok tt
check_capability registry platform (some (action, control_id)) =
    elim (require_control_action registry control_id platform action) [
      | err e ↦ err (http 422 "capability is not supported")
      | ok control ↦ ok tt
    ]

-- `_validate_manifest_platform`
unfoldable pub validate_manifest_platform :
    Registry → Platform → List ManifestCapability → Result (Unit {0})
validate_manifest_platform registry platform [] = ok tt
validate_manifest_platform registry platform (c ∷ cs) = do
  check_capability registry platform (typed_control c.id)
  validate_manifest_platform registry platform cs
