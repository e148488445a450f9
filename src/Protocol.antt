-- ===== src/Protocol.antt =====
-- backend/app/agent_protocol.py: the agent protocol versions and the policy for legacy reporters.
pub mod Deadline
use sha.Base.{
  ℕ, String, Bool, true, false, ◌||◌, not, Option, none, some, List, [], ◌∷◌, if◌then◌else◌, leb,
  contains, string_eq, str_eq,
}
use sha.Text.{strip, is_empty}

abbrev pub current_agent_protocol_version : String
current_agent_protocol_version = "sha-agent-v1"

abbrev pub supported_agent_protocol_versions : List String
supported_agent_protocol_versions = current_agent_protocol_version ∷ []

abbrev pub legacy_reporter_protocol_version : String
legacy_reporter_protocol_version = "legacy-v1"

-- `require_supported_agent_protocol`; `none` is `UnsupportedAgentProtocol`.
unfoldable pub require_supported_agent_protocol : String → Option String
require_supported_agent_protocol protocol_version =
    if not (contains protocol_version supported_agent_protocol_versions)
    then none
    else some protocol_version

-- An instant in UTC: its seconds, and the year of its date.
pub record Instant : Type 0 where
  pub seconds : ℕ
  pub year : ℕ

pub data Mode : Type 0 where
  disabled migration : Mode

pub record LegacyReporterPolicy : Type 0 where
  pub mode : Mode
  pub compatibility_until : Option Instant

pub data ConfigError : Type 0 where
  bad_mode bad_deadline missing_deadline extra_deadline : ConfigError

pub data Config : Type 0 where
  configured : LegacyReporterPolicy → Config
  refused : ConfigError → Config

abbrev parse_mode : String → Option Mode
parse_mode mode =
    if str_eq mode "disabled"
    then some disabled
    else if str_eq mode "migration"
    then some migration
    else none

-- The last two checks, and the policy.
settle : Mode → Option Instant → Config
settle migration none = refused missing_deadline
settle disabled (some t) = refused extra_deadline
settle disabled none = configured (record { mode = disabled; compatibility_until = none })
settle migration (some t) = configured (record { mode = migration; compatibility_until = some t })

-- `parse` is `_parse_rfc3339`, which raises where it gives `none`.
module _ (parse : String → Option Instant) where
  parse_deadline : String → Mode → Config
  unfolding settle
  parse_deadline trimmed mode =
      if is_empty trimmed
      then settle mode none
      else elim (parse trimmed) [ none ↦ refused bad_deadline | some t ↦ settle mode (some t) ]

  with_mode : Option Mode → Option String → Config
  unfolding parse_deadline settle
  with_mode none deadline = refused bad_mode
  with_mode (some mode) none = settle mode none
  with_mode (some mode) (some deadline) = parse_deadline (strip deadline) mode

  -- `LegacyReporterPolicy.from_config`
  unfoldable pub from_config : String → Option String → Config
  unfolding with_mode
  from_config mode compatibility_until = with_mode (parse_mode mode) compatibility_until

abbrev deadline_allows : Option Instant → ℕ → Bool
deadline_allows none now = true
deadline_allows (some t) now = leb now t.seconds || leb 2026 t.year

-- `allows`, at a given time.
unfoldable pub allows : LegacyReporterPolicy → ℕ → Bool
allows policy now = elim policy.mode [
  | disabled ↦ false
  | migration ↦ deadline_allows policy.compatibility_until now
]

pub data PolicyState : Type 0 where
  disabled active expired : PolicyState

-- `state`
unfoldable pub state : LegacyReporterPolicy → ℕ → PolicyState
unfolding allows
state policy now = elim policy.mode [
  | disabled ↦ PolicyState.disabled
  | migration ↦ if allows policy now then active else expired
]
