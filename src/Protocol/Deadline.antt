-- ===== src/Protocol/Deadline.antt =====
-- When a legacy reporter is let in: backend/app/agent_protocol.py.
use sha.Base.{
  ℕ, ◌<◌, String, ◌≡◌, ◌↔◌, ◌⊎◌, inl, inr, Option, none, some, arith, Bool-cases, Option-cases,
}
use sha.Text.{strip, is_empty}
use sha.Protocol.{
  Instant, Mode, disabled, migration, LegacyReporterPolicy, configured, from_config, state, expired,
  settle, parse_mode, parse_deadline, with_mode,
}

-- What the configuration can yield: migration with a deadline, or disabled with none.
abbrev pub IsConsistent : LegacyReporterPolicy → Type 0
IsConsistent p =
    ((p.mode ≡ Mode.disabled) × (p.compatibility_until ≡ none))
    ⊎ ((t : Instant) × (p.mode ≡ migration) × (p.compatibility_until ≡ some t))

settle-IsConsistent :
    (mode : Mode) (deadline : Option Instant) {p : LegacyReporterPolicy}
    → settle mode deadline ≡ configured p
    → IsConsistent p
unfolding settle
settle-IsConsistent migration none h = cc
settle-IsConsistent migration (some t) h = inr (t, ground arith, ground arith)
settle-IsConsistent disabled none h = inl (ground arith, ground arith)
settle-IsConsistent disabled (some t) h = cc

module _ (parse : String → Option Instant) {p : LegacyReporterPolicy} where
  parse_deadline-IsConsistent :
      (trimmed : String) (mode : Mode)
      → parse_deadline parse trimmed mode ≡ configured p
      → IsConsistent p
  unfolding parse_deadline
  parse_deadline-IsConsistent trimmed mode h = elim (Bool-cases (is_empty trimmed)) [
    | inl e ↦ settle-IsConsistent mode none (rw e at h)
    | inr e ↦ elim (Option-cases (parse trimmed)) [
      | inl n ↦ cc (rw (e, n) at h)
      | inr (t, q) ↦ settle-IsConsistent mode (some t) (rw (e, q) at h)
    ]
  ]

  with_mode-IsConsistent :
      (mode : Option Mode) (deadline : Option String)
      → with_mode parse mode deadline ≡ configured p
      → IsConsistent p
  unfolding with_mode
  with_mode-IsConsistent none deadline h = cc
  with_mode-IsConsistent (some mode) none h = settle-IsConsistent mode none h
  with_mode-IsConsistent (some mode) (some deadline) h =
      parse_deadline-IsConsistent (strip deadline) mode h

  -- A policy that `from_config` accepts is disabled with no deadline, or migrates with one.
  pub from_config-IsConsistent :
      (mode : String) (deadline : Option String)
      → from_config parse mode deadline ≡ configured p
      → IsConsistent p
  unfolding from_config
  from_config-IsConsistent mode deadline h = with_mode-IsConsistent (parse_mode mode) deadline h

-- A policy with a deadline reports `expired` exactly when it migrates, the deadline has passed,
-- and the deadline lies before the year 2026: a later deadline never expires.
pub state-expired_iff :
    (p : LegacyReporterPolicy) (t : Instant) (now : ℕ)
    → p.compatibility_until ≡ some t
    → (state p now ≡ expired) ↔ ((p.mode ≡ migration) × (t.seconds < now) × (t.year < 2026))
unfolding state
state-expired_iff p t now h = ground arith
