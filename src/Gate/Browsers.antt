-- ===== src/Gate/Browsers.antt =====
-- What stands behind the principal of a browser session.
use sha.Base.{ℕ, ◌≤◌, ◌≡◌, refl, arith}
use sha.Model.{BrowserSession}
use sha.Outside.{Outside}
use sha.Gate.Sessions.{touched_session}

-- A session that is used never idles beyond its absolute time, and is otherwise the same.
pub touched_session_bounds :
    (now minutes : ℕ) (s : BrowserSession)
    → let t = touched_session now minutes s in
      (t.idle_expires_at ≤ s.absolute_expires_at)
      × (t.absolute_expires_at ≡ s.absolute_expires_at)
      × (t.revoked_at ≡ s.revoked_at)
      × (t.token_hash ≡ s.token_hash)
unfolding touched_session
touched_session_bounds now minutes s = (omega arith, refl, refl, refl)
