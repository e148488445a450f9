-- ===== src/Text/Laws.antt =====
-- What normalising a text gives: backend/app/utils.py.
use Prim.Native.String.{String}
use sha.Base.{◌≡◌, ◌&&◌, refl, false, Result, ok, Bool-cases, inl, inr}
use sha.Text.{is_space, lstrip, is_empty, rstrip, strip, trim_required}

-- The text is empty, or begins with a character that is no space.
abbrev StartsClean : String → Type 0
StartsClean String.[] = Unit
StartsClean (String.◌∷◌ c s) = is_space c ≡ false

lstrip-StartsClean : (s : String) → StartsClean (lstrip s)
unfolding lstrip
lstrip-StartsClean String.[] = tt
lstrip-StartsClean (String.◌∷◌ c s) = elim (Bool-cases (is_space c)) [
  | inl e ↦ rw e (lstrip-StartsClean s)
  | inr e ↦ rw e e
]

lstrip_of_StartsClean : (s : String) → StartsClean s → lstrip s ≡ s
unfolding lstrip
lstrip_of_StartsClean String.[] h = refl
lstrip_of_StartsClean (String.◌∷◌ c s) h = rw h

rstrip-StartsClean : (s : String) → StartsClean s → StartsClean (rstrip s)
unfolding rstrip
rstrip-StartsClean String.[] h = tt
rstrip-StartsClean (String.◌∷◌ c s) h = rw h h

rstrip_idem : (s : String) → rstrip (rstrip s) ≡ rstrip s
unfolding rstrip
rstrip_idem String.[] = refl
rstrip_idem (String.◌∷◌ c s) = elim (Bool-cases (is_space c && is_empty (rstrip s))) [
  | inl e ↦ rw e
  | inr e ↦ rw e (rw (rstrip_idem s) (rw e))
]

-- Stripping a text again changes nothing.
pub strip_idem : (s : String) → strip (strip s) ≡ strip s
unfolding strip
strip_idem s =
    rw
      (lstrip_of_StartsClean (rstrip (lstrip s))
        (rstrip-StartsClean (lstrip s) (lstrip-StartsClean s)))
      (rstrip_idem (lstrip s))

-- Where `_trim_required` returns a text, it is the stripped value, it is not empty, and
-- stripping it again changes nothing.
trim_required-trimmed :
    (value field_name : String) {t : String}
    → trim_required value field_name ≡ ok t
    → (t ≡ strip value) × (strip t ≡ t) × (is_empty t ≡ false)
unfolding trim_required
trim_required-trimmed value field_name h = elim (Bool-cases (is_empty (strip value))) [
  | inl e ↦ cc (rw e at h)
  | inr e ↦ done e (rw e at h)
]
  where
    done :
        {t : String}
        → is_empty (strip value) ≡ false
        → ◌≡◌ {A = Result String} (ok (strip value)) (ok t)
        → (t ≡ strip value) × (strip t ≡ t) × (is_empty t ≡ false)
    done {t} e h' = let p : strip value ≡ t = (cc) in rw (← p) (refl, strip_idem value, e)
