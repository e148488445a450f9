-- ===== src/Identity/Parsing.antt =====
-- The texts of backend/app/device_identity.py: what is issued is parsed back.
use Prim.Native.Char.{Char, char, code}
use Prim.Native.String.{◌++◌, count}
use text.Mathlib.TextEquality.{Char-path}
use text.Mathlib.TextLemmas.{nil-append, cons-append, append_assoc}
use sha.Base.{
  ℕ, String, ◌≡◌, ◌↔◌, refl, ap, ap₂, ◌∙◌, sym, Bool, true, false, not, ◌&&◌, arith, Option, none,
  some, ◌==◌, leb, Bool-cases, Option-cases, inl, inr, ==_iff,
}
use sha.Outside.{Outside}
use sha.Identity.Secrets.{
  is_dot, every, is_hex_digit, after_literal, at_dot, put_before, has_shape, is_token_id,
  is_secret_text, is_canonical_secret, groups, parse_material, parse_enrollment_token,
  enrollment_token_text,
}

after_literal-append : (p s : String) → after_literal p (p ++ s) ≡ some s
unfolding after_literal
after_literal-append String.[] s = ap some (nil-append s)
after_literal-append (String.◌∷◌ c p) s =
    let e = (==_iff (code c) (code c)).1 refl in
    rw (cons-append c p s) (rw e (after_literal-append p s))

after_literal-some : (p s : String) {rest : String} → after_literal p s ≡ some rest → s ≡ p ++ rest
unfolding after_literal
after_literal-some String.[] s {rest} h = cc (nil-append rest)
after_literal-some (String.◌∷◌ c p) String.[] h = cc
after_literal-some (String.◌∷◌ c p) (String.◌∷◌ d s) {rest} h =
    elim (Bool-cases (code c == code d)) [
      | inl e ↦
          let q = Char-path c d ((==_iff (code c) (code d)).0 e) in
          let r = after_literal-some p s (rw e at h) in
          ap₂ (λ x y. String.◌∷◌ x y) (sym q) r ∙ sym (cons-append c p rest)
      | inr e ↦ cc (rw e at h)
    ]

abbrev no_dot : Char → Bool
no_dot c = not (is_dot c)

abbrev dot : Char
dot = char 46 tt

dot_first : (s : String) → "." ++ s ≡ String.◌∷◌ dot s
dot_first s = cons-append dot "" s ∙ ap (λ t. String.◌∷◌ dot t) (nil-append s)

at_dot-append : (a s : String) → every no_dot a ≡ true → at_dot (a ++ ("." ++ s)) ≡ some (a, s)
unfolding at_dot
at_dot-append String.[] s h = rw (nil-append ("." ++ s)) (rw (dot_first s) refl)
at_dot-append (String.◌∷◌ c a) s h =
    let r = at_dot-append a s (ground arith) in
    let e : is_dot c ≡ false = ground arith in rw (cons-append c a ("." ++ s)) (rw e (rw r refl))

at_dot-some : (v : String) {a b : String} → at_dot v ≡ some (a, b) → v ≡ a ++ ("." ++ b)
unfolding at_dot
at_dot-some String.[] h = cc
at_dot-some (String.◌∷◌ c s) {a} {b} h = elim (Bool-cases (is_dot c)) [
  | inl e ↦
      let q : c ≡ dot = Char-path c dot ((==_iff (code c) 46).0 e) in
      cc (rw e at h, q, dot_first s, nil-append ("." ++ s))
  | inr e ↦ by_rest (at_dot s) refl (λ x y q. at_dot-some s q) (rw e at h)
]
  where
    by_rest :
        (r : Option (String × String))
        → at_dot s ≡ r
        → ((x y : String) → at_dot s ≡ some (x, y) → s ≡ x ++ ("." ++ y))
        → put_before c r ≡ some (a, b)
        → String.◌∷◌ c s ≡ a ++ ("." ++ b)
    by_rest none q step h' = cc
    by_rest (some (x, y)) q step h' = cc (h', step x y q, cons-append c x ("." ++ y))

-- A token identifier has no dot.
module _ (class : Char → Bool) (p : String) (low high : ℕ) where
  has_shape-every :
      (s : String)
      → has_shape p class low high s ≡ true
      → (rest : String) × (after_literal p s ≡ some rest) × (every class rest ≡ true)
  unfolding has_shape
  has_shape-every s h = elim (Option-cases (after_literal p s)) [
    | inl e ↦ cc (rw (e, has_shape) at h)
    | inr (rest, e) ↦ (rest, e, by_rest rest (rw (e, has_shape) at h))
  ]
    where
      by_rest :
          (rest : String)
          → (every class rest && (leb low (count rest) && leb (count rest) high)) ≡ true
          → every class rest ≡ true
      by_rest rest h' = ground arith

every_mono :
    (p q : Char → Bool)
    → ((c : Char) → p c ≡ true → q c ≡ true)
    → (s : String) → every p s ≡ true
    → every q s ≡ true
every_mono p q le String.[] h = refl
every_mono p q le (String.◌∷◌ c s) h =
    let a : p c ≡ true = ground arith in
    let b : every p s ≡ true = ground arith in
    let d = le c a in let r = every_mono p q le s b in ground arith

every-append :
    (p : Char → Bool) (s t : String) → every p s ≡ true → every p t ≡ true → every p (s ++ t) ≡ true
every-append p String.[] t h k = rw (nil-append t) k
every-append p (String.◌∷◌ c s) t h k =
    let a : p c ≡ true = ground arith in
    let b : every p s ≡ true = ground arith in
    rw (cons-append c s t) (rw a (every-append p s t b k))

hex_no_dot : (c : Char) → is_hex_digit c ≡ true → no_dot c ≡ true
hex_no_dot c h = ground arith

id_no_dots : (id : String) → is_token_id id ≡ true → every no_dot id ≡ true
unfolding is_token_id
id_no_dots id h =
    let (rest, e, f) = has_shape-every is_hex_digit "et_" 32 32 id h in
    let q = after_literal-some "et_" id e in
    rw q (every-append no_dot "et_" rest refl (every_mono is_hex_digit no_dot hex_no_dot rest f))

module _ (o : Outside) where
  groups-some :
      (is_id : String → Bool) (r : Option (String × String)) {id secret : String}
      → groups o is_id r ≡ some (id, secret)
      → (r ≡ some (id, secret))
        × (is_id id ≡ true)
        × (is_secret_text secret ≡ true)
        × (is_canonical_secret o secret ≡ true)
  unfolding groups
  groups-some is_id none h = cc
  groups-some is_id (some (a, b)) h = ground arith

  groups-ok :
      (is_id : String → Bool) {id secret : String}
      → is_id id ≡ true
      → is_secret_text secret ≡ true
      → is_canonical_secret o secret ≡ true
      → groups o is_id (some (id, secret)) ≡ some (id, secret)
  unfolding groups
  groups-ok is_id i s k = ground arith

  -- A text is parsed into an identifier and a secret exactly when it is the text that is issued
  -- for the two, the identifier has the form of a token's, and the secret is canonical.
  pub parse_enrollment_token_iff :
      (value id secret : String)
      → (parse_enrollment_token o value ≡ some (id, secret)) ↔ (
          (value ≡ enrollment_token_text id secret)
          × (is_token_id id ≡ true)
          × (is_secret_text secret ≡ true)
          × (is_canonical_secret o secret ≡ true))
  unfolding parse_enrollment_token parse_material enrollment_token_text
  parse_enrollment_token_iff value id secret = (taken, issued)
    where
      taken :
          parse_enrollment_token o value ≡ some (id, secret)
          → (value ≡ enrollment_token_text id secret)
            × (is_token_id id ≡ true)
            × (is_secret_text secret ≡ true)
            × (is_canonical_secret o secret ≡ true)
      taken h = elim (Option-cases (after_literal "sha_enroll." value)) [
        | inl e ↦ cc (rw (e, parse_enrollment_token, parse_material) at h)
        | inr (body, e) ↦
            let (q, i, s, k) =
              groups-some is_token_id (at_dot body)
                (rw (e, parse_enrollment_token, parse_material) at h) in
            (
              after_literal-some "sha_enroll." value e
                  ∙ ap (λ t. "sha_enroll." ++ t) (at_dot-some body q)
                  ∙ sym (append_assoc "sha_enroll." id ("." ++ secret)),
              i,
              s,
              k,
            )
      ]

      issued :
          ((value ≡ enrollment_token_text id secret)
            × (is_token_id id ≡ true)
            × (is_secret_text secret ≡ true)
            × (is_canonical_secret o secret ≡ true))
          → parse_enrollment_token o value ≡ some (id, secret)
      issued (e, i, s, k) =
          let split : after_literal "sha_enroll." value ≡ some (id ++ ("." ++ secret)) =
            ap (after_literal "sha_enroll.") (e ∙ append_assoc "sha_enroll." id ("." ++ secret))
            ∙ after_literal-append "sha_enroll." (id ++ ("." ++ secret)) in
          rw (split, parse_enrollment_token, parse_material)
            (rw (at_dot-append id secret (id_no_dots id i)) (groups-ok is_token_id i s k))
