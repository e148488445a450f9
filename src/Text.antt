-- ===== src/Text.antt =====
-- backend/app/utils.py: how a text from a request is normalised, and the test for duplicates.
-- The choices that the request schema already limits to an enumeration are data types here.
pub mod Laws
use Prim.Native.Char.{Char, code}
use Prim.Native.String.{String, ◌++◌}
use sha.Base.{
  ℕ, Bool, true, false, ◌&&◌, ◌||◌, Option, none, some, List, [], ◌∷◌, Result, ok, err, HttpError,
  http, ◌>>=◌, if◌then◌else◌, leb, ◌==◌, Eq, contains,
}

-- `str.isspace`, for one character.
is_space : Char → Bool
is_space c =
    let n = code c in
    (leb 9 n && leb n 13)
    || ((leb 28 n && leb n 32)
        || (n == 133
            || (n == 160
                || (n == 5760
                    || ((leb 8192 n && leb n 8202)
                        || (n == 8232
                            || (n == 8233 || (n == 8239 || (n == 8287 || n == 12288)))))))))

-- `str.lstrip()`
lstrip : String → String
lstrip String.[] = String.[]
lstrip (String.◌∷◌ c s) = let rest = lstrip s in if is_space c then rest else String.◌∷◌ c s

abbrev pub is_empty : String → Bool
is_empty String.[] = true
is_empty (String.◌∷◌ _ _) = false

-- `str.rstrip()`
rstrip : String → String
rstrip String.[] = String.[]
rstrip (String.◌∷◌ c s) =
    let rest = rstrip s in if is_space c && is_empty rest then String.[] else String.◌∷◌ c rest

-- `str.strip()`
unfoldable pub strip : String → String
unfolding lstrip rstrip is_space
strip s = rstrip (lstrip s)

-- `_trim_required`
unfoldable pub trim_required : String → String → Result String
unfolding strip
trim_required value field_name =
    let trimmed = strip value in
    if is_empty trimmed then err (http 422 (field_name ++ " must not be empty")) else ok trimmed

-- `normalize_optional_string`
unfoldable pub normalize_optional : Option String → String → Result (Option String)
normalize_optional none field_name = ok none
normalize_optional (some value) field_name = do
  trimmed ← trim_required value field_name
  ok (some trimmed)
