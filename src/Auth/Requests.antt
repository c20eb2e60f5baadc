-- ===== src/Auth/Requests.antt =====
-- backend/src/auth.rs and the cookies of backend/src/admin.rs: what a request says of who sends it.
use peanut_butter.Prelude.{
  ℕ, Bool, true, false, Option, none, some, List, [], ◌∷◌, ◌++◌, ◌==◌, ◌&&◌, ◌||◌, if◌then◌else◌,
  not, is_empty,
}
use peanut_butter.Text.{
  Text, codes, text_eq, trim, split, split_once, strip_prefix, starts_with, to_ascii_lowercase,
}

pub data Method : Type 0 where
  get : Method
  head : Method
  options : Method
  other : Text → Method

-- A header gives its first value, if that is a text.
pub record Request : Type 0 where
  pub method : Method
  pub path : Text
  pub query : Option Text
  pub header : Text → Option Text
  -- The address that it comes from.
  pub ip : ℕ

-- `filter(|s| !s.is_empty())`.
unfoldable pub nonempty : Option Text → Option Text
nonempty none = none
nonempty (some s) = if is_empty s then none else some s

-- `or_else`.
abbrev pub or_else : Option Text → Option Text → Option Text
or_else none b = b
or_else (some a) b = some a

unfoldable pub bearer : Option Text → Option Text
unfolding strip_prefix
bearer none = none
bearer (some v) = strip_prefix v (codes "Bearer ")

unfoldable pub extract_token : Request → Option Text
unfolding nonempty bearer
extract_token req =
    or_else (nonempty (req.header (codes "x-api-key")))
      (nonempty (bearer (req.header (codes "authorization"))))

-- The name and the value of `name=value`, or of a name alone.
unfoldable pub name_and_value : Text → Text × Text
unfolding split_once
name_and_value pair = elim (split_once pair b'=') [ none ↦ (pair, []) | some (n, v) ↦ (n, v) ]

-- The key of a pair, if it is one.
unfoldable pub key_of : Text → Option Text
unfolding name_and_value to_ascii_lowercase text_eq trim
key_of pair =
    let (raw_name, raw_value) = name_and_value pair in
    let name = to_ascii_lowercase raw_name in
    let value = trim raw_value in
    if not (text_eq name (codes "key")) && not (text_eq name (codes "token"))
    then none
    else if is_empty value
    then none
    else some value

unfoldable pub first_key : List Text → Option Text
unfolding key_of
first_key [] = none
first_key (pair ∷ rest) = or_else (key_of pair) (first_key rest)

unfoldable pub extract_token_from_query : Option Text → Option Text
unfolding split first_key
extract_token_from_query none = none
extract_token_from_query (some q) = first_key (split q (λ c. c == b'&'))

unfoldable pub is_console_feed : Text → Bool
unfolding starts_with text_eq
is_console_feed path = starts_with path (codes "/sync/") || text_eq path (codes "/updates/progress")

unfoldable pub is_read : Method → Bool
is_read Method.get = true
is_read Method.head = true
is_read Method.options = false
is_read (Method.other name) = false

unfoldable pub is_get : Method → Bool
is_get Method.get = true
is_get Method.head = false
is_get Method.options = false
is_get (Method.other name) = false

unfoldable pub is_options : Method → Bool
is_options Method.get = false
is_options Method.head = false
is_options Method.options = true
is_options (Method.other name) = false

unfoldable pub is_media_get : Method → Text → Bool
unfolding is_read starts_with
is_media_get method path =
    is_read method
    && (starts_with path (codes "/stream/")
        || starts_with path (codes "/files/")
        || starts_with path (codes "/updates/files/"))

-- The value of this cookie in one part of the header.
unfoldable pub cookie_in : Text → Text → Option Text
unfolding trim strip_prefix nonempty
cookie_in name part = elim (strip_prefix (trim part) (name ++ (b'=' ∷ []))) [
  | none ↦ none
  | some v ↦ nonempty (some (trim v))
]

unfoldable pub first_cookie : Text → List Text → Option Text
unfolding cookie_in
first_cookie name [] = none
first_cookie name (part ∷ rest) = or_else (cookie_in name part) (first_cookie name rest)

unfoldable pub cookie_value : Request → Text → Option Text
unfolding split first_cookie
cookie_value req name = elim (req.header (codes "cookie")) [
  | none ↦ none
  | some cookie ↦ first_cookie name (split cookie (λ c. c == b';'))
]
