-- ===== src/Api/Cors.antt =====
-- internal/api/api.go: the CORS middleware and its list of origins. url.Parse is a parameter, and so
-- are the methods of the URL that it gives.
use arduino_cloud_connector.Common.{
  ℕ, ◌+◌, String, Bool, true, false, not, ◌&&◌, ◌||◌, Option, none, some, List, [], ◌∷◌, str_eq,
  leb, ◌==◌, if◌then◌else◌,
}
use Prim.Native.Char.{code}

-- *url.URL with what Hostname and Port give; no other field of it is read.
pub record Url : Type 0 where
  pub scheme : String
  pub opaque : String
  pub has_user : Bool
  pub path : String
  pub raw_query : String
  pub fragment : String
  pub hostname : String
  pub port : String

pub record AllowedOrigin : Type 0 where
  pub scheme : String
  pub host : String
  pub any_port : Bool

abbrev pub allowed : String → String → Bool → AllowedOrigin
allowed scheme host any_port = record { scheme = scheme; host = host; any_port = any_port }

abbrev pub allowed_origins : List AllowedOrigin
allowed_origins =
    allowed "wails" "wails" false
    ∷ allowed "wails" "wails.localhost" true
    ∷ allowed "http" "wails.localhost" true
    ∷ allowed "http" "localhost" true
    ∷ allowed "https" "localhost" true
    ∷ []

-- strings.EqualFold where one side is ASCII: a letter is equal to its other case, s to U+017F and k
-- to U+212A.
abbrev pub fold : ℕ → ℕ
fold c =
    if leb b'A' c && leb c b'Z'
    then c + 32
    else if c == 0x17f
    then b's'
    else if c == 0x212a
    then b'k'
    else c

unfoldable pub equal_fold : String → String → Bool
equal_fold String.[] String.[] = true
equal_fold String.[] (String.◌∷◌ d t) = false
equal_fold (String.◌∷◌ c s) String.[] = false
equal_fold (String.◌∷◌ c s) (String.◌∷◌ d t) = fold (code c) == fold (code d) && equal_fold s t

-- One round of the loop: the rule lets the origin through.
abbrev pub lets_through : Url → AllowedOrigin → Bool
lets_through u a =
    if not (str_eq u.scheme a.scheme) || not (equal_fold u.hostname a.host)
    then false
    else a.any_port || str_eq u.port ""

unfoldable pub some_lets_through : Url → List AllowedOrigin → Bool
some_lets_through u [] = false
some_lets_through u (a ∷ rules) =
    let rest = some_lets_through u rules in if lets_through u a then true else rest

-- Something of the URL is neither scheme nor host nor port.
abbrev pub has_more : Url → Bool
has_more u =
    not (str_eq u.opaque "")
    || (u.has_user
        || (not (str_eq u.path "") || (not (str_eq u.raw_query "") || not (str_eq u.fragment ""))))

abbrev pub is_allowed_url : Option Url → Bool
is_allowed_url none = false
is_allowed_url (some u) = if has_more u then false else some_lets_through u allowed_origins

module _ (parse : String → Option Url) where
  unfoldable pub is_allowed_origin : String → Bool
  is_allowed_origin origin = if str_eq origin "" then false else is_allowed_url (parse origin)

  -- The origin that the response allows, and whether the next handler serves the request; without it
  -- the answer is 204.
  unfoldable pub cors_middleware : String → String → Option String × Bool
  cors_middleware origin method =
      ((if is_allowed_origin origin then some origin else none), not (str_eq method "OPTIONS"))
