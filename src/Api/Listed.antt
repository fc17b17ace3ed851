-- ===== src/Api/Listed.antt =====
-- api.go: the CORS middleware against the list of origins in the comment on allowedOrigins.
use arduino_cloud_connector.Common.{
  ℕ, ◌+◌, ◌≡◌, ◌⊎◌, ◌≤◌, String, Bool, true, false, ◌&&◌, [], ◌∷◌, ◌==◌,
}
use Prim.Native.Char.{code}
use arduino_cloud_connector.Api.Cors.{Url, AllowedOrigin, fold}

-- A character of a host is a rule's lower-case one, its capital, or one of the two signs that fold to it.
abbrev pub SameLetter : ℕ → ℕ → Type 0
SameLetter c d =
    (c ≡ d)
    ⊎ ((65 ≤ c) × (c ≤ 90) × (c + 32 ≡ d))
    ⊎ ((c ≡ 0x17f) × (d ≡ 115))
    ⊎ ((c ≡ 0x212a) × (d ≡ 107))

-- Letter for letter, neither text being longer.
abbrev pub SameHost : String → String → Type 0
SameHost String.[] String.[] = Unit
SameHost String.[] (String.◌∷◌ d t) = ⊥
SameHost (String.◌∷◌ c s) String.[] = ⊥
SameHost (String.◌∷◌ c s) (String.◌∷◌ d t) = SameLetter (code c) (code d) × SameHost s t

-- The characters of a rule's host are none that fold to another.
abbrev is_lower : String → Bool
is_lower String.[] = true
is_lower (String.◌∷◌ d t) = fold (code d) == code d && is_lower t

-- The URL has the scheme and the host.
abbrev pub Names : Url → String → String → Type 0
Names u scheme host = (u.scheme ≡ scheme) × SameHost u.hostname host

-- The list in the comment on allowedOrigins.
abbrev pub IsListed : Url → Type 0
IsListed u =
    (Names u "wails" "wails" × (u.port ≡ ""))
    ⊎ Names u "wails" "wails.localhost"
    ⊎ Names u "http" "wails.localhost"
    ⊎ Names u "http" "localhost"
    ⊎ Names u "https" "localhost"

-- scheme://host[:port]
abbrev pub IsBare : Url → Type 0
IsBare u =
    (u.opaque ≡ "") × (u.has_user ≡ false) × (u.path ≡ "") × (u.raw_query ≡ "") × (u.fragment ≡ "")

-- What a rule asks of a URL.
abbrev MatchesRule : Url → AllowedOrigin → Type 0
MatchesRule u a = Names u a.scheme a.host × ((a.any_port ≡ true) ⊎ (u.port ≡ ""))
