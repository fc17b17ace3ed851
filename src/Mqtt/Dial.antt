-- ===== src/Mqtt/Dial.antt =====
-- client_paho.go: openFreshConnection. The addresses of the resolver, and the fate of each dial and
-- handshake, are parameters; the TCP connections that stay open are listed.
use arduino_cloud_connector.Common.{
  String, Bool, ◌&&◌, ◌||◌, ◌≡◌, ◌≢◌, refl, ◌∙◌, Option, none, some, List, [], ◌∷◌, str_eq,
  if◌then◌else◌, not, eq_refl, eq_iff, Option-cases, ◌⊎◌, ap, inl, inr, arith,
}

-- The URI of the broker.
pub record Uri : Type 0 where
  pub scheme : String
  pub hostname : String
  pub port : String

abbrev pub port_of : Uri → String
port_of uri =
    if str_eq uri.port ""
    then (if str_eq uri.scheme "ssl"
          || (str_eq uri.scheme "tls" || (str_eq uri.scheme "mqtts" || str_eq uri.scheme "wss"))
        then "8883"
        else "1883")
    else uri.port

-- The schemes whose default port is 8883.
abbrev pub IsSecure : String → Type 0
IsSecure scheme = (scheme ≡ "ssl") ⊎ (scheme ≡ "tls") ⊎ (scheme ≡ "mqtts") ⊎ (scheme ≡ "wss")

-- The port that the URI names, or the default of its scheme.
abbrev pub IsPort : Uri → String → Type 0
IsPort uri port =
    ((uri.port ≢ "") × (port ≡ uri.port))
    ⊎ ((uri.port ≡ "") × IsSecure uri.scheme × (port ≡ "8883"))
    ⊎ ((uri.port ≡ "") × ¬ IsSecure uri.scheme × (port ≡ "1883"))

port_of-IsPort : (uri : Uri) → IsPort uri (port_of uri)
port_of-IsPort uri = ground (
  arith,
  eq_iff uri.port "",
  eq_iff uri.scheme "ssl",
  eq_iff uri.scheme "tls",
  eq_iff uri.scheme "mqtts",
  eq_iff uri.scheme "wss",
)

pub data DialError : Type 0 where
  dns_lookup no_addresses all_failed : DialError

-- An address to dial, net.JoinHostPort of an IP and a port, and a connection to it.
abbrev pub Address : Type 0
Address = String × String

-- What the network does: the addresses of a host, whether a dial and then a handshake, with the name
-- that the certificate is checked against, succeed.
pub record Network : Type 0 where
  pub lookup_host : String → Option (List String)
  pub dials : Address → Bool
  pub shakes_hands : Address → String → Bool

pub data Dial : Type 0 where
  connection : Address → Dial
  dial_failed : DialError → Dial

-- tcpConn.Close
unfoldable pub close : Address → List Address → List Address
close a [] = []
close a (o ∷ opened) =
    let rest = close a opened in if str_eq a.0 o.0 && str_eq a.1 o.1 then opened else o ∷ rest

module _ (net : Network) where
  -- The loop over the addresses, with the connections that are open.
  unfoldable pub try_all : String → String → List String → List Address → Dial × List Address
  try_all host port [] opened = (dial_failed all_failed, opened)
  try_all host port (ip ∷ ips) opened =
      let addr : Address = (ip, port) in
      let after_dial = try_all host port ips opened in
      let after_handshake = try_all host port ips (close addr (addr ∷ opened)) in
      if not (net.dials addr)
      then after_dial
      else if not (net.shakes_hands addr host)
      then after_handshake
      else (connection addr, addr ∷ opened)

  abbrev pub dial_all : Uri → Option (List String) → Dial × List Address
  dial_all uri none = (dial_failed dns_lookup, [])
  dial_all uri (some []) = (dial_failed no_addresses, [])
  dial_all uri (some (ip ∷ ips)) = try_all uri.hostname (port_of uri) (ip ∷ ips) []

  unfoldable pub open_fresh_connection : Uri → Dial × List Address
  open_fresh_connection uri = dial_all uri (net.lookup_host uri.hostname)

  -- The first address that takes the connection and whose certificate is good for the host.
  abbrev pub first_good : String → String → List String → Option Address
  first_good host port [] = none
  first_good host port (ip ∷ ips) =
      if net.dials (ip, port) && net.shakes_hands (ip, port) host
      then some (ip, port)
      else first_good host port ips

  -- A connection is the only one that stays open, and none stays open without it.
  abbrev pub answer_to : Option Address → List Address → Dial × List Address
  answer_to none opened = (dial_failed all_failed, opened)
  answer_to (some addr) opened = (connection addr, addr ∷ opened)

  try_all-answer_to :
      (host port : String) (ips : List String) (opened : List Address)
      → try_all host port ips opened ≡ answer_to (first_good host port ips) opened
  unfolding try_all close
  try_all-answer_to host port [] opened = refl
  try_all-answer_to host port (ip ∷ ips) opened =
      rw (eq_refl ip, eq_refl port) (ground (arith, try_all-answer_to host port ips opened))

  abbrev pub resolved : Option (List String) → List String
  resolved none = []
  resolved (some ips) = ips

  dial_all-first_good :
      (uri : Uri) (found : Option (List String))
      → let r = dial_all uri found in
        let good = first_good uri.hostname (port_of uri) (resolved found) in
        ((addr : Address) × (good ≡ some addr) × (r ≡ (connection addr, addr ∷ [])))
        ⊎ ((e : DialError) × (good ≡ none) × (r ≡ (dial_failed e, [])))
  dial_all-first_good uri none = inr (dns_lookup, refl, refl)
  dial_all-first_good uri (some []) = inr (no_addresses, refl, refl)
  dial_all-first_good uri (some (ip ∷ ips)) =
      elim (Option-cases (first_good uri.hostname (port_of uri) (ip ∷ ips))) [
        | inl bad ↦ inr (
          all_failed,
          bad,
          try_all-answer_to uri.hostname (port_of uri) (ip ∷ ips) []
              ∙ ap (λ (o : Option Address). answer_to o []) bad,
        )
        | inr (addr, good) ↦ inl (
          addr,
          good,
          try_all-answer_to uri.hostname (port_of uri) (ip ∷ ips) []
              ∙ ap (λ (o : Option Address). answer_to o []) good,
        )
      ]

  -- Whatever the resolver, the dials and the handshakes do, openFreshConnection returns the
  -- connection to the first resolved address that takes the dial and shakes hands for the host, on
  -- the port that the URI names or else 8883 for the schemes ssl, tls, mqtts and wss and 1883 for
  -- the others, and that is the only TCP connection that it leaves open; if there is no such
  -- address it returns an error and leaves none open.
  pub open_fresh-first_good :
      (uri : Uri)
      → let r = open_fresh_connection uri in
        (port : String) × IsPort uri port
        × (let good = first_good uri.hostname port (resolved (net.lookup_host uri.hostname)) in
            ((addr : Address) × (good ≡ some addr) × (r ≡ (connection addr, addr ∷ [])))
            ⊎ ((e : DialError) × (good ≡ none) × (r ≡ (dial_failed e, []))))
  unfolding open_fresh_connection
  open_fresh-first_good uri =
      (port_of uri, port_of-IsPort uri, dial_all-first_good uri (net.lookup_host uri.hostname))
