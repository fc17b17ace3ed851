-- ===== src/Mqtt/Examples.antt =====
-- client_paho.go at a concrete board and broker.
use arduino_cloud_connector.Common.{
  ℕ, ◌≡◌, ◌≢◌, ◌⊎◌, refl, String, none, some, List, [], ◌∷◌, str_eq, not,
}
use arduino_cloud_connector.Mqtt.{
  Tls, TlsConfig, ok, new_paho_client, aborted, accepted, rejected, up, build_tls_config,
  broker_root_cas, disconnect,
}
use arduino_cloud_connector.Mqtt.Calls.{timed_out}
use arduino_cloud_connector.Mqtt.Dial.{
  Network, Uri, Address, DialError, connection, dial_failed, first_good, resolved, IsPort,
  open_fresh_connection, try_all, close, open_fresh-first_good,
}
use arduino_cloud_connector.Mqtt.Machine.{
  Input, connecting, lost, settled_up, publishing_property, steps,
}
use arduino_cloud_connector.Mqtt.Sessions.{IsSingle, reachable-IsSingle}
use arduino_cloud_connector.Mqtt.Leak.{IsDoubled, aborted_connect-IsDoubled}

-- Keys, certificates and pools are their texts.
abbrev board : Tls String String String
board = record {
  device_cert_pem = some "cert";
  cloud_private_key = some "key";
  marshal_key = some;
  key_pair = λ cert key. some cert;
  read_file = λ name. some "roots";
  parse_roots = some;
}

abbrev config : TlsConfig String String
config = record { certificate = "cert"; root_cas = some "roots" }

builds : build_tls_config board "/ca.pem" ≡ ok config
unfolding build_tls_config broker_root_cas
builds = refl

abbrev session : List (Input String String String)
session =
    connecting board "/ca.pem" (some "dev") accepted
    ∷ publishing_property "thing" (1 ∷ []) timed_out
    ∷ lost 0
    ∷ connecting board "/ca.pem" (some "dev") rejected
    ∷ connecting board "/ca.pem" (some "dev") accepted
    ∷ []

reachable-IsSingle_example :
    IsSingle (steps session new_paho_client)
    × ((id : ℕ) → (disconnect (steps session new_paho_client)).phases id ≢ up)
reachable-IsSingle_example =
    reachable-IsSingle session ((λ e. cc), (tt, (tt, ((λ e. cc), ((λ e. cc), tt)))))

aborted_connect-IsDoubled_example :
    IsDoubled
      (steps
        (connecting board "/ca.pem" (some "dev") aborted
          ∷ settled_up 0
          ∷ connecting board "/ca.pem" (some "dev") accepted
          ∷ [])
        new_paho_client)
      0
      "dev"
unfolding new_paho_client
aborted_connect-IsDoubled_example =
    aborted_connect-IsDoubled board "/ca.pem" (some "dev") config new_paho_client builds

-- The first address does not answer, the second has a bad certificate.
abbrev net : Network
net = record {
  lookup_host = λ host. some ("10.0.0.1" ∷ "10.0.0.2" ∷ "10.0.0.3" ∷ []);
  dials = λ addr. not (str_eq addr.0 "10.0.0.1");
  shakes_hands = λ addr host. str_eq addr.0 "10.0.0.3";
}

abbrev broker : Uri
broker = record { scheme = "ssl"; hostname = "broker"; port = "" }

open_fresh-first_good_example :
    let r = open_fresh_connection net broker in
    (port : String) × IsPort broker port
    × (let good = first_good net "broker" port (resolved net (net.lookup_host "broker")) in
        ((addr : Address) × (good ≡ some addr) × (r ≡ (connection addr, addr ∷ [])))
        ⊎ ((e : DialError) × (good ≡ none) × (r ≡ (dial_failed e, []))))
open_fresh-first_good_example = open_fresh-first_good net broker

third :
    open_fresh_connection net broker ≡ (connection ("10.0.0.3", "8883"), ("10.0.0.3", "8883") ∷ [])
unfolding open_fresh_connection try_all close
third = refl
