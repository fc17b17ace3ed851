-- ===== src/Mqtt.antt =====
-- internal/mqtt/client_paho.go and the topics of internal/mqtt/client.go. The clients of the paho library
-- are objects by identity, each with the state of its connection; what the broker does is an input.
-- TLS, X.509 and the file system are the record Tls of operations that may fail.

pub mod Calls
pub mod Dial
mod Machine
pub mod Sessions
mod Leak
mod Examples
use arduino_cloud_connector.Common.{
  ℕ, ◌+◌, String, Bool, true, false, Option, none, some, List, [], ◌∷◌, str_eq, update,
  if◌then◌else◌,
}
use arduino_cloud_connector.Variables.Text.{append}

-- ── topics ──

abbrev pub command_up_topic : String → String
command_up_topic device_id = append "/a/d/" (append device_id "/c/up")

abbrev pub command_down_topic : String → String
command_down_topic device_id = append "/a/d/" (append device_id "/c/dw")

abbrev pub property_in_topic : String → String
property_in_topic thing_id = append "/a/t/" (append thing_id "/e/i")

abbrev pub property_out_topic : String → String
property_out_topic thing_id = append "/a/t/" (append thing_id "/e/o")

-- ── TLS ──

-- K is a private key, C a key pair, P a pool of roots.
pub record Tls (K C P : Type 0) : Type 0 where
  pub device_cert_pem : Option String
  pub cloud_private_key : Option K
  pub marshal_key : K → Option String
  pub key_pair : String → String → Option C
  pub read_file : String → Option String
  pub parse_roots : String → Option P

pub data Error : Type 0 where
  load_device_cert load_cloud_key marshal_cloud_key build_key_pair : Error
  read_ca_file no_ca_certificates context_done refused not_connected : Error
  ack_timeout broker_error encode_command : Error

pub data Result {ℓ} (A : Type ℓ) : Type ℓ where
  ok : A → Result A
  err : Error → Result A

infixl 5 ◌>>=◌
abbrev pub ◌>>=◌ {ℓ κ} : {A : Type ℓ} {B : Type κ} → Result A → (A → Result B) → Result B
ok a >>= f = f a
err e >>= f = err e

abbrev pub or_error {ℓ} : {A : Type ℓ} → Error → Option A → Result A
or_error e none = err e
or_error e (some a) = ok a

pub record TlsConfig (C P : Type 0) : Type 0 where
  pub certificate : C
  pub root_cas : Option P

module _ {K C P : Type 0} (tls : Tls K C P) where
  -- No pool is the pool of the system.
  unfoldable pub broker_root_cas : String → Result (Option P)
  broker_root_cas ca_file = if str_eq ca_file "" then ok none else do
    pem ← or_error read_ca_file (tls.read_file ca_file)
    pool ← or_error no_ca_certificates (tls.parse_roots pem)
    ok (some pool)

  unfoldable pub build_tls_config : String → Result (TlsConfig C P)
  build_tls_config ca_file = do
    cert_pem ← or_error load_device_cert tls.device_cert_pem
    key ← or_error load_cloud_key tls.cloud_private_key
    key_pem ← or_error marshal_cloud_key (tls.marshal_key key)
    cert ← or_error build_key_pair (tls.key_pair cert_pem key_pem)
    pool ← broker_root_cas ca_file
    ok (record { certificate = cert; root_cas = pool })

-- ── the client ──

-- The connection of a client of the library.
pub data Phase : Type 0 where
  unused dialing up down : Phase

abbrev pub is_up : Phase → Bool
is_up up = true
is_up _ = false

-- What is sent to the broker.
pub data Packet : Type 0 where
  subscribe_packet unsubscribe_packet : String → Packet
  publish_packet : String → List ℕ → Packet

-- `phases` are the clients of the library and `next` the identity of the next one; `names` are their
-- client ids, `sent` the packets with the client that sent them, newest first, and `lost` counts the calls
-- of the registered connection-lost handler.
pub record PahoClient : Type 0 where
  pub client : Option ℕ
  pub has_handler : Bool
  pub phases : ℕ → Phase
  pub names : ℕ → String
  pub next : ℕ
  pub sent : List (ℕ × Packet)
  pub lost : ℕ

unfoldable pub new_paho_client : PahoClient
new_paho_client = record {
  client = none;
  has_handler = false;
  phases = λ id. unused;
  names = λ id. "";
  next = 0;
  sent = [];
  lost = 0;
}

unfoldable pub on_connection_lost : PahoClient → PahoClient
on_connection_lost c = record c { has_handler = true }

abbrev pub set_client : Option ℕ → PahoClient → PahoClient
set_client id c = record c { client = id }

unfoldable pub notify_connection_lost : PahoClient → PahoClient
notify_connection_lost c = if c.has_handler then record c { lost = c.lost + 1 } else c

-- client.Disconnect(500) of the old client, if it is connected.
abbrev pub quiesce : Option ℕ → PahoClient → PahoClient
quiesce none c = c
quiesce (some id) c =
    if is_up (c.phases id) then record c { phases = update c.phases id down } else c

unfoldable pub disconnect : PahoClient → PahoClient
disconnect c = quiesce c.client (set_client none c)

abbrev pub is_connected_at : Option ℕ → PahoClient → Bool
is_connected_at none c = false
is_connected_at (some id) c = is_up (c.phases id)

unfoldable pub is_connected : PahoClient → Bool
is_connected c = is_connected_at c.client c

-- What the select of Connect meets first: the context is done, or the token, with or without an error.
pub data Dialed : Type 0 where
  aborted rejected accepted : Dialed

-- NewClient and client.Connect: the new client has the device id as its client id, if there is one.
abbrev pub dial : String → Phase → PahoClient → PahoClient
dial name phase c = record c {
  phases = update c.phases c.next phase;
  names = update c.names c.next name;
  next = c.next + 1;
}

abbrev pub dialed : String → Dialed → PahoClient → Option Error × PahoClient
dialed name aborted c = (some context_done, dial name dialing c)
dialed name rejected c = (some refused, dial name down c)
dialed name accepted c = (none, set_client (some c.next) (dial name up c))

abbrev pub name_of : Option String → String
name_of none = ""
name_of (some device_id) = device_id

abbrev pub connect_with :
    {C P : Type 0}
    → Result (TlsConfig C P)
    → Option String
    → Dialed
    → PahoClient
    → Option Error × PahoClient
connect_with (err e) device_id outcome c = (some e, c)
connect_with (ok cfg) device_id outcome c = dialed (name_of device_id) outcome c

unfoldable pub connect :
    {K C P : Type 0}
    → Tls K C P
    → String
    → Option String
    → Dialed
    → PahoClient
    → Option Error × PahoClient
connect tls ca_file device_id outcome c =
    connect_with (build_tls_config tls ca_file) device_id outcome (disconnect c)
