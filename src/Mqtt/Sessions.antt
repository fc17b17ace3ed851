-- ===== src/Mqtt/Sessions.antt =====
-- client_paho.go: which clients of the library are connected, over any series of calls and events.
use arduino_cloud_connector.Common.{
  ℕ, ◌<◌, ◌≡◌, ◌≢◌, refl, String, Option, none, some, List, [], ◌∷◌, All, update, arith,
}
use arduino_cloud_connector.Mqtt.{
  TlsConfig, Result, ok, err, PahoClient, Packet, name_of, Phase, unused, dialing, up, down, Dialed,
  aborted, rejected, accepted, new_paho_client, on_connection_lost, notify_connection_lost, quiesce,
  disconnect, dialed, connect_with, connect, build_tls_config,
}
use arduino_cloud_connector.Mqtt.Calls.{
  Ack, timed_out, failed, acked, send_packet, call_on, unsubscribe_on, publish_command_on,
  publish_property_on, after_publish, subscribe_command_channel, subscribe_property_topic,
  unsubscribe_property_topic, publish_command, publish_property,
}
use arduino_cloud_connector.Mqtt.Machine.{
  Input, connecting, disconnecting, registering, lost, settled_up, settled_down,
  subscribing_commands, subscribing_property, unsubscribing_property, publishing_command,
  publishing_property, lose, settle, step, steps, IsPatient,
}

-- Nothing dials, and only the current client is connected.
pub record IsSingle (c : PahoClient) : Type 0 where
  pub settled : (id : ℕ) → c.phases id ≢ dialing
  pub current : (id : ℕ) → c.phases id ≡ up → c.client ≡ some id
  pub below : (id : ℕ) → c.client ≡ some id → id < c.next

quiesce-IsSingle :
    (was : Option ℕ) (c : PahoClient)
    → c.client ≡ was
    → IsSingle c
    → IsSingle (quiesce was (record c { client = none }))
quiesce-IsSingle none c e s = record {
  settled = s.settled;
  current = λ id u. ground (arith, s.current id u);
  below = λ id u. ground arith;
}
quiesce-IsSingle (some n) c e s = record {
  settled = λ id. ground (arith, s.settled id);
  current = λ id u. ground (arith, s.current id);
  below = λ id u. ground arith;
}

disconnect-IsSingle : (c : PahoClient) → IsSingle c → IsSingle (disconnect c)
unfolding disconnect
disconnect-IsSingle c s = quiesce-IsSingle c.client c refl s

quiesce-client : (was : Option ℕ) (c : PahoClient) → (quiesce was c).client ≡ c.client
quiesce-client none c = refl
quiesce-client (some n) c = ground arith

pub disconnect-client : (c : PahoClient) → (disconnect c).client ≡ none
unfolding disconnect
disconnect-client c = quiesce-client c.client (record c { client = none })

dialed-IsSingle :
    (name : String) (outcome : Dialed) (c : PahoClient)
    → outcome ≢ aborted
    → c.client ≡ none
    → IsSingle c
    → IsSingle (dialed name outcome c).1
dialed-IsSingle name aborted c patient e s = elim (patient refl) [ ]
dialed-IsSingle name rejected c patient e s = record {
  settled = λ id. ground (arith, s.settled id);
  current = λ id u. ground (arith, s.current id);
  below = λ id u. ground (arith, s.below id);
}
dialed-IsSingle name accepted c patient e s = record {
  settled = λ id. ground (arith, s.settled id);
  current = λ id u. ground (arith, s.current id);
  below = λ id u. ground arith;
}

-- The connections, the current client and the next identity are as before.
abbrev Keeps : PahoClient → PahoClient → Type 0
Keeps c c' = (c'.phases ≡ c.phases) × (c'.client ≡ c.client) × (c'.next ≡ c.next)

Keeps-IsSingle : (c c' : PahoClient) → Keeps c c' → IsSingle c → IsSingle c'
Keeps-IsSingle c c' k s = record {
  settled = rw k.0 s.settled;
  current = rw (k.0, k.1) s.current;
  below = rw (k.1, k.2) s.below;
}

notify-Keeps : (c : PahoClient) → Keeps c (notify_connection_lost c)
unfolding notify_connection_lost
notify-Keeps c = ground arith

call_on-Keeps :
    (o : Option ℕ) (p : Packet) (ack : Ack) (c : PahoClient) → Keeps c (call_on o p ack c).1
call_on-Keeps none p ack c = (refl, refl, refl)
call_on-Keeps (some id) p ack c = (refl, refl, refl)

unsubscribe_on-Keeps :
    (o : Option ℕ) (thing_id : String) (ack : Ack) (c : PahoClient)
    → Keeps c (unsubscribe_on o thing_id ack c).1
unsubscribe_on-Keeps none thing_id ack c = (refl, refl, refl)
unsubscribe_on-Keeps (some id) thing_id ack c = (refl, refl, refl)

publish_command_on-Keeps :
    (o : Option ℕ) (device_id : String) (payload : Option (List ℕ)) (ack : Ack) (c : PahoClient)
    → Keeps c (publish_command_on o device_id payload ack c).1
publish_command_on-Keeps none device_id payload ack c = (refl, refl, refl)
publish_command_on-Keeps (some id) device_id none ack c = (refl, refl, refl)
publish_command_on-Keeps (some id) device_id (some payload) ack c = (refl, refl, refl)

after_publish-Keeps : (ack : Ack) (c : PahoClient) → Keeps c (after_publish ack c)
after_publish-Keeps timed_out c = notify-Keeps c
after_publish-Keeps failed c = (refl, refl, refl)
after_publish-Keeps acked c = (refl, refl, refl)

publish_property_on-Keeps :
    (o : Option ℕ) (thing_id : String) (payload : List ℕ) (ack : Ack) (c : PahoClient)
    → Keeps c (publish_property_on o thing_id payload ack c).1
publish_property_on-Keeps none thing_id payload ack c = (refl, refl, refl)
publish_property_on-Keeps (some id) thing_id payload ack c =
    after_publish-Keeps ack (send_packet id _ c)

lose-IsSingle : (id : ℕ) (phase : Phase) (c : PahoClient) → IsSingle c → IsSingle (lose id phase c)
lose-IsSingle id up c s =
    Keeps-IsSingle (record c { phases = update c.phases id down })
      (notify_connection_lost (record c { phases = update c.phases id down }))
      (notify-Keeps (record c { phases = update c.phases id down }))
      (record {
        settled = λ n. ground (arith, s.settled n);
        current = λ n u. ground (arith, s.current n);
        below = s.below;
      })
lose-IsSingle id unused c s = s
lose-IsSingle id dialing c s = s
lose-IsSingle id down c s = s

settle-IsSingle :
    (id : ℕ) (to phase : Phase) (c : PahoClient)
    → c.phases id ≡ phase
    → IsSingle c
    → IsSingle (settle id to phase c)
settle-IsSingle id to dialing c e s = elim (s.settled id e) [ ]
settle-IsSingle id to unused c e s = s
settle-IsSingle id to up c e s = s
settle-IsSingle id to down c e s = s

connect_with-IsSingle :
    {C P : Type 0} (cfg : Result (TlsConfig C P)) (device_id : Option String) (outcome : Dialed)
    (c : PahoClient)
    → outcome ≢ aborted
    → c.client ≡ none
    → IsSingle c
    → IsSingle (connect_with cfg device_id outcome c).1
connect_with-IsSingle (err e) device_id outcome c patient no_client s = s
connect_with-IsSingle (ok cfg) device_id outcome c patient no_client s =
    dialed-IsSingle (name_of device_id) outcome c patient no_client s

new-IsSingle : IsSingle new_paho_client
unfolding new_paho_client
new-IsSingle = record { settled = λ id e. cc; current = λ id e. cc; below = λ id e. cc }

module _ {K C P : Type 0} where
  step-IsSingle :
      (i : Input K C P) (c : PahoClient) → IsPatient i → IsSingle c → IsSingle (step i c)
  unfolding step connect on_connection_lost subscribe_command_channel subscribe_property_topic
      unsubscribe_property_topic publish_command publish_property
  step-IsSingle (connecting tls ca_file device_id outcome) c p s =
      connect_with-IsSingle (build_tls_config tls ca_file) device_id outcome (disconnect c) p
        (disconnect-client c) (disconnect-IsSingle c s)
  step-IsSingle disconnecting c p s = disconnect-IsSingle c s
  step-IsSingle registering c p s = Keeps-IsSingle c _ (refl, refl, refl) s
  step-IsSingle (lost id) c p s = lose-IsSingle id (c.phases id) c s
  step-IsSingle (settled_up id) c p s = settle-IsSingle id up (c.phases id) c refl s
  step-IsSingle (settled_down id) c p s = settle-IsSingle id down (c.phases id) c refl s
  step-IsSingle (subscribing_commands device_id ack) c p s =
      Keeps-IsSingle c _ (call_on-Keeps c.client _ ack c) s
  step-IsSingle (subscribing_property thing_id ack) c p s =
      Keeps-IsSingle c _ (call_on-Keeps c.client _ ack c) s
  step-IsSingle (unsubscribing_property thing_id ack) c p s =
      Keeps-IsSingle c _ (unsubscribe_on-Keeps c.client thing_id ack c) s
  step-IsSingle (publishing_command encode device_id cmd ack) c p s =
      Keeps-IsSingle c _ (publish_command_on-Keeps c.client device_id (encode cmd) ack c) s
  step-IsSingle (publishing_property thing_id payload ack) c p s =
      Keeps-IsSingle c _ (publish_property_on-Keeps c.client thing_id payload ack c) s

  steps-IsSingle :
      (is : List (Input K C P)) (c : PahoClient)
      → All IsPatient is
      → IsSingle c
      → IsSingle (steps is c)
  unfolding steps
  steps-IsSingle [] c p s = s
  steps-IsSingle (i ∷ is) c p s = steps-IsSingle is (step i c) p.1 (step-IsSingle i c p.0 s)

  -- After any series of calls of the paho client, lost connections and acknowledgements that fail
  -- or time out, in which no Connect is given up while its client dials, at most one client of the
  -- library is connected, it is the one that the calls go through, none is left dialing, and after
  -- Disconnect none is connected.
  pub reachable-IsSingle :
      (is : List (Input K C P))
      → All IsPatient is
      → IsSingle (steps is new_paho_client)
        × ((id : ℕ) → (disconnect (steps is new_paho_client)).phases id ≢ up)
  reachable-IsSingle is p =
      let s = steps-IsSingle is new_paho_client p new-IsSingle in
      let c = steps is new_paho_client in
      (s, λ id u. ground (arith, disconnect-client c, (disconnect-IsSingle c s).current id u))
