-- ===== src/Mqtt/Leak.antt =====
-- client_paho.go: a Connect that is given up while its client dials leaves that client to itself.
use arduino_cloud_connector.Common.{
  ℕ, ◌+◌, ◌≡◌, ◌≢◌, refl, String, Option, none, some, [], ◌∷◌, arith, ap, sym, ◌∙◌,
}
use mathlib.Core.Path.{subst}
use arduino_cloud_connector.Mqtt.{
  Tls, TlsConfig, ok, PahoClient, up, dialing, aborted, accepted, disconnect, Phase, Dialed, Error,
  dialed, connect, build_tls_config, name_of, quiesce,
}
use arduino_cloud_connector.Mqtt.Machine.{connecting, settled_up, settle, step, steps}
use arduino_cloud_connector.Mqtt.Sessions.{disconnect-client}

quiesce-rest : (was : Option ℕ) (c : PahoClient) → ((quiesce was c).next ≡ c.next)
quiesce-rest none c = refl
quiesce-rest (some n) c = ground arith

disconnect-next : (c : PahoClient) → (disconnect c).next ≡ c.next
unfolding disconnect
disconnect-next c = quiesce-rest c.client (record c { client = none })

-- The two clients are connected under one name, and Disconnect ends the second alone.
abbrev pub IsDoubled : PahoClient → ℕ → String → Type 0
IsDoubled c first name =
    (c.phases first ≡ up)
    × (c.phases (first + 1) ≡ up)
    × (c.names first ≡ name)
    × (c.names (first + 1) ≡ name)
    × (c.client ≡ some (first + 1))
    × ((disconnect c).phases first ≡ up)

-- Disconnect with a current client leaves every other one alone.
disconnect-others :
    (c : PahoClient) (id n : ℕ) → c.client ≡ some id → n ≢ id → (disconnect c).phases n ≡ c.phases n
unfolding disconnect
disconnect-others c id n h other = rw h (ground arith)

-- What the client was given up as, and what it comes to.
abbrev IsLate : PahoClient → Phase → ℕ → String → Type 0
IsLate c phase first name =
    (c.phases first ≡ phase) × (c.names first ≡ name) × (c.next ≡ first + 1) × (c.client ≡ none)

given_up-IsLate :
    (name : String) (c : PahoClient)
    → IsLate (dialed name aborted (disconnect c)).1 dialing c.next name
given_up-IsLate name c =
    let next = disconnect-next c in
    let gone = disconnect-client c in (ground arith, ground arith, ground arith, gone)

settled-IsLate :
    (c : PahoClient) (first : ℕ) (name : String)
    → IsLate c dialing first name
    → IsLate (settle first up (c.phases first) c) up first name
settled-IsLate c first name l = rw l.0 (ground arith, l.1, l.2, l.3)

-- Without a current client Disconnect changes nothing.
disconnect-idle : (c : PahoClient) → c.client ≡ none → disconnect c ≡ record c { client = none }
unfolding disconnect
disconnect-idle c h = rw h refl

accepted-IsDoubled :
    (name : String) (c : PahoClient) (first : ℕ)
    → IsLate c up first name
    → IsDoubled (dialed name accepted (disconnect c)).1 first name
accepted-IsDoubled name c first l =
    let others : (disconnect (dialed name accepted (record c { client = none })).1).phases first
        ≡ (dialed name accepted (record c { client = none })).1.phases first =
      disconnect-others (dialed name accepted (record c { client = none })).1 c.next first refl
        (omega (arith, l.2)) in
    rw (disconnect-idle c l.3) (
      ground (arith, l.2),
      ground (arith, l.2),
      ground (arith, l.2),
      ground (arith, l.2),
      ground (arith, l.2),
      others ∙ ground (arith, l.2),
    )

module _ {K C P : Type 0} where
  connect-dialed :
      (tls : Tls K C P) (ca_file : String) (device_id : Option String) (cfg : TlsConfig C P)
      (outcome : Dialed) (c : PahoClient)
      → build_tls_config tls ca_file ≡ ok cfg
      → connect tls ca_file device_id outcome c ≡ dialed (name_of device_id) outcome (disconnect c)
  unfolding connect
  connect-dialed tls ca_file device_id cfg outcome c h = rw h refl

  -- From any state, with credentials from which the TLS configuration is built: if a Connect is
  -- given up by its context while its client dials, that client comes to a connection all the same,
  -- and the next Connect succeeds, then two clients are connected under the same client id, only
  -- the second is the current one, and Disconnect leaves the first connected.
  pub aborted_connect-IsDoubled :
      (tls : Tls K C P) (ca_file : String) (device_id : Option String) (cfg : TlsConfig C P)
      (c : PahoClient)
      → build_tls_config tls ca_file ≡ ok cfg
      → IsDoubled
          (steps
            (connecting tls ca_file device_id aborted
              ∷ settled_up c.next
              ∷ connecting tls ca_file device_id accepted
              ∷ [])
            c)
          c.next
          (name_of device_id)
  unfolding steps step
  aborted_connect-IsDoubled tls ca_file device_id cfg c h =
      let name = name_of device_id in
      let late = (dialed name aborted (disconnect c)).1 in
      let settled = settle c.next up (late.phases c.next) late in
      subst
        (λ (d : PahoClient).
          IsDoubled
            (connect tls ca_file device_id accepted (settle c.next up (d.phases c.next) d)).1 c.next
            name)
        (ap (λ (r : Option Error × PahoClient). r.1)
          (sym (connect-dialed tls ca_file device_id cfg aborted c h)))
        (subst (λ (r : Option Error × PahoClient). IsDoubled r.1 c.next name)
          (sym (connect-dialed tls ca_file device_id cfg accepted settled h))
          (accepted-IsDoubled name settled c.next
            (settled-IsLate late c.next name (given_up-IsLate name c))))
