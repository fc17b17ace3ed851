-- ===== src/Lib.antt =====
-- The Arduino Cloud Connector: a daemon that provisions a board, keeps its connection to the Arduino
-- Cloud over MQTT, and serves the values of the board's variables to local apps over REST.
--
-- Parts, and the files that model them:
--
-- - Variables, internal/variables/variables.go. Registry is Registry; set_value, apply_last_values,
--   subscribe, unsubscribe, get and with_prefix are SetValue, ApplyLastValues, Subscribe, Unsubscribe,
--   Get and WithPrefix. Each of them runs under the registry's lock, so it is one step. Values are a
--   type parameter, `none` being the nil interface; Subscription pointers are identities into a store.
--   A subscription and its pump stand in Variables.Queue; the pump is a step relation (Variables.Delivery),
--   interleaved with a producer, a reader and stop. Go's random order of a map does not show: the order of
--   listeners of different names changes nothing that is stated.
-- - Command, the types of internal/mqtt/command/types.go and netconfig.go; Command.NetConfig is the
--   MarshalCBOR of the latter, over the CBOR library.
-- - Cloud, internal/daemon/cloud/fsm.go. Each state function runs up to its select (Cloud.States), and
--   Cloud.Machine has an input for each case of a select, for the goroutine running on and for an event
--   that the callbacks send. The calls of mqtt.Client (internal/mqtt/client.go) are logged with the
--   error flag that the environment chooses from the calls made before; its callbacks are inputs.
-- - Keystore, internal/keystore/keystore.go and perm.go over a data directory (Keystore.Disk) in which
--   every call of the file system may fail. A failing call does nothing, so the choice in which all calls
--   from some point on fail is a crash at that point.
-- - Provisioning, internal/provisioning/provisioning.go: the state derived from the disk, the prelude,
--   the attempt with its two retry loops, and completePhase. The Provisioning API is an input, round by
--   round; the board token and the crypto library are parameters.
-- - Daemon, internal/daemon/daemon.go: the machine of the three states, whose provisioning service is
--   that of Provisioning; Daemon.Outbound, the senders and the worker of EnqueueVariable and runOutbound
--   as a step relation; Daemon.Packet, propertyPacket and publishVariable over the registry.
-- - Certificate, internal/provisioning-api/compressed_cert.go on bytes. Certificate.Primitives has the
--   append functions, Certificate itself buildTBS and buildCert, Certificate.Response what reads the
--   response, with Go's string functions in Certificate.Text. Certificate.Elements is the encoding rule
--   that the bytes are compared with, and a reader of it, and Certificate.Issued says what is
--   read. The dates are the only numbers that may be negative. crypto/x509 and encoding/pem are
--   parameters.
-- - Client, internal/provisioning-api/client_http.go: SubmitCSR and Complete, with net/http and the JSON
--   encoder as parameters; Client.Retried puts SubmitCSR under the retry loop of Provisioning.
-- - Api, internal/api/handlers/handlers.go and internal/api/api.go. Api itself has the handlers that answer
--   once; Api.Stream is HandleVariableEvents over the registry, whose select and writes are inputs, and
--   Api.Frame is writeSSE on bytes; Api.Reader is a reader of server-sent events, the browser's side;
--   Api.Cors is the list of allowed origins, and Api.Listed what it means. JSON, net/http and url.Parse are parameters.
-- - Mqtt, internal/mqtt/client_paho.go and the topics of client.go. The clients of the paho library are
--   objects by identity with the phase of their connection; Mqtt.Calls has the calls that wait for an
--   acknowledgement, Mqtt.Dial is openFreshConnection over a network that is a parameter, and
--   Mqtt.Machine runs calls and events of the library in any order.
-- - Senml, internal/senml/record.go and codec.go: records, validate, toVariables and what Encode builds
--   before CBOR. int64 and float64 are an interface, Floats; resolveTime and encodeTime are in Senml.Time,
--   on signed times. The Cloud FSM takes the whole decoder as a parameter.
-- - Wire, test/e2e/internal/wire/cbor.go, the CBOR codec with which the end-to-end harness checks the
--   daemon's: Wire.Cbor has the values and the writer, Wire.Decode the reader, whose recursion is on as
--   much fuel as the input has bytes, and one more. A panic of the runtime is an outcome of a read.
--   Wire.Command is test/e2e/internal/wire/command.go: Wire.Command.Reading is DecodeCommand,
--   Wire.Command.Writing the encoders, and Wire.Command.NetConfig sets MarshalCBOR against DecodeCommand.
-- - Common, Boolean tests, lists, maps with string keys and a store of objects, shared by all parts.
--
-- How they interact: the daemon runs the provisioning service and, in Run, one Cloud FSM; the FSM writes
-- what the cloud sends into the registry; the outbound worker writes what apps set into the registry
-- and publishes it; REST handlers subscribe to the registry.
--
-- Numbers and times: times and durations are natural numbers of nanoseconds, a time counted from Go's
-- zero time, so that zero is IsZero. Counters do not come near their width and are natural numbers. The
-- products that nextConnBackoff makes in float64 are taken exactly. Text is compared by code points,
-- which for UTF-8 is the order of the bytes.
--
-- Loops: every loop of the program is a machine step or a recursion on the list of what its rounds meet;
-- a loop whose rounds have run out is still running (still_trying, trying), never a result. That the
-- loops end is proved: 24 calls are enough for a retry loop of provisioning, ten timeouts for the
-- synchronisation, and five rounds for a cancelled Cloud FSM.
--
-- Not modelled: the CBOR bytes of SenML and of commands; the paho library, net/http and the table of
-- routes; identity, configuration, system information and the command line; logging; and the
-- rest of the end-to-end test harness.
pub mod Common
pub mod Variables
pub mod Command
pub mod Cloud
pub mod Keystore
pub mod Provisioning
pub mod Daemon
pub mod Mqtt
pub mod Certificate
pub mod Api
pub mod Senml
pub mod Wire
pub mod Client
