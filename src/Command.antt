-- ===== src/Command.antt =====
-- internal/mqtt/command: the commands of the command channel (types.go, netconfig.go) and their
-- codec (codec.go). Byte strings are lists of numbers; the CBOR library is a parameter of the codec.
pub mod NetConfig
use arduino_cloud_connector.Common.{ℕ, String, List}

-- NetworkType; `other_network` stands for a number with no name in the source.
pub data NetworkType : Type 0 where
  unknown_network wifi lora gsm nb cat_m1 ethernet cellular : NetworkType
  other_network : ℕ → NetworkType

pub record DeviceNetConfig : Type 0 where
  pub network : NetworkType
  pub ssid : String
  pub ip : List ℕ
  pub dns : List ℕ
  pub gateway : List ℕ
  pub netmask : List ℕ

pub data Cmd : Type 0 where
  ota_begin : List ℕ → Cmd
  ota_update : List ℕ → String → List ℕ → List ℕ → Cmd
  ota_progress : List ℕ → ℕ → ℕ → ℕ → Cmd
  thing_begin : String → Cmd
  thing_update : String → Cmd
  last_values_begin : Cmd
  last_values_update : List ℕ → Cmd
  device_begin : String → Cmd
  timezone_request : Cmd
  timezone_update : ℕ → ℕ → Cmd
  thing_detach : String → Cmd
  device_net_config : DeviceNetConfig → Cmd
