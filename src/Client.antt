-- ===== src/Client.antt =====
-- `Config` of src/client/conn/mod.rs: what a client is set up with. The guid of a new one is random.
use raknet_rs.Prelude.{ℕ, ltb}
use raknet_rs.Prelude.Outcome.{Outcome, ok, ◌>>◌, assert}
use raknet_rs.Codec.Config as Codec
use raknet_rs.Handshake.Client as Offline

pub record Config : Type 0 where
  pub mtu : ℕ
  pub client_guid : ℕ
  pub protocol_version : ℕ
  pub max_parted_size : ℕ
  pub max_parted_count : ℕ
  pub max_channels : ℕ

-- `Config::new`
abbrev pub new_config : ℕ → Config
new_config guid = record {
  mtu = 1400;
  client_guid = guid;
  protocol_version = 9;
  max_parted_size = 256;
  max_parted_count = 256;
  max_channels = 1;
}

abbrev pub with_mtu : ℕ → Config → Config
with_mtu mtu c = record c { mtu = mtu }

abbrev pub with_client_guid : ℕ → Config → Config
with_client_guid guid c = record c { client_guid = guid }

abbrev pub with_protocol_version : ℕ → Config → Config
with_protocol_version version c = record c { protocol_version = version }

abbrev pub with_max_parted_size : ℕ → Config → Config
with_max_parted_size size c = record c { max_parted_size = size }

abbrev pub with_max_parted_count : ℕ → Config → Config
with_max_parted_count count c = record c { max_parted_count = count }

abbrev pub with_max_channels : ℕ → Config → Outcome Config
with_max_channels channels c = do
  assert (ltb channels 256)
  ok (record c { max_channels = channels })

abbrev pub offline_config : Config → Offline.Config
offline_config c = record {
  client_guid = c.client_guid;
  mtu = c.mtu;
  protocol_version = c.protocol_version;
}

abbrev pub codec_config : Config → Codec.Config
codec_config c = record {
  max_parted_count = c.max_parted_count;
  max_parted_size = c.max_parted_size;
  max_channels = c.max_channels;
}
