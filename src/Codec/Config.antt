-- ===== src/Codec/Config.antt =====
-- `Config` of src/codec/mod.rs: what limits the layers of a connection.
use raknet_rs.Prelude.{ℕ}

pub record Config : Type 0 where
  pub max_parted_size : ℕ
  pub max_parted_count : ℕ
  pub max_channels : ℕ

-- `Config::default`
abbrev pub default_config : Config
default_config = record { max_parted_size = 256; max_parted_count = 256; max_channels = 1 }
