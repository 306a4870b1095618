-- ===== src/Config.antt =====
-- The configuration (courier/config.py): the dataclasses and `load_config`. Numbers are
-- non-negative. What `yaml` reads from the file and the name of the host are arguments.
use cs60_final_project.Common.{
  ℕ, Bool, true, Option, none, some, [], ◌∷◌, Text, text_beq, if◌then◌else◌,
}

pub record TransferConfig : Type 0 where
  pub chunk_size : ℕ
  pub window_size : ℕ
  pub base_rto_ms : ℕ
  pub ttl_sec : ℕ
  pub max_rto_ms : ℕ
  pub pacing_delay_ms : ℕ

pub record FecConfig : Type 0 where
  pub enabled : Bool
  pub k : ℕ
  pub r : ℕ

pub record CustodyConfig : Type 0 where
  pub max_retries : ℕ
  pub backoff_base_sec : ℕ

pub record NodeConfig : Type 0 where
  pub port : ℕ
  pub node_id : Text

pub record StorageConfig : Type 0 where
  pub db_path : Option Text
  pub cleanup_interval_sec : ℕ
  pub max_bytes : Option ℕ

pub record CourierConfig : Type 0 where
  pub node : NodeConfig
  pub transfer : TransferConfig
  pub fec : FecConfig
  pub custody : CustodyConfig
  pub storage : StorageConfig

-- The mappings of the file, section by section; a key that is not there is `none`. The dataclasses
-- take no other keys.
pub record NodeSection : Type 0 where
  pub port : Option ℕ
  pub node_id : Option Text

pub record TransferSection : Type 0 where
  pub chunk_size : Option ℕ
  pub window_size : Option ℕ
  pub base_rto_ms : Option ℕ
  pub ttl_sec : Option ℕ
  pub max_rto_ms : Option ℕ
  pub pacing_delay_ms : Option ℕ

pub record FecSection : Type 0 where
  pub enabled : Option Bool
  pub k : Option ℕ
  pub r : Option ℕ

pub record CustodySection : Type 0 where
  pub max_retries : Option ℕ
  pub backoff_base_sec : Option ℕ

pub record StorageSection : Type 0 where
  pub db_path : Option (Option Text)
  pub cleanup_interval_sec : Option ℕ
  pub max_bytes : Option (Option ℕ)

pub record ConfigData : Type 0 where
  pub node : NodeSection
  pub transfer : TransferSection
  pub fec : FecSection
  pub custody : CustodySection
  pub storage : StorageSection

-- The value of a keyword argument, or its default.
abbrev given : {A : Type 0} → Option A → A → A
given none default = default
given (some a) default = a

abbrev pub localhost : Text
localhost = b'l' ∷ b'o' ∷ b'c' ∷ b'a' ∷ b'l' ∷ b'h' ∷ b'o' ∷ b's' ∷ b't' ∷ []

unfoldable pub make_node_config : NodeSection → NodeConfig
make_node_config s = record { port = given s.port 5000; node_id = given s.node_id localhost }

unfoldable pub make_transfer_config : TransferSection → TransferConfig
make_transfer_config s = record {
  chunk_size = given s.chunk_size 1150;
  window_size = given s.window_size 1024;
  base_rto_ms = given s.base_rto_ms 900;
  ttl_sec = given s.ttl_sec 300;
  max_rto_ms = given s.max_rto_ms 500;
  pacing_delay_ms = given s.pacing_delay_ms 0;
}

unfoldable pub make_fec_config : FecSection → FecConfig
make_fec_config s = record { enabled = given s.enabled true; k = given s.k 4; r = given s.r 2 }

unfoldable pub make_custody_config : CustodySection → CustodyConfig
make_custody_config s = record {
  max_retries = given s.max_retries 10;
  backoff_base_sec = given s.backoff_base_sec 2;
}

unfoldable pub make_storage_config : StorageSection → StorageConfig
make_storage_config s = record {
  db_path = given s.db_path none;
  cleanup_interval_sec = given s.cleanup_interval_sec 60;
  max_bytes = given s.max_bytes none;
}

-- An empty file, and the else branch: every section with its defaults
abbrev pub no_data : ConfigData
no_data = record {
  node = record { port = none; node_id = none };
  transfer = record {
    chunk_size = none;
    window_size = none;
    base_rto_ms = none;
    ttl_sec = none;
    max_rto_ms = none;
    pacing_delay_ms = none;
  };
  fec = record { enabled = none; k = none; r = none };
  custody = record { max_retries = none; backoff_base_sec = none };
  storage = record { db_path = none; cleanup_interval_sec = none; max_bytes = none };
}

-- The node id "localhost" is replaced by the name of the host.
abbrev named : Text → NodeConfig → NodeConfig
named hostname c = if text_beq c.node_id localhost then record c { node_id = hostname } else c

-- load_config(config_path): `file` is what the file holds, `none` if no path is given or there is no
-- such file.
unfoldable pub load_config : Text → Option ConfigData → CourierConfig
unfolding make_node_config make_transfer_config make_fec_config make_custody_config
    make_storage_config
load_config hostname file =
    let values = given file no_data in
    record {
      node = named hostname (make_node_config values.node);
      transfer = make_transfer_config values.transfer;
      fec = make_fec_config values.fec;
      custody = make_custody_config values.custody;
      storage = make_storage_config values.storage;
    }
