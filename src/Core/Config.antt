-- ===== src/Core/Config.antt =====
-- crates/familycom-core/src/config.rs: the configuration file. `Toml` stands for the toml crate, a
-- file system is a map from paths to contents, and an argument says which call on it fails.
pub mod Storage
use Prim.Native.String.{◌++◌}
use family_com.Prelude.{
  ℕ, String, Option, none, some, Result, ok, err, ◌>>=◌, map_err, HashMap, get, insert, ◌≡◌,
}
use family_com.Core.Types.{PeerId}

pub record AppConfig : Type 0 where
  pub peer_id : String
  pub display_name : String
  pub tcp_port : ℕ
  pub terminal_command : Option String
  pub network_interface : Option String

abbrev pub FilePath : Type 0
FilePath = String

pub data ConfigError : Type 0 where
  read_file : FilePath → String → ConfigError
  parse_file : FilePath → String → ConfigError
  write_file : FilePath → String → ConfigError
  serialize : String → ConfigError
  no_config_dir : ConfigError

-- `toml::to_string_pretty` and `toml::from_str` on a configuration.
pub record Toml : Type 0 where
  pub to_string : AppConfig → Result String String
  pub from_str : String → Result AppConfig String
  pub read_back : (c : AppConfig) (s : String) → to_string c ≡ ok s → from_str s ≡ ok c

abbrev pub Disk : Type 0
Disk = HashMap String

-- Which calls on the file system fail, and with what error. A failed write leaves what it leaves.
pub record DiskFaults : Type 0 where
  pub create_dir : Option String
  pub write : Option (String × Disk)
  pub read : Option String

abbrev pub no_faults : DiskFaults
no_faults = record { create_dir = none; write = none; read = none }

-- `config_file_path`, from the platform's configuration directory.
unfoldable pub config_file_path : Option FilePath → Result FilePath ConfigError
config_file_path none = err no_config_dir
config_file_path (some dir) = ok (dir ++ "/familycom/config.toml")

-- `default_db_path`, from the platform's data directory.
unfoldable pub default_db_path : Option FilePath → Result FilePath ConfigError
default_db_path none = err no_config_dir
default_db_path (some dir) = ok (dir ++ "/familycom/familycom.db")

-- `default_socket_path`, from the runtime directory and the variable `USER`.
unfoldable pub default_socket_path : Option FilePath → Option String → FilePath
default_socket_path (some runtime_dir) user = runtime_dir ++ "/familycom.sock"
default_socket_path none (some user) = "/tmp/familycom-" ++ (user ++ ".sock")
default_socket_path none none = "/tmp/familycom-unknown.sock"

-- `load_from`.
unfoldable pub load_from :
    Toml → DiskFaults → Disk → FilePath → Result (Option AppConfig) ConfigError
load_from toml faults disk path = elim (get disk path) [
  | none ↦ ok none
  | some content ↦ elim faults.read [
    | some e ↦ err (read_file path e)
    | none ↦ do config ← map_err (parse_file path) (toml.from_str content); ok (some config)
  ]
]

-- `save_to`.
unfoldable pub save_to :
    Toml → DiskFaults → Disk → AppConfig → FilePath → Result (Unit {0}) ConfigError × Disk
save_to toml faults disk config path = elim faults.create_dir [
  | some e ↦ (err (write_file path e), disk)
  | none ↦ elim (toml.to_string config) [
    | err e ↦ (err (serialize e), disk)
    | ok content ↦ elim faults.write [
      | some (e, left) ↦ (err (write_file path e), left)
      | none ↦ (ok tt, insert disk path content)
    ]
  ]
]

-- `save`.
unfoldable pub save :
    Toml → DiskFaults → Option FilePath → Disk → AppConfig → Result (Unit {0}) ConfigError × Disk
unfolding save_to config_file_path
save toml faults dir disk config = elim (config_file_path dir) [
  | err e ↦ (err e, disk)
  | ok path ↦ save_to toml faults disk config path
]

-- `new_first_run`, with the identifier that was generated.
unfoldable pub new_first_run : PeerId → String → AppConfig
new_first_run peer_id display_name = record {
  peer_id = peer_id;
  display_name = display_name;
  tcp_port = 0;
  terminal_command = none;
  network_interface = none;
}
