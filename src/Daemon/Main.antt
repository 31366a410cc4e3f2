-- ===== src/Daemon/Main.antt =====
-- crates/familycomd/src/main.rs: the start of the daemon up to its main loop. What the machine, the
-- other components' system calls and the terminal answer is an argument.
pub mod Restart
pub mod Renaming
pub mod Notifier
use family_com.Prelude.{
  ℕ, String, Bool, true, false, Option, none, some, Result, ok, err, ◌>>=◌, map_err, eqb,
  if◌then◌else◌, trim, ◌==◌, HashMap,
}
use family_com.Core.Types.{PeerId}
use family_com.Core.Config.{
  AppConfig, FilePath, ConfigError, Toml, Disk, DiskFaults, config_file_path, default_db_path,
  default_socket_path, load_from, save_to, new_first_run,
}
use family_com.Core.Db.{Database}
use family_com.Daemon.App.{DaemonApp}
use family_com.Daemon.App.State as State

-- The options of a start; the subcommands are those of autostart.rs.
pub record Cli : Type 0 where
  pub name : Option String
  pub port : ℕ
  pub config : Option FilePath
  pub db : Option FilePath
  pub socket : Option FilePath

-- The error that ends a start.
pub data StartError : Type 0 where
  config_failed : ConfigError → StartError
  terminal_failed : String → StartError
  directory_failed : String → StartError
  database_failed : String → StartError
  server_failed : String → StartError
  discovery_failed : String → StartError
  ipc_failed : String → StartError

-- What `DiscoveryService::new` is given.
pub record Announcement : Type 0 where
  pub peer_id : PeerId
  pub display_name : String
  pub tcp_port : ℕ
  pub network_interface : Option String

-- `line` is what reading a line from the terminal gives, if the standard input is one. `open_db`,
-- `bind`, `announce` and `listen` are the calls that open the database, bind the server to a port
-- (and give the port it has), register with mDNS, and bind the socket.
pub record Machine : Type 0 where
  pub line : Option (Result String String)
  pub hostname : Option String
  pub fresh_id : PeerId
  pub config_dir : Option FilePath
  pub data_dir : Option FilePath
  pub runtime_dir : Option FilePath
  pub user : Option String
  pub disk_faults : DiskFaults
  pub create_db_dir : FilePath → Option String
  pub open_db : FilePath → Result Database String
  pub bind : ℕ → Result ℕ String
  pub announce : Announcement → Result (Unit {0}) String
  pub listen : FilePath → Result (Unit {0}) String

-- `get_hostname`.
unfoldable pub get_hostname : Machine → String
get_hostname machine = elim machine.hostname [ none ↦ "FamilyCom-User" | some name ↦ name ]

-- `get_display_name`.
unfoldable pub get_display_name : Machine → Result String StartError
unfolding get_hostname
get_display_name machine = elim machine.line [
  | none ↦ ok (get_hostname machine)
  | some answer ↦ do
    name ← map_err terminal_failed answer
    ok (if trim name == "" then get_hostname machine else trim name)
]

-- The path of the configuration.
unfoldable pub config_path : Machine → Cli → Result FilePath StartError
unfolding config_file_path
config_path machine cli = elim cli.config [
  | some path ↦ ok path
  | none ↦ map_err config_failed (config_file_path machine.config_dir)
]

-- The configuration of a first run, which is saved.
unfoldable pub first_run : Toml → Machine → FilePath → Disk → Result AppConfig StartError × Disk
unfolding get_display_name new_first_run save_to
first_run toml machine path disk = elim (get_display_name machine) [
  | err e ↦ (err e, disk)
  | ok display_name ↦
      let created = new_first_run machine.fresh_id display_name in
      let (saved, disk') = save_to toml machine.disk_faults disk created path in
      (do _ ← map_err config_failed saved; ok created, disk')
]

-- The configuration of the file at a path, or that of a first run.
unfoldable pub load_or_create :
    Toml → Machine → FilePath → Disk → Result AppConfig StartError × Disk
unfolding load_from first_run
load_or_create toml machine path disk = elim (load_from toml machine.disk_faults disk path) [
  | err e ↦ (err (config_failed e), disk)
  | ok none ↦ first_run toml machine path disk
  | ok (some loaded) ↦ (ok loaded, disk)
]

-- The options that stand above the file.
unfoldable pub override : Cli → AppConfig → AppConfig
override cli loaded = with_port (with_name loaded)
  where
    with_name : AppConfig → AppConfig
    with_name c = elim cli.name [ none ↦ c | some name ↦ record c { display_name = name } ]

    with_port : AppConfig → AppConfig
    with_port c = if eqb cli.port 0 then c else record c { tcp_port = cli.port }

-- What runs after a start.
pub record Started : Type 0 where
  pub app : DaemonApp
  pub announced : Announcement
  pub db_path : FilePath
  pub socket_path : FilePath

-- The path of the database.
unfoldable pub db_path : Machine → Cli → Result FilePath StartError
unfolding default_db_path
db_path machine cli = elim cli.db [
  | some path ↦ ok path
  | none ↦ map_err config_failed (default_db_path machine.data_dir)
]

-- `Path::parent` and `create_dir_all`: a path without a parent needs no directory.
unfoldable pub create_parent : Machine → FilePath → Result (Unit {0}) StartError
create_parent machine path = elim (machine.create_db_dir path) [
  | none ↦ ok tt
  | some e ↦ err (directory_failed e)
]

-- The path of the socket.
unfoldable pub socket_path : Machine → Cli → FilePath
unfolding default_socket_path
socket_path machine cli = elim cli.socket [
  | some path ↦ path
  | none ↦ default_socket_path machine.runtime_dir machine.user
]

unfoldable pub announcement : AppConfig → ℕ → Announcement
announcement config tcp_port = record {
  peer_id = config.peer_id;
  display_name = config.display_name;
  tcp_port = tcp_port;
  network_interface = config.network_interface;
}

-- The part of `main` after the configuration. The disk is that of the configuration: neither the file
-- that `Database::open` creates nor the socket file that `IpcServer::bind` replaces is on it.
unfoldable pub start_services : Machine → Cli → AppConfig → Disk → Result Started StartError
start_services machine cli config disk = do
  path ← db_path machine cli
  _ ← create_parent machine path
  db ← map_err database_failed (machine.open_db path)
  tcp_port ← map_err server_failed (machine.bind config.tcp_port)
  _ ← map_err discovery_failed (machine.announce (announcement config tcp_port))
  _ ← map_err ipc_failed (machine.listen (socket_path machine cli))
  ok (record {
    app = State.new db config disk;
    announced = announcement config tcp_port;
    db_path = path;
    socket_path = socket_path machine cli;
  })

-- `main` up to the main loop, with the file system that is left.
unfoldable pub start : Toml → Machine → Cli → Disk → Result Started StartError × Disk
start toml machine cli disk = elim (config_path machine cli) [
  | err e ↦ (err e, disk)
  | ok path ↦
      let (found, disk') = load_or_create toml machine path disk in
      (do loaded ← found; start_services machine cli (override cli loaded) disk', disk')
]
