-- ===== src/Tests/Start.antt =====
-- The start of the daemon, its notifications, its tray and its autostart at concrete inputs.
use family_com.Prelude.{
  ℕ, ◌≡◌, refl, String, false, List, [], ◌∷◌, ◌++◌, none, some, ok, err, any, is_ok, get, trim,
  if◌then◌else◌, ◌==◌, cons_trimmed, trim_start, trim_end, is_whitespace, byte_length, len_utf8,
}
use family_com.Core.Config.{
  AppConfig, FilePath, Disk, no_faults, config_file_path, save, save_to, new_first_run,
}
use family_com.Core.Db.{empty}
use family_com.Core.Ipc.{ServerMessage}
use family_com.Daemon.App.{DaemonApp, handle_set_display_name}
use family_com.Daemon.App.State as State
use family_com.Daemon.Main.{
  Cli, Machine, Started, config_path, override, start_services, start, db_path, socket_path,
  announcement,
}
use family_com.Daemon.Main.Renaming.{start-handle_set_display_name}
use family_com.Daemon.Main.Notifier.{Received, event, lagged, Notifier}
use family_com.Daemon.Autostart as Autostart
use family_com.Daemon.Autostart.Undone.{uninstall-install}
use family_com.Daemon.Tray.{Spawn, try_linux_terminals}
use family_com.Daemon.Tray.Terminals.{attempts, starts, try_linux_terminals_lem}
use family_com.Tests.Engines.{sqlite, json}
use family_com.Tests.Codecs.{toml, msg_pack, texts_of_config}
use family_com.Tests.Engines.{write_texts}
use family_com.Tests.Samples.{alice, hello, outside, daemon}

abbrev cli : Cli
cli = record { name = none; port = 9000; config = some "/c"; db = some "/d"; socket = some "/s" }

abbrev machine : Machine
machine = record {
  line = none;
  hostname = some "pc";
  fresh_id = "bob";
  config_dir = some "/home/bob/.config";
  data_dir = none;
  runtime_dir = none;
  user = none;
  disk_faults = no_faults;
  create_db_dir = λ path. none;
  open_db = λ path. ok empty;
  bind = λ port. ok port;
  announce = λ a. ok tt;
  listen = λ path. ok tt;
}

-- The first run, whose configuration goes to the given file, and what it starts.
abbrev created : AppConfig
created = new_first_run "bob" "pc"

abbrev files : Disk
files = ("/c", write_texts (texts_of_config created)) ∷ []

abbrev first : Started
first = record {
  app = State.new empty (record created { tcp_port = 9000 }) files;
  announced = announcement (record created { tcp_port = 9000 }) 9000;
  db_path = "/d";
  socket_path = "/s";
}

start-handle_set_display_name_example :
    (app' : DaemonApp) × ((handle_set_display_name sqlite json msg_pack toml outside daemon
        " Bobby ").1
      ≡ app')
    × (app'.config ≡ record daemon.config { display_name = trim " Bobby " })
    × (start toml machine (record cli { config = none }) app'.disk ≡ (
      start_services machine
          (record cli { config = none })
          (override (record cli { config = none }) app'.config)
          app'.disk,
      app'.disk,
    ))
unfolding handle_set_display_name trim trim_start trim_end cons_trimmed is_whitespace byte_length
    save save_to config_file_path len_utf8 config_path
start-handle_set_display_name_example =
    start-handle_set_display_name sqlite json msg_pack toml outside machine
      (record cli { config = none }) daemon " Bobby " refl refl refl

abbrev received_events : List Received
received_events =
    event (ServerMessage.peer_online alice) 1 (ok 1)
    ∷ lagged 3
    ∷ event (ServerMessage.new_message hello) 5 (ok 7)
    ∷ []

abbrev home : Autostart.Machine
home = record {
  platform = Autostart.linux;
  current_exe = ok "/usr/bin/familycomd";
  config_dir = some "/home/bob/.config";
  home_dir = none;
  create_fault = λ dir. none;
  write_fault = none;
  remove_fault = none;
}

uninstall-install_example :
    (file content : String) × ((other : FilePath)
      → get (Autostart.install home false files).disk other
        ≡ (if file == other then some content else get files other))
    × ((Autostart.uninstall home false (Autostart.install home false files).disk).result ≡ ok tt)
    × ((other : FilePath)
        → get (Autostart.uninstall home false (Autostart.install home false files).disk).disk other
          ≡ (if file == other then none else get files other))
unfolding Autostart.install Autostart.install_linux Autostart.install_at
    Autostart.linux_autostart_dir Autostart.printing
uninstall-install_example = uninstall-install home files refl refl

-- Of all the terminals there is only kitty.
abbrev only_kitty : Spawn
only_kitty = λ program args. if program == "kitty" then ok 42 else err "not found"

try_linux_terminals_lem_example :
    (is_ok (try_linux_terminals only_kitty (some "st") "familycom")
      ≡ any (starts only_kitty) (attempts (some "st") "familycom"))
    × ((before after : List (String × List String)) (a : String × List String) (child : ℕ)
        → attempts (some "st") "familycom" ≡ before ++ a ∷ after
        → any (starts only_kitty) before ≡ false
        → only_kitty a.0 a.1 ≡ ok child
        → try_linux_terminals only_kitty (some "st") "familycom" ≡ ok child)
    × ((before : List (String × List String)) (a : String × List String)
        → attempts (some "st") "familycom" ≡ before ++ a ∷ []
        → any (starts only_kitty) before ≡ false
        → try_linux_terminals only_kitty (some "st") "familycom" ≡ only_kitty a.0 a.1)
try_linux_terminals_lem_example = try_linux_terminals_lem only_kitty (some "st") "familycom"
