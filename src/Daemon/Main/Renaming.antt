-- ===== src/Daemon/Main/Renaming.antt =====
-- A change of name, and the start after it.
use family_com.Prelude.{◌≡◌, ap, ◌∙◌, none, map_err, String, trim}
use family_com.Core.Config.{Toml, config_file_path}
use family_com.Core.Db.Engine.{Sqlite, Json}
use family_com.Core.Protocol.{MsgPack}
use family_com.Core.Ipc.{ServerMessage}
use family_com.Daemon.App.{DaemonApp, Outside, handle_set_display_name}
use family_com.Daemon.App.Naming.{handle_set_display_name-done}
use family_com.Daemon.Main.{
  Cli, Machine, config_failed, config_path, override, start_services, start,
}
use family_com.Daemon.Main.Restart.{start-loaded}

-- After a change of name that is answered as done, a start without a path of its own that can read
-- the configuration directory has the configuration that the daemon had, options of its run that
-- stand above the file included, under the new name; and it leaves the configuration files as
-- they are.
pub start-handle_set_display_name :
    (sql : Sqlite) (json : Json) (mp : MsgPack) (toml : Toml) (o : Outside) (machine : Machine)
    (cli : Cli) (app : DaemonApp) (name : String)
    → (handle_set_display_name sql json mp toml o app name).0 ≡ ServerMessage.done
    → config_path machine cli ≡ map_err config_failed (config_file_path o.config_dir)
    → machine.disk_faults.read ≡ none
    → (app' : DaemonApp) × ((handle_set_display_name sql json mp toml o app name).1 ≡ app')
      × (app'.config ≡ record app.config { display_name = trim name })
      × (start toml machine cli app'.disk
          ≡ (start_services machine cli (override cli app'.config) app'.disk, app'.disk))
start-handle_set_display_name sql json mp toml o machine cli app name h same free =
    let (app', path, e, at, named, loaded) =
      handle_set_display_name-done sql json mp toml o app name h in
    (
      app',
      e,
      named,
      start-loaded toml machine cli path app'.disk app'.config
          (same ∙ ap (map_err config_failed) at) loaded free,
    )
