-- ===== src/Daemon/App/Naming.antt =====
-- Changing the display name.
use family_com.Prelude.{
  ◌≡◌, refl, String, false, ◌||◌, some, ok, arith, trim, is_blank, byte_length, byte_length-trim-le,
  ltb, if◌then◌else◌,
}
use family_com.Core.Types.{new_display_name}
use family_com.Core.Config.{
  AppConfig, FilePath, Toml, no_faults, config_file_path, load_from, save_to, save,
}
use family_com.Core.Config.Storage.{load_from-save_to}
use family_com.Core.Db.Engine.{Sqlite, Json}
use family_com.Core.Protocol.{MsgPack}
use family_com.Core.Ipc.{ServerMessage}
use family_com.Daemon.App.{DaemonApp, Outside, handle_set_display_name}

save-eq-ok :
    (toml : Toml) (o : Outside) (app : DaemonApp) (c : AppConfig)
    → (save toml o.disk_faults o.config_dir app.disk c).0 ≡ ok tt
    → (path : FilePath) × (config_file_path o.config_dir ≡ ok path)
      × (save_to toml o.disk_faults app.disk c path
          ≡ (ok tt, (save toml o.disk_faults o.config_dir app.disk c).1))
unfolding save
save-eq-ok toml o app c h = ground arith

module _ (sql : Sqlite) (json : Json) (mp : MsgPack) (toml : Toml) (o : Outside) where
  -- A name is refused exactly if it is blank or longer than 50 bytes before it is trimmed, and then
  -- nothing changes. Any other name, trimmed, is the name of the daemon from then on, whether the
  -- configuration could be saved or not, and it is one that `DisplayName::new` accepts.
  pub handle_set_display_name_lem :
      (app : DaemonApp) (name : String)
      → if is_blank (trim name) || ltb 50 (byte_length name)
        then handle_set_display_name sql json mp toml o app name
          ≡ (ServerMessage.error "invalid_name" "display name must be 1-50 characters", app)
        else ((handle_set_display_name sql json mp toml o app name).1.config
            ≡ record app.config { display_name = trim name })
          × (new_display_name name ≡ ok (trim name))
  unfolding handle_set_display_name new_display_name
  handle_set_display_name_lem app name = ground (arith, byte_length-trim-le name)

  done_inv :
      (app : DaemonApp) (name : String)
      → (handle_set_display_name sql json mp toml o app name).0 ≡ ServerMessage.done
      → ((save toml o.disk_faults o.config_dir app.disk
            (record app.config { display_name = trim name })).0
          ≡ ok tt)
        × ((handle_set_display_name sql json mp toml o app name).1 ≡ record app {
          config = record app.config { display_name = trim name };
          disk =
              (save toml o.disk_faults o.config_dir app.disk
                (record app.config { display_name = trim name })).1;
        })
        × ((is_blank (trim name) || ltb 50 (byte_length name)) ≡ false)
  unfolding handle_set_display_name
  done_inv app name h = ground arith

  -- Where the answer is that it was done, the configuration with the new name has been saved: it is
  -- loaded again from the file in the configuration directory.
  pub handle_set_display_name-done :
      (app : DaemonApp) (name : String)
      → (handle_set_display_name sql json mp toml o app name).0 ≡ ServerMessage.done
      → (app' : DaemonApp) × (path : FilePath) × ((handle_set_display_name sql json mp toml o app
            name).1
          ≡ app')
        × (config_file_path o.config_dir ≡ ok path)
        × (app'.config ≡ record app.config { display_name = trim name })
        × (load_from toml no_faults app'.disk path ≡ ok (some app'.config))
  handle_set_display_name-done app name h =
      let c : AppConfig = record app.config { display_name = trim name } in
      let (saved, e, n) = done_inv app name h in
      let (path, at, to) = save-eq-ok toml o app c saved in
      let disk = (save toml o.disk_faults o.config_dir app.disk c).1 in
      (
        record app { config = c; disk = disk },
        path,
        e,
        at,
        refl,
        (load_from-save_to toml app.disk disk c path o.disk_faults to).0,
      )
