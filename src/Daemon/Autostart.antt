-- ===== src/Daemon/Autostart.antt =====
-- crates/familycomd/src/autostart.rs: the file that starts the daemon on login. A path that the
-- platform does not have, the path of the running program, and the calls that fail are arguments.
pub mod Undone
use Prim.Native.String.{◌++◌}
use family_com.Prelude.{
  String, Bool, true, false, not, List, [], ◌∷◌, Option, none, some, Result, ok, err, ◌>>=◌, get,
  insert, remove, contains_key, if◌then◌else◌,
}
use family_com.Core.Config.{FilePath, Disk}

abbrev desktop_filename : FilePath
desktop_filename = "familycom.desktop"

abbrev plist_filename : FilePath
plist_filename = "com.familycom.daemon.plist"

-- `cfg!(target_os = "macos")`, or else.
pub data Platform : Type 0 where
  macos : Platform
  linux : Platform

pub data AutostartError : Type 0 where
  no_binary : String → AutostartError
  no_config_dir : AutostartError
  no_home_dir : AutostartError
  create_dir : String → AutostartError
  write_file : FilePath → String → AutostartError
  remove_file : FilePath → String → AutostartError

-- A failed write leaves what it leaves; a failed removal leaves the file.
pub record Machine : Type 0 where
  pub platform : Platform
  pub current_exe : Result FilePath String
  pub config_dir : Option FilePath
  pub home_dir : Option FilePath
  pub create_fault : FilePath → Option String
  pub write_fault : Option (String × Disk)
  pub remove_fault : Option String

-- What a subcommand leaves: its result, the files, the lines it printed, the programs it ran.
pub record Outcome : Type 0 where
  pub result : Result (Unit {0}) AutostartError
  pub disk : Disk
  pub printed : List String
  pub commands : List (List String)

unfoldable pub failed : AutostartError → Disk → Outcome
failed e disk = record { result = err e; disk = disk; printed = []; commands = [] }

unfoldable pub printing : List String → Disk → Outcome
printing lines disk = record { result = ok tt; disk = disk; printed = lines; commands = [] }

-- The two platforms install in the same steps, with a directory, a file, a content and last lines of
-- their own.
unfoldable pub install_at :
    Machine → FilePath → FilePath → String → List String → Bool → Disk → Outcome
unfolding failed printing
install_at machine dir file content done true disk =
    printing (("[dry-run] Would create: " ++ file) ∷ "[dry-run] Content:" ∷ content ∷ []) disk
install_at machine dir file content done false disk = elim (machine.create_fault dir) [
  | some e ↦ failed (create_dir e) disk
  | none ↦ elim machine.write_fault [
    | some (e, left) ↦ failed (write_file file e) left
    | none ↦ printing done (insert disk file content)
  ]
]

-- And they remove the file in the same steps, after the given programs were run.
unfoldable pub uninstall_at :
    Machine → FilePath → String → List (List String) → List String → Bool → Disk → Outcome
unfolding failed printing contains_key
uninstall_at machine file missing commands done dry_run disk =
    if not (contains_key disk file)
    then printing (missing ∷ []) disk
    else if dry_run
    then printing (("[dry-run] Would remove: " ++ file) ∷ []) disk
    else elim machine.remove_fault [
      | some e ↦ record (failed (remove_file file e) disk) { commands = commands }
      | none ↦ record (printing done (remove disk file)) { commands = commands }
    ]

-- `linux_autostart_dir`.
unfoldable pub linux_autostart_dir : Option FilePath → Result FilePath AutostartError
linux_autostart_dir none = err no_config_dir
linux_autostart_dir (some config_dir) = ok (config_dir ++ "/autostart")

-- `macos_launch_agents_dir`.
unfoldable pub macos_launch_agents_dir : Option FilePath → Result FilePath AutostartError
macos_launch_agents_dir none = err no_home_dir
macos_launch_agents_dir (some home) = ok (home ++ "/Library/LaunchAgents")

-- Each line with its end.
abbrev unlines : List String → String
unlines [] = ""
unlines (line ∷ lines) = line ++ ("\n" ++ unlines lines)

-- The content of the file on Linux.
unfoldable pub desktop_entry : FilePath → String
desktop_entry binary_path = unlines (
    "[Desktop Entry]"
    ∷ "Type=Application"
    ∷ "Name=FamilyCom"
    ∷ "Comment=LAN Messenger Daemon"
    ∷ ("Exec=" ++ binary_path)
    ∷ "Icon=familycom"
    ∷ "Terminal=false"
    ∷ "Categories=Network;Chat;"
    ∷ "StartupNotify=false"
    ∷ "X-GNOME-Autostart-enabled=true"
    ∷ [])

-- And on macOS.
unfoldable pub plist : FilePath → String
plist binary_path = unlines (
    "<?xml version=\"1.0\" encoding=\"UTF-8\"?>"
    ∷ "<!DOCTYPE plist PUBLIC \"-//Apple//DTD PLIST 1.0//EN\" \"http://www.apple.com/DTDs/PropertyList-1.0.dtd\">"
    ∷ "<plist version=\"1.0\">"
    ∷ "<dict>"
    ∷ "    <key>Label</key>"
    ∷ "    <string>com.familycom.daemon</string>"
    ∷ "    <key>ProgramArguments</key>"
    ∷ "    <array>"
    ∷ ("        <string>" ++ (binary_path ++ "</string>"))
    ∷ "    </array>"
    ∷ "    <key>RunAtLoad</key>"
    ∷ "    <true/>"
    ∷ "    <key>KeepAlive</key>"
    ∷ "    <true/>"
    ∷ "    <key>StandardOutPath</key>"
    ∷ "    <string>/tmp/familycomd.out.log</string>"
    ∷ "    <key>StandardErrorPath</key>"
    ∷ "    <string>/tmp/familycomd.err.log</string>"
    ∷ "</dict>"
    ∷ "</plist>"
    ∷ [])

-- What the subcommands print of a file on Linux, and on macOS.
abbrev pub desktop_installed : FilePath → List String
desktop_installed file =
    ("Autostart installed: " ++ file) ∷ "FamilyCom daemon will start on your next login." ∷ []

abbrev pub desktop_removed : FilePath → List String
desktop_removed file =
    ("Autostart removed: " ++ file) ∷ "FamilyCom daemon will no longer start on login." ∷ []

abbrev pub plist_installed : FilePath → List String
plist_installed file =
    ("LaunchAgent installed: " ++ file)
    ∷ "FamilyCom daemon will start on your next login."
    ∷ ""
    ∷ "To start it now without logging out:"
    ∷ ("  launchctl load " ++ file)
    ∷ []

abbrev pub plist_removed : FilePath → List String
plist_removed file =
    ("LaunchAgent removed: " ++ file) ∷ "FamilyCom daemon will no longer start on login." ∷ []

abbrev pub desktop_file : FilePath → FilePath
desktop_file autostart_dir = autostart_dir ++ ("/" ++ desktop_filename)

abbrev pub plist_file : FilePath → FilePath
plist_file agents_dir = agents_dir ++ ("/" ++ plist_filename)

abbrev pub no_desktop_file : FilePath → String
no_desktop_file file = "No autostart configuration found at: " ++ file

abbrev pub no_plist : FilePath → String
no_plist file = "No LaunchAgent found at: " ++ file

abbrev pub unload : FilePath → List (List String)
unload file = ("launchctl" ∷ "unload" ∷ file ∷ []) ∷ []

-- `install_linux`.
unfoldable pub install_linux : Machine → FilePath → Bool → Disk → Outcome
unfolding failed
install_linux machine binary_path dry_run disk = elim (linux_autostart_dir machine.config_dir) [
  | err e ↦ failed e disk
  | ok autostart_dir ↦
      let file = desktop_file autostart_dir in
      install_at machine autostart_dir file (desktop_entry binary_path) (desktop_installed file)
        dry_run disk
]

-- `uninstall_linux`.
unfoldable pub uninstall_linux : Machine → Bool → Disk → Outcome
unfolding failed
uninstall_linux machine dry_run disk = elim (linux_autostart_dir machine.config_dir) [
  | err e ↦ failed e disk
  | ok autostart_dir ↦
      let file = desktop_file autostart_dir in
      uninstall_at machine file (no_desktop_file file) [] (desktop_removed file) dry_run disk
]

-- `install_macos`.
unfoldable pub install_macos : Machine → FilePath → Bool → Disk → Outcome
unfolding failed
install_macos machine binary_path dry_run disk = elim (macos_launch_agents_dir machine.home_dir) [
  | err e ↦ failed e disk
  | ok agents_dir ↦
      let file = plist_file agents_dir in
      install_at machine agents_dir file (plist binary_path) (plist_installed file) dry_run disk
]

-- `uninstall_macos`.
unfoldable pub uninstall_macos : Machine → Bool → Disk → Outcome
unfolding failed
uninstall_macos machine dry_run disk = elim (macos_launch_agents_dir machine.home_dir) [
  | err e ↦ failed e disk
  | ok agents_dir ↦
      let file = plist_file agents_dir in
      uninstall_at machine file (no_plist file) (unload file) (plist_removed file) dry_run disk
]

-- `install`.
unfoldable pub install : Machine → Bool → Disk → Outcome
unfolding failed
install machine dry_run disk = elim machine.current_exe [
  | err e ↦ failed (no_binary e) disk
  | ok binary_path ↦ elim machine.platform [
    | macos ↦ install_macos machine binary_path dry_run disk
    | linux ↦ install_linux machine binary_path dry_run disk
  ]
]

-- `uninstall`.
unfoldable pub uninstall : Machine → Bool → Disk → Outcome
uninstall machine dry_run disk = elim machine.platform [
  | macos ↦ uninstall_macos machine dry_run disk
  | linux ↦ uninstall_linux machine dry_run disk
]
