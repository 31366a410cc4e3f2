-- ===== src/Daemon/Tray.antt =====
-- crates/familycomd/src/tray.rs, without GTK: the menu, the search for the client and for a terminal.
-- A path is a directory and a name in it; what starting a program gives is an argument.
pub mod Terminals
pub mod Menu
use Prim.Native.String.{◌++◌ as ◌<>◌}
use family_com.Prelude.{
  ℕ, zero, suc, String, Bool, true, false, List, [], ◌∷◌, ◌++◌, Option, none, some, Result, ok, err,
  contains_key, if◌then◌else◌, ◌==◌,
}
use family_com.Daemon.Autostart.{Platform, macos, linux}
use family_com.Core.Config.{FilePath, Disk}

-- `spawn` with the name of a program and its arguments: the process, or an error.
abbrev pub Spawn : Type 0
Spawn = String → List String → Result ℕ String

-- `find_familycom_binary`, from the directory of the running program.
unfoldable pub find_familycom_binary : Result FilePath String → Disk → FilePath
unfolding contains_key
find_familycom_binary (err e) disk = "familycom"
find_familycom_binary (ok directory) disk =
    let sibling = directory <> "/familycom" in
    if contains_key disk sibling then sibling else "familycom"

-- The terminals to try, with the arguments before the command.
abbrev pub terminals : List (String × List String)
terminals =
    ("x-terminal-emulator", "-e" ∷ [])
    ∷ ("foot", "--" ∷ [])
    ∷ ("alacritty", "-e" ∷ [])
    ∷ ("kitty", "--" ∷ [])
    ∷ ("wezterm", "start" ∷ "--" ∷ [])
    ∷ ("gnome-terminal", "--" ∷ "--" ∷ [])
    ∷ ("kgx", "-e" ∷ [])
    ∷ ("konsole", "-e" ∷ [])
    ∷ ("xfce4-terminal", "-e" ∷ [])
    ∷ ("xterm", "-e" ∷ [])
    ∷ []

-- The loop over the terminals, with the last error.
unfoldable pub try_terminals :
    Spawn → String → String → List (String × List String) → Result ℕ String
try_terminals spawn command last_error [] = err last_error
try_terminals spawn command last_error ((terminal, args) ∷ rest) =
    elim (spawn terminal (args ++ command ∷ [])) [
      | ok child ↦ ok child
      | err e ↦ try_terminals spawn command e rest
    ]

abbrev pub no_terminal : String
no_terminal = "no terminal emulator found — set $TERMINAL to your preferred terminal"

unfoldable pub try_fallbacks : Spawn → String → Result ℕ String
try_fallbacks spawn command = try_terminals spawn command no_terminal terminals

-- `try_linux_terminals`, with the variable `TERMINAL`.
unfoldable pub try_linux_terminals : Spawn → Option String → String → Result ℕ String
try_linux_terminals spawn none command = try_fallbacks spawn command
try_linux_terminals spawn (some term) command =
    if term == "" then try_fallbacks spawn command else elim (spawn term ("-e" ∷ command ∷ [])) [
      | ok child ↦ ok child
      | err e ↦ try_fallbacks spawn command
    ]

-- `open_chat_in_terminal`: the process it starts, or the error that it logs.
unfoldable pub open_chat_in_terminal :
    Platform → Spawn → Option String → Result FilePath String → Disk → Result ℕ String
open_chat_in_terminal platform spawn term current_exe disk =
    let familycom_path = find_familycom_binary current_exe disk in
    elim platform [
      | macos ↦ spawn "open" ("-a" ∷ "Terminal" ∷ familycom_path ∷ [])
      | linux ↦ try_linux_terminals spawn term familycom_path
    ]

-- `TrayEvent`.
pub data TrayEvent : Type 0 where
  open_chat quit : TrayEvent

-- The item that a menu event names.
pub data MenuItem : Type 0 where
  open_item quit_item other_item : MenuItem

-- What the loop of `run_tray` sends for the menu events that it polls. It ends when the user quits, or
-- when opening the chat cannot be sent; the number says how many events can be sent.
unfoldable pub run_tray : ℕ → List MenuItem → List TrayEvent
run_tray room [] = []
run_tray room (other_item ∷ rest) = run_tray room rest
run_tray zero (quit_item ∷ rest) = []
run_tray (suc room) (quit_item ∷ rest) = quit ∷ []
run_tray zero (open_item ∷ rest) = []
run_tray (suc room) (open_item ∷ rest) = open_chat ∷ run_tray room rest

-- What `main` does for the events of the tray: how often it opens the chat, and whether it asks for
-- the shutdown, after which it reads no further event.
unfoldable pub handle_tray_events : List TrayEvent → ℕ × Bool
handle_tray_events [] = (0, false)
handle_tray_events (open_chat ∷ rest) =
    let (opened, stopped) = handle_tray_events rest in (suc opened, stopped)
handle_tray_events (quit ∷ rest) = (0, true)
