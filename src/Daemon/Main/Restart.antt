-- ===== src/Daemon/Main/Restart.antt =====
-- A daemon that starts again on the files that an earlier start left.
use family_com.Prelude.{◌≡◌, sym, ap, ◌∙◌, ◌⊎◌, inl, inr, none, some, Result, ok, arith}
use family_com.Core.Config.{
  AppConfig, FilePath, Toml, Disk, DiskFaults, no_faults, load_from, save_to,
}
use family_com.Core.Config.Storage.{load_from-save_to}
use family_com.Daemon.App.State as State
use family_com.Daemon.Main.{
  Cli, Machine, StartError, config_path, first_run, load_or_create, override, start_services, start,
}

module _ (toml : Toml) (machine : Machine) where
  -- A first run that succeeds has saved the configuration that it gives.
  first_run-eq-ok :
      (path : FilePath) (disk : Disk) (c : AppConfig)
      → (first_run toml machine path disk).0 ≡ ok c
      → save_to toml machine.disk_faults disk c path ≡ (ok tt, (first_run toml machine path disk).1)
  unfolding first_run
  first_run-eq-ok path disk c h = ground arith

  load_or_create-or :
      (path : FilePath) (disk : Disk) (c : AppConfig)
      → (load_or_create toml machine path disk).0 ≡ ok c
      → ((load_or_create toml machine path disk ≡ (ok c, disk))
          × (load_from toml machine.disk_faults disk path ≡ ok (some c)))
        ⊎ (load_or_create toml machine path disk ≡ first_run toml machine path disk)
  unfolding load_or_create
  load_or_create-or path disk c h = ground arith

  -- A file that was read is read when nothing fails.
  load_from-no_faults :
      (path : FilePath) (disk : Disk) (faults : DiskFaults) (c : AppConfig)
      → load_from toml faults disk path ≡ ok (some c)
      → load_from toml no_faults disk path ≡ ok (some c)
  unfolding load_from
  load_from-no_faults path disk faults c h = ground arith

  -- A configuration that a start found or made is found again by a read of what it left.
  pub load_or_create-eq-ok :
      (path : FilePath) (disk : Disk) (c : AppConfig)
      → (load_or_create toml machine path disk).0 ≡ ok c
      → load_from toml no_faults (load_or_create toml machine path disk).1 path ≡ ok (some c)
  load_or_create-eq-ok path disk c h = elim (load_or_create-or path disk c h) [
    | inl (kept, read) ↦
        ap (λ (p : Result AppConfig StartError × Disk). load_from toml no_faults p.1 path) kept
        ∙ load_from-no_faults path disk machine.disk_faults c read
    | inr first ↦
        ap (λ (p : Result AppConfig StartError × Disk). load_from toml no_faults p.1 path) first
        ∙ (load_from-save_to toml disk (first_run toml machine path disk).1 c path
            machine.disk_faults
            (first_run-eq-ok path disk c
              (sym (ap (λ (p : Result AppConfig StartError × Disk). p.0) first) ∙ h))).0
  ]

  -- And a start that can read it gives it, and leaves the files as they are.
  pub load_or_create-loaded :
      (path : FilePath) (disk : Disk) (c : AppConfig)
      → load_from toml no_faults disk path ≡ ok (some c)
      → machine.disk_faults.read ≡ none
      → load_or_create toml machine path disk ≡ (ok c, disk)
  unfolding load_or_create load_from
  load_or_create-loaded path disk c h free = ground arith

  -- A start that reads a configuration is decided by it.
  pub start-loaded :
      (cli : Cli) (path : FilePath) (disk : Disk) (c : AppConfig)
      → config_path machine cli ≡ ok path
      → load_from toml no_faults disk path ≡ ok (some c)
      → machine.disk_faults.read ≡ none
      → start toml machine cli disk ≡ (start_services machine cli (override cli c) disk, disk)
  unfolding start
  start-loaded cli path disk c at read free =
      ground (arith, load_or_create-loaded path disk c read free)
