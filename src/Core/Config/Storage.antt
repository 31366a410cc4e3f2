-- ===== src/Core/Config/Storage.antt =====
-- Saving and loading a configuration.
use family_com.Prelude.{
  ◌≡◌, refl, String, false, some, ok, ◌==◌, insert, get-insert, eq_refl, arith,
}
use family_com.Core.Config.{
  AppConfig, FilePath, Toml, Disk, DiskFaults, no_faults, load_from, save_to,
}

-- A save that succeeds has put the serialised configuration at its path.
pub save_to-eq-ok :
    (toml : Toml) (disk disk' : Disk) (config : AppConfig) (path : FilePath) (faults : DiskFaults)
    → save_to toml faults disk config path ≡ (ok tt, disk')
    → (content : String) × (toml.to_string config ≡ ok content) × (disk' ≡ insert disk path content)
unfolding save_to
save_to-eq-ok toml disk disk' config path faults h = ground arith

-- A configuration that was saved is loaded again from its path, and a load from any other path finds
-- what it found before.
pub load_from-save_to :
    (toml : Toml) (disk disk' : Disk) (config : AppConfig) (path : FilePath) (faults : DiskFaults)
    → save_to toml faults disk config path ≡ (ok tt, disk')
    → (load_from toml no_faults disk' path ≡ ok (some config))
      × ((other : FilePath)
          → (path == other) ≡ false
          → load_from toml no_faults disk' other ≡ load_from toml no_faults disk other)
unfolding load_from
load_from-save_to toml disk disk' config path faults h =
    let (content, w, e) = save_to-eq-ok toml disk disk' config path faults h in
    (
      rw (e, load_from)
          (rw (get-insert disk path path content, eq_refl path, toml.read_back config content w)
            refl),
      λ other n. rw (e, load_from) (rw (get-insert disk path other content, n) refl),
    )
