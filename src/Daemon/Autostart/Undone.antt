-- ===== src/Daemon/Autostart/Undone.antt =====
-- Installing the autostart file and removing it.
use Prim.Native.String.{◌++◌}
use family_com.Prelude.{
  ◌≡◌, refl, ◌⊎◌, inl, inr, ◌∙◌, sym, ap, Result-cases, remove, String, Bool, true, false, List, [],
  ◌∷◌, none, some, ok, err, get, insert, get-insert, get-remove, contains_key, eq_refl, ◌==◌,
  if◌then◌else◌, arith,
}
use family_com.Core.Config.{FilePath, Disk}
use family_com.Daemon.Autostart.{
  Outcome, desktop_file, desktop_entry, no_desktop_file, desktop_installed, desktop_removed,
  plist_file, plist, no_plist, plist_installed, plist_removed, unload, Machine, Platform, no_binary,
  macos, linux, AutostartError, failed, install_at, uninstall_at, install, uninstall, install_macos,
  install_linux, uninstall_macos, uninstall_linux, linux_autostart_dir, macos_launch_agents_dir,
  printing,
}

Platform-cases : (p : Platform) → (p ≡ macos) ⊎ (p ≡ linux)
Platform-cases macos = inl refl
Platform-cases linux = inr refl

-- On a platform the two subcommands are about one file, or there is no place for a file, or the
-- program does not know its path.
one_file :
    (machine : Machine)
    → ((e : AutostartError) × ((dry_run : Bool) (disk : Disk)
          → install machine dry_run disk ≡ failed e disk))
      ⊎ ((dir file content missing : String) × (done gone : List String) × (commands : List
            (List String))
          × ((dry_run : Bool) (disk : Disk)
              → install machine dry_run disk
                ≡ install_at machine dir file content done dry_run disk)
          × ((dry_run : Bool) (disk : Disk)
              → uninstall machine dry_run disk
                ≡ uninstall_at machine file missing commands gone dry_run disk))
one_file machine = elim (Result-cases machine.current_exe) [
  | inr (e, here) ↦ inl (no_binary e, λ dry_run disk. unfold install in rw here refl)
  | inl (binary_path, here) ↦ elim (Platform-cases machine.platform) [
    | inl on ↦ elim (Result-cases (macos_launch_agents_dir machine.home_dir)) [
      | inr (e, nowhere) ↦
          inl (e, λ dry_run disk. unfold install install_macos in ground (arith, here, on, nowhere))
      | inl (dir, at) ↦ inr (
        dir,
        plist_file dir,
        plist binary_path,
        no_plist (plist_file dir),
        plist_installed (plist_file dir),
        plist_removed (plist_file dir),
        unload (plist_file dir),
        (λ dry_run disk. unfold install install_macos in ground (arith, here, on, at)),
        λ dry_run disk. unfold uninstall uninstall_macos in ground (arith, on, at),
      )
    ]
    | inr on ↦ elim (Result-cases (linux_autostart_dir machine.config_dir)) [
      | inr (e, nowhere) ↦
          inl (e, λ dry_run disk. unfold install install_linux in ground (arith, here, on, nowhere))
      | inl (dir, at) ↦ inr (
        dir,
        desktop_file dir,
        desktop_entry binary_path,
        no_desktop_file (desktop_file dir),
        desktop_installed (desktop_file dir),
        desktop_removed (desktop_file dir),
        [],
        (λ dry_run disk. unfold install install_linux in ground (arith, here, on, at)),
        λ dry_run disk. unfold uninstall uninstall_linux in ground (arith, on, at),
      )
    ]
  ]
]

-- An installation that succeeds has put the content at the file.
install_at-eq-ok :
    (machine : Machine) (dir file content : String) (done : List String) (disk : Disk)
    → (install_at machine dir file content done false disk).result ≡ ok tt
    → (install_at machine dir file content done false disk).disk ≡ insert disk file content
unfolding install_at failed printing
install_at-eq-ok machine dir file content done disk h = ground arith

-- A file that is there is removed.
uninstall_at-there :
    (machine : Machine) (file missing : String) (commands : List (List String)) (gone : List String)
    (disk : Disk)
    → contains_key disk file ≡ true
    → machine.remove_fault ≡ none
    → ((uninstall_at machine file missing commands gone false disk).result ≡ ok tt)
      × ((uninstall_at machine file missing commands gone false disk).disk ≡ remove disk file)
unfolding uninstall_at failed printing
uninstall_at-there machine file missing commands gone disk there free =
    rw (there, free, uninstall_at) (refl, refl)

-- Where an installation succeeds and a removal can: the installation changes one file, and the removal
-- after it succeeds and leaves every other file as it was before, and that one absent.
pub uninstall-install :
    (machine : Machine) (disk : Disk)
    → (install machine false disk).result ≡ ok tt
    → machine.remove_fault ≡ none
    → (file content : String) × ((other : FilePath)
        → get (install machine false disk).disk other
          ≡ (if file == other then some content else get disk other))
      × ((uninstall machine false (install machine false disk).disk).result ≡ ok tt)
      × ((other : FilePath)
          → get (uninstall machine false (install machine false disk).disk).disk other
            ≡ (if file == other then none else get disk other))
unfolding failed
uninstall-install machine disk h free = elim (one_file machine) [
  | inl (e, never) ↦
      let refused : ok tt ≡ err e = sym h ∙ ap (λ (o : Outcome). o.result) (never false disk) in cc
  | inr (dir, file, content, missing, done, gone, commands, installs, uninstalls) ↦
      let put : (install machine false disk).disk ≡ insert disk file content =
        ap (λ (o : Outcome). o.disk) (installs false disk)
        ∙ install_at-eq-ok machine dir file content done disk
            (sym (ap (λ (o : Outcome). o.result) (installs false disk)) ∙ h) in
      let (succeeds, left) =
        uninstall_at-there machine file missing commands gone (insert disk file content)
          (there disk file content) free in
      let removes = uninstalls false (insert disk file content) in
      (
        file,
        content,
        (λ other. rw put (get-insert disk file other content)),
        rw put (ap (λ (o : Outcome). o.result) removes ∙ succeeds),
        λ other. rw put (
            ap (λ (o : Outcome). get o.disk other) removes
            ∙ ap (λ d. get d other) left
            ∙ get-remove (insert disk file content) file other
            ∙ without disk file other content),
      )
]
  where
    there :
        (disk : Disk) (file content : String) → contains_key (insert disk file content) file ≡ true
    there disk file content =
        unfold contains_key in ground (arith, get-insert disk file file content, eq_refl file)

    without :
        (disk : Disk) (file other content : String)
        → (if file == other then none else get (insert disk file content) other)
          ≡ (if file == other then none else get disk other)
    without disk file other content = ground (arith, get-insert disk file other content)

uninstall_dry :
    (machine : Machine) (disk : Disk)
    → ((uninstall machine true disk).disk ≡ disk) × ((uninstall machine true disk).commands ≡ [])
unfolding uninstall uninstall_linux uninstall_macos uninstall_at failed printing
uninstall_dry machine disk = ground arith

-- A dry run of either subcommand changes no file and runs no program. That of the installation
-- succeeds where the installation does, and prints the content that it writes, and where.
pub install_dry :
    (machine : Machine) (disk : Disk)
    → ((install machine true disk).disk ≡ disk)
      × ((install machine true disk).commands ≡ [])
      × ((uninstall machine true disk).disk ≡ disk)
      × ((uninstall machine true disk).commands ≡ [])
      × ((install machine false disk).result ≡ ok tt
          → (file content : String) × ((install machine true disk).result ≡ ok tt)
            × ((install machine false disk).disk ≡ insert disk file content)
            × ((install machine true disk).printed
                ≡ ("[dry-run] Would create: " ++ file) ∷ "[dry-run] Content:" ∷ content ∷ []))
unfolding failed printing
install_dry machine disk = elim (one_file machine) [
  | inl (e, never) ↦ (
    ap (λ (o : Outcome). o.disk) (never true disk),
    ap (λ (o : Outcome). o.commands) (never true disk),
    (uninstall_dry machine disk).0,
    (uninstall_dry machine disk).1,
    λ h.
        let refused : ok tt ≡ err e = sym h ∙ ap (λ (o : Outcome). o.result) (never false disk) in
        cc,
  )
  | inr (dir, file, content, missing, done, gone, commands, installs, uninstalls) ↦
      let dry : install machine true disk
          ≡ printing (("[dry-run] Would create: " ++ file) ∷ "[dry-run] Content:" ∷ content ∷ [])
              disk =
        installs true disk ∙ (unfold install_at in refl) in
      (
        ap (λ (o : Outcome). o.disk) dry,
        ap (λ (o : Outcome). o.commands) dry,
        (uninstall_dry machine disk).0,
        (uninstall_dry machine disk).1,
        λ h. (
          file,
          content,
          ap (λ (o : Outcome). o.result) dry,
          ap (λ (o : Outcome). o.disk) (installs false disk)
              ∙ install_at-eq-ok machine dir file content done disk
                  (sym (ap (λ (o : Outcome). o.result) (installs false disk)) ∙ h),
          ap (λ (o : Outcome). o.printed) dry,
        ),
      )
]
