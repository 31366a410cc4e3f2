-- ===== src/Daemon/IpcServer/Socket.antt =====
-- crates/familycomd/src/ipc_server.rs: the socket file. A file system is a map, in which the file of a
-- socket has no content.
use family_com.Prelude.{
  List, [], ◌∷◌, ◌≡◌, ap, ◌∙◌, String, Option, none, some, Result, ok, err, get, insert, remove,
  contains_key, get-insert, get-remove, eq_refl, ◌==◌, if◌then◌else◌, arith,
}
use family_com.Core.Config.{FilePath, Disk}
use family_com.Core.Ipc.{ClientRequest, ServerMessage, IpcJson}
use family_com.Daemon.IpcServer.{Turn, Outcome, connected_client, handle_ipc_client}

-- Which calls fail.
pub record SocketFaults : Type 0 where
  pub remove_file : Option String
  pub create_dir : Option String
  pub listen : Option String

-- The removal of a file that is there.
unfoldable pub remove_stale : SocketFaults → Disk → FilePath → Result Disk String
unfolding contains_key
remove_stale faults disk socket_path =
    if contains_key disk socket_path
    then elim faults.remove_file [ some e ↦ err e | none ↦ ok (remove disk socket_path) ]
    else ok disk

-- `UnixListener::bind`, which makes the file and refuses a path that is taken.
unfoldable pub listen : SocketFaults → Disk → FilePath → Result Disk String
unfolding contains_key
listen faults disk socket_path =
    if contains_key disk socket_path
    then err "address already in use"
    else elim faults.listen [ some e ↦ err e | none ↦ ok (insert disk socket_path "") ]

-- `IpcServer::bind`, with the file system that is left.
unfoldable pub bind : SocketFaults → Disk → FilePath → Result FilePath String × Disk
unfolding remove_stale listen
bind faults disk socket_path = elim (remove_stale faults disk socket_path) [
  | err e ↦ (err e, disk)
  | ok free ↦ elim faults.create_dir [
    | some e ↦ (err e, free)
    | none ↦ elim (listen faults free socket_path) [
      | err e ↦ (err e, free)
      | ok bound ↦ (ok socket_path, bound)
    ]
  ]
]

-- `drop`, whose error is logged.
unfoldable pub drop : SocketFaults → Disk → FilePath → Disk
unfolding contains_key
drop faults disk socket_path =
    if contains_key disk socket_path
    then elim faults.remove_file [ some e ↦ disk | none ↦ remove disk socket_path ]
    else disk

-- `IpcServer::accept_loop`: what becomes of each client that `accept` gives, over the turns of its own
-- handler. An error of `accept` is logged, and the loop goes on.
unfoldable pub accept_loop :
    IpcJson ClientRequest → IpcJson ServerMessage → List (Result (List Turn) String) → List Outcome
accept_loop requests responses [] = []
accept_loop requests responses (ok turns ∷ rest) =
    handle_ipc_client requests responses turns connected_client
    ∷ accept_loop requests responses rest
accept_loop requests responses (err e ∷ rest) = accept_loop requests responses rest

module _ (faults : SocketFaults) (disk : Disk) (socket_path : FilePath) where
  bind-eq-ok :
      (bind faults disk socket_path).0 ≡ ok socket_path
      → (free : Disk) × (remove_stale faults disk socket_path ≡ ok free)
        × ((bind faults disk socket_path).1 ≡ insert free socket_path "")
        × (faults.create_dir ≡ none)
        × (faults.listen ≡ none)
  unfolding bind
  bind-eq-ok h = ground arith

  get-remove_stale :
      (free : Disk) (other : FilePath)
      → remove_stale faults disk socket_path ≡ ok free
      → (if socket_path == other then some "" else get free other)
        ≡ (if socket_path == other then some "" else get disk other)
  unfolding remove_stale
  get-remove_stale free other h = ground (arith, get-remove disk socket_path other)

-- A socket that was bound is the only file that changed, whether there was one before or not.
pub get-bind :
    (faults : SocketFaults) (disk : Disk) (socket_path other : FilePath)
    → (bind faults disk socket_path).0 ≡ ok socket_path
    → get (bind faults disk socket_path).1 other
      ≡ (if socket_path == other then some "" else get disk other)
get-bind faults disk socket_path other h =
    let (free, stale, e, _, _) = bind-eq-ok faults disk socket_path h in
    ap (λ d. get d other) e
    ∙ get-insert free socket_path other ""
    ∙ get-remove_stale faults disk socket_path free other stale

-- Where no call fails, the socket is bound on whatever an earlier daemon left.
pub bind_lem :
    (faults : SocketFaults) (disk : Disk) (socket_path : FilePath)
    → faults.remove_file ≡ none
    → faults.create_dir ≡ none
    → faults.listen ≡ none
    → (bind faults disk socket_path).0 ≡ ok socket_path
unfolding bind remove_stale listen contains_key
bind_lem faults disk socket_path r c l =
    ground (arith, r, c, l, get-remove disk socket_path socket_path, eq_refl socket_path)
