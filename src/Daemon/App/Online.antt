-- ===== src/Daemon/App/Online.antt =====
-- Who is online: what the daemon keeps, what it reports, and what discovery said last.
use family_com.Prelude.{
  ◌≡◌, refl, ap, ◌∙◌, String, true, false, List, [], ◌∷◌, map, Option, none, some, Result, ok,
  arith, get, get-insert, get-remove, contains_key, if◌then◌else◌, ◌==◌, eq_iff, All, eq_refl,
  length, length-map, suc,
}
use mathlib.Core.Logic.{∥∥₁_prop}
use mathlib.Core.Logic.Or
use mathlib.Core.List.{Mem, not-mem-nil, mem-cons, mem-cons_self, mem-cons_of_mem}
use family_com.Core.Types.{PeerId, PeerInfo}
use family_com.Core.Config.{Toml}
use family_com.Core.Db.Engine.{Sqlite, Json}
use family_com.Core.Db.{get_peers, has_peer, Database, DatabaseError}
use family_com.Core.Db.Invariant.{IsWellFormed}
use family_com.Core.Db.Peers.{get_peers-upsert_peer}
use family_com.Core.Protocol.{PeerMessage, chat, ack, ping, pong, MsgPack}
use family_com.Core.Ipc.{ClientRequest, ServerMessage}
use family_com.Daemon.App.{
  DaemonApp, Outside, DiscoveryEvent, peer_found, peer_lost, Event, discovery, incoming, request,
  shutdown, handle_discovery_event, handle_peer_message, handle_incoming_message, deliver,
  store_and_deliver, handle_send_message, handle_set_display_name, handle_ipc_request, run,
  send_event, set_online, handle_list_peers, IsCalm,
}

-- What a discovery event says of a peer, of which nothing else was known but `before`.
unfoldable pub said : PeerId → Option PeerInfo → DiscoveryEvent → Option PeerInfo
said k before (peer_found p) = if p.id == k then some p else before
said k before (peer_lost j) = if j == k then none else before

-- The last word of discovery on a peer, before the daemon stops.
unfoldable pub last_said : PeerId → Option PeerInfo → List (Outside × Event) → Option PeerInfo
last_said k before [] = before
last_said k before ((o, discovery e) ∷ rest) = last_said k (said k before e) rest
last_said k before ((o, incoming m) ∷ rest) = last_said k before rest
last_said k before ((o, request r) ∷ rest) = last_said k before rest
last_said k before ((o, shutdown) ∷ rest) = before

module _ (sql : Sqlite) (json : Json) (mp : MsgPack) (toml : Toml) (o : Outside) where
  get-handle_discovery_event :
      (app : DaemonApp) (e : DiscoveryEvent) (k : PeerId)
      → get (handle_discovery_event sql json mp toml o app e).online_peers k
        ≡ said k (get app.online_peers k) e
  unfolding handle_discovery_event send_event said
  get-handle_discovery_event app (peer_found p) k = get-insert app.online_peers p.id k p
  get-handle_discovery_event app (peer_lost j) k =
      unfold contains_key in ground (arith, get-remove app.online_peers j k, eq_iff j k)

  handle_peer_message-online_peers :
      (app : DaemonApp) (from_addr : String) (m : PeerMessage)
      → (handle_peer_message sql json mp toml o app from_addr m).online_peers ≡ app.online_peers
  unfolding handle_peer_message send_event
  handle_peer_message-online_peers app from_addr (chat id k n t s) = refl
  handle_peer_message-online_peers app from_addr (ack k) = refl
  handle_peer_message-online_peers app from_addr ping = refl
  handle_peer_message-online_peers app from_addr pong = refl

  handle_ipc_request-online_peers :
      (app : DaemonApp) (r : ClientRequest)
      → (handle_ipc_request sql json mp toml o app r).1.online_peers ≡ app.online_peers
  unfolding handle_ipc_request handle_send_message store_and_deliver deliver handle_set_display_name
  handle_ipc_request-online_peers app r = ground arith

-- The daemon's map of online peers is what discovery said last of each peer, whatever messages and
-- requests came in between.
pub run-online_peers :
    (sql : Sqlite) (json : Json) (mp : MsgPack) (toml : Toml) (app : DaemonApp)
    (events : List (Outside × Event)) (k : PeerId)
    → get (run sql json mp toml app events).1.online_peers k
      ≡ last_said k (get app.online_peers k) events
unfolding run last_said
run-online_peers sql json mp toml app [] k = refl
run-online_peers sql json mp toml app ((o, discovery e) ∷ rest) k =
    run-online_peers sql json mp toml (handle_discovery_event sql json mp toml o app e) rest k
    ∙ ap (λ p. last_said k p rest) (get-handle_discovery_event sql json mp toml o app e k)
run-online_peers sql json mp toml app ((o, incoming m) ∷ rest) k =
    run-online_peers sql json mp toml (handle_incoming_message sql json mp toml o app m) rest k
    ∙ ap (λ peers. last_said k (get peers k) rest)
        (unfold handle_incoming_message in
          handle_peer_message-online_peers sql json mp toml o app m.from_addr m.message)
run-online_peers sql json mp toml app ((o, request r) ∷ rest) k =
    run-online_peers sql json mp toml (handle_ipc_request sql json mp toml o app r).1 rest k
    ∙ ap (λ peers. last_said k (get peers k) rest)
        (handle_ipc_request-online_peers sql json mp toml o app r)
run-online_peers sql json mp toml app ((o, shutdown) ∷ rest) k = refl

All-set_online :
    (app : DaemonApp) (ps : List PeerInfo)
    → All
        (λ (q : PeerInfo). q.online ≡ contains_key app.online_peers q.id)
        (map (set_online app) ps)
unfolding set_online
All-set_online app [] = tt
All-set_online app (p ∷ ps) = (refl, All-set_online app ps)

mem-set_online :
    (app : DaemonApp) (ps : List PeerInfo) (p : PeerInfo)
    → Mem p ps
    → Mem (set_online app p) (map (set_online app) ps)
mem-set_online app [] p m = absurd (not-mem-nil m)
mem-set_online app (q ∷ ps) p m =
    Or.elim ∥∥₁_prop (mem-cons.0 m) (λ e. rw e mem-cons_self)
      (λ t. mem-cons_of_mem (set_online app q) (mem-set_online app ps p t))

handle_list_peers-eq :
    (sql : Sqlite) (json : Json) (mp : MsgPack) (toml : Toml) (o : Outside) (app : DaemonApp)
    (ps : List PeerInfo)
    → IsCalm o
    → get_peers sql json none app.db ≡ ok ps
    → handle_list_peers sql json mp toml o app ≡ ServerMessage.peer_list (map (set_online app) ps)
unfolding handle_list_peers
handle_list_peers-eq sql json mp toml o app ps calm h =
    rw (calm.lock, calm.fetch_peers) (rw (h, handle_list_peers) refl)

-- In a step where nothing fails, a client that lists the peers after one was found gets that peer,
-- marked online; every peer of the list is marked online exactly if the daemon has it as online; and
-- the list has one entry for each row of the table.
pub handle_list_peers-peer_found :
    (sql : Sqlite) (json : Json) (mp : MsgPack) (toml : Toml) (o : Outside) (app : DaemonApp)
    (p : PeerInfo)
    → IsCalm o
    → IsWellFormed json app.db
    → (app' : DaemonApp) × (ps : List PeerInfo) × (handle_discovery_event sql json mp toml o app
          (peer_found p)
        ≡ app')
      × (handle_list_peers sql json mp toml o app' ≡ ServerMessage.peer_list ps)
      × Mem (record p { online = true }) ps
      × All (λ (q : PeerInfo). q.online ≡ contains_key app'.online_peers q.id) ps
      × (length ps
          ≡ (if has_peer app.db.peers p.id then length app.db.peers else suc (length app.db.peers)))
handle_list_peers-peer_found sql json mp toml o app p calm w =
    let (db', ps, e, got, m, _, n) = get_peers-upsert_peer sql json app.db w p in
    let app' : DaemonApp = handle_discovery_event sql json mp toml o app (peer_found p) in
    let stored : app'.db ≡ db' =
      unfold handle_discovery_event send_event in
      rw (calm.lock, calm.upsert)
        (ap (λ (r : Result (Unit {0}) DatabaseError × Database). r.1) e) in
    let now : contains_key app'.online_peers p.id ≡ true =
      unfold handle_discovery_event send_event contains_key in
      rw (get-insert app.online_peers p.id p.id p, eq_refl p.id) refl in
    let flag : set_online app' (record p { online = false }) ≡ record p { online = true } =
      unfold set_online in rw now refl in
    (
      app',
      map (set_online app') ps,
      refl,
      handle_list_peers-eq sql json mp toml o app' ps calm (rw stored got),
      rw flag at (mem-set_online app' ps (record p { online = false }) m),
      All-set_online app' ps,
      length-map (set_online app') ps ∙ n,
    )
