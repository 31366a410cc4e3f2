-- ===== src/Tui/Main/Startup.antt =====
-- The start of the terminal client.
use family_com.Prelude.{
  ◌≡◌, refl, sym, String, true, List, [], ◌∷◌, Option, none, some, Result, ok, arith, inl, inr,
  Result-cases,
}
use family_com.Core.Types.{PeerId, PeerInfo}
use family_com.Core.Ipc.{ClientRequest, ServerMessage, IpcJson, encode_request}
use family_com.Tui.App.{
  TuiApp, Action, new, selected_peer, selected_peer_id, keep_selected, handle_server_message,
  handle_action,
}
use family_com.Tui.App.Validity.{IsValid, new-IsValid, handle_action-IsValid}
use family_com.Tui.IpcClient.{connect_to, recv, subscribe, check_subscribed}
use family_com.Tui.Main.{Session, Turn, Start, first_read, first_reads, greet, start, run_loop}
use family_com.Tui.Main.Validity.{Returns, status-IsValid, run_loop-IsValid}
use family_com.Tui.Main.Fetching.{send_lem}

-- A start at which the socket accepts the connection and every write succeeds.
abbrev pub smooth_start :
    String
    → Result String String
    → Option (Result String String)
    → Option (Result String String)
    → Start
smooth_start path reply one two = record {
  socket_path = path;
  exists = true;
  refused = none;
  first_fault = none;
  config_fault = none;
  peers_fault = none;
  reply = reply;
  one = one;
  two = two;
}

module _ (requests : IpcJson ClientRequest) (responses : IpcJson ServerMessage) where
  first_read-IsValid :
      (read : Option (Result String String)) (app : TuiApp)
      → IsValid app
      → (app' : TuiApp) × (first_read requests responses read app ≡ some app') × IsValid app'
  unfolding first_read
  first_read-IsValid none app v = (app, refl, v)
  first_read-IsValid (some read) app v = elim (Result-cases (recv responses read)) [
    | inl (msg, e) ↦
        let (app', q, v') = handle_action-IsValid app (Action.server_message msg) v in
        (app', rw (e, first_read) q, v')
    | inr (c, e) ↦ (app, rw (e, first_read) refl, v)
  ]

  first_read-ok :
      (read : Result String String) (m : ServerMessage) (app : TuiApp)
      → recv responses read ≡ ok m
      → first_read requests responses (some read) app ≡ some (handle_server_message app m)
  unfolding first_read handle_action
  first_read-ok read m app e = rw (e, first_read) refl

  first_reads-ok :
      (one two : Result String String) (m n : ServerMessage) (app : TuiApp)
      → recv responses one ≡ ok m
      → recv responses two ≡ ok n
      → first_reads requests responses (some one) (some two) app
        ≡ some (record (handle_server_message (handle_server_message app m) n) {
          status = "Conectado";
        })
  first_reads-ok one two m n app e f =
      let first = first_read-ok one m app e in
      let second = first_read-ok two n (handle_server_message app m) f in
      unfold first_reads in rw (first, first_reads) (rw (second, first_reads) refl)

  first_reads-IsValid :
      (one two : Option (Result String String)) (app : TuiApp)
      → IsValid app
      → (app' : TuiApp) × (first_reads requests responses one two app ≡ some app') × IsValid app'
  unfolding first_reads
  first_reads-IsValid one two app v =
      let (a, e, v1) = first_read-IsValid one app v in
      let (b, f, v2) = first_read-IsValid two a v1 in
      (
        record b { status = "Conectado" },
        rw (e, first_reads) (rw (f, first_reads) refl),
        status-IsValid b "Conectado" v2,
      )

  start-Returns : (w : Start) (r : Option Session) → start requests responses w ≡ ok r → Returns r
  unfolding start
  start-Returns w r h = elim (Result-cases (greet requests responses w)) [
    | inl (written, e) ↦
        let (app, q, v) = first_reads-IsValid w.one w.two new new-IsValid in
        let same : some (record { app = app; written = written }) ≡ r = ground (arith, e, q) in
        (record { app = app; written = written }, sym same, v)
    | inr (c, e) ↦ ground (arith, e)
  ]

  -- However the terminal client starts, if it starts, and whatever keys, clicks and messages of the
  -- daemon come then, in whatever order and whatever write fails: it does not panic, and it is left in
  -- a valid state, whose selection is one of the peers and whose cursor stands between two characters.
  pub run_loop-IsValid_started :
      (w : Start) (turns : List Turn) (r : Option Session)
      → start requests responses w ≡ ok r
      → (s : Session) × (r ≡ some s) × IsValid s.app × Returns (run_loop requests responses turns s)
  run_loop-IsValid_started w turns r h =
      let (s, e, v) = start-Returns w r h in
      (s, e, v, run_loop-IsValid requests responses turns s v)

  module _ (line : ClientRequest → String)
      (encodes : (r : ClientRequest) → encode_request requests r ≡ ok (line r)) where
    -- The three requests of the start.
    abbrev pub greeting : List String
    greeting =
        line ClientRequest.subscribe
        ∷ line ClientRequest.get_config
        ∷ line ClientRequest.list_peers
        ∷ []

    subscribe_lem :
        (reply : Result String String)
        → recv responses reply ≡ ok ServerMessage.done
        → subscribe requests responses none reply [] ≡ (ok tt, line ClientRequest.subscribe ∷ [])
    subscribe_lem reply e =
        let sent = send_lem requests responses line encodes [] ClientRequest.subscribe in
        unfold subscribe check_subscribed in rw sent (rw e refl)

    greet_lem :
        (path : String) (reply : Result String String) (one two : Option (Result String String))
        → recv responses reply ≡ ok ServerMessage.done
        → greet requests responses (smooth_start path reply one two) ≡ ok greeting
    greet_lem path reply one two e =
        let acked = subscribe_lem reply e in
        unfold greet connect_to in
        rw
          (
            acked,
            send_lem requests responses line encodes (line ClientRequest.subscribe ∷ [])
                ClientRequest.get_config,
            send_lem requests responses line encodes
                (line ClientRequest.subscribe ∷ line ClientRequest.get_config ∷ [])
                ClientRequest.list_peers,
          )
          refl

    -- Where nothing fails and the first two messages are the configuration and a list of peers that
    -- is not empty, the client starts with the first of them selected, but the lines that it has
    -- written by then are the three requests of the start: none for that peer's history.
    pub start-unasked :
        (path : String) (reply one two : Result String String) (name : String) (id : PeerId)
        (p : PeerInfo) (ps : List PeerInfo)
        → recv responses reply ≡ ok ServerMessage.done
        → recv responses one ≡ ok (ServerMessage.config name id)
        → recv responses two ≡ ok (ServerMessage.peer_list (p ∷ ps))
        → (s : Session) × (start requests responses (smooth_start path reply (some one) (some two))
            ≡ ok (some s))
          × (selected_peer_id s.app ≡ some p.id)
          × (s.written ≡ greeting)
    unfolding handle_server_message keep_selected
    start-unasked path reply one two name id p ps e f g =
        let app : TuiApp =
          handle_server_message (handle_server_message new (ServerMessage.config name id))
            (ServerMessage.peer_list (p ∷ ps)) in
        let read = first_reads-ok one two _ _ new f g in
        (
          record { app = record app { status = "Conectado" }; written = greeting },
          unfold start in rw (greet_lem path reply (some one) (some two) e) (rw read refl),
          unfold selected_peer_id selected_peer in refl,
          refl,
        )
