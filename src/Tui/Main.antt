-- ===== src/Tui/Main.antt =====
-- crates/familycom/src/main.rs: the loop of the terminal client. A turn of the loop is the branch of
-- `select!` that is ready, with what the calls in it meet; `none` is a panic.
pub mod State
pub mod Validity
pub mod Selection
pub mod Fetching
pub mod Requests
pub mod Typing
pub mod Startup
unfoldable pub use State.*
use Prim.Native.String.{◌++◌ as ◌<>◌}
use mathlib.Core.Option
use family_com.Prelude.{
  ℕ, String, Bool, true, false, not, ◌&&◌, List, [], ◌∷◌, Option, none, some, Result, ok, err,
  ◌>>=◌, ◌==◌, if◌then◌else◌, trim, is_blank,
}
use family_com.Core.Types.{PeerId, MessageId, Timestamp, Message, sent}
use family_com.Core.Ipc.{ClientRequest, ServerMessage, IpcJson}
use family_com.Tui.App.{
  TuiApp, Action, selected_peer_id, push_message, handle_action, take_input, new,
}
use family_com.Tui.Event.{TerminalEvent, PanelRects, handle_event}
use family_com.Tui.IpcClient.{
  IpcClientError, disconnected, show_client_error, connect_to, send, recv, subscribe,
}

module _ (requests : IpcJson ClientRequest) (responses : IpcJson ServerMessage) where
  -- From "Clear the input buffer", the peer being selected.
  unfoldable pub send_to_peer : Turn → PeerId → String → Session → Session
  unfolding show_sent after_send
  send_to_peer turn peer_id content s =
      after_send (show_sent turn peer_id content s.app)
        (send requests turn.fault s.written (ClientRequest.send_message peer_id content))

  unfoldable pub handle_send_message : Turn → Session → Session
  unfolding send_to_peer
  handle_send_message turn s =
      if is_blank (trim s.app.input) then s else elim (selected_peer_id s.app) [
        | none ↦ record s { app = record s.app { status = "No hay peer seleccionado" } }
        | some peer_id ↦ send_to_peer turn peer_id (trim s.app.input) s
      ]

  unfoldable pub fetch_selected_peer_messages : Option String → Session → Session
  fetch_selected_peer_messages fault s = elim (selected_peer_id s.app) [
    | none ↦ s
    | some peer_id ↦ record s {
      written = (send requests fault s.written (ClientRequest.get_messages peer_id 100 none)).1;
    }
  ]

  -- What follows an action: the history of a newly selected peer is requested.
  unfoldable pub after_action : Turn → Session → TuiApp → Session
  unfolding fetch_selected_peer_messages same_peer
  after_action turn s app =
      if same_peer (selected_peer_id app) (selected_peer_id s.app)
      then record s { app = app }
      else fetch_selected_peer_messages turn.fault (record s { app = app })

  -- An action other than sending.
  unfoldable pub handle_other : Turn → Action → Session → Option Session
  unfolding after_action
  handle_other turn action s = Option.map (after_action turn s) (handle_action s.app action)

  -- The `match` on an action.
  unfoldable pub perform : Turn → Action → Session → Option Session
  unfolding handle_send_message handle_other
  perform turn Action.send_message s = some (handle_send_message turn s)
  perform turn other s = handle_other turn other s

  unfoldable pub handle_terminal : Turn → TerminalEvent → Session → Option Session
  unfolding perform
  handle_terminal turn e s = elim (handle_event e turn.rects s.app) [
    | none ↦ some s
    | some action ↦ perform turn action s
  ]

  -- What follows a message of the daemon.
  unfoldable pub after_message : Turn → ServerMessage → Session → TuiApp → Session
  unfolding is_peer_list fetch_selected_peer_messages
  after_message turn msg s app =
      if is_peer_list msg
      then fetch_selected_peer_messages turn.fault (record s { app = app })
      else record s { app = app }

  unfoldable pub handle_received :
      Turn → Result ServerMessage IpcClientError → Session → Option Session
  unfolding after_message
  handle_received turn (ok msg) s =
      Option.map (after_message turn msg s) (handle_action s.app (Action.server_message msg))
  handle_received turn (err disconnected) s =
      some (record s { app = record s.app { status = "Desconectado del daemon" } })
  handle_received turn (err e) s =
      some (record s { app = record s.app { status = "Error: " <> show_client_error e } })

  -- The arms of `select!`.
  unfoldable pub handle_ready : Turn → Ready → Session → Option Session
  unfolding handle_terminal handle_received
  handle_ready turn (terminal e) s = handle_terminal turn e s
  handle_ready turn (daemon read) s = handle_received turn (recv responses read) s
  handle_ready turn _ s = some s

  -- The loop of `run_tui` over turns, up to its end.
  unfoldable pub run_loop : List Turn → Session → Option Session
  unfolding goes_on
  run_loop [] s = some s
  run_loop (turn ∷ turns) s = elim (handle_ready turn turn.ready s) [
    | none ↦ none
    | some s' ↦ elim (goes_on turn.ready && not s'.app.should_quit) [
      | true ↦ run_loop turns s'
      | false ↦ some s'
    ]
  ]

  -- One of the two first reads, of which an error and a timeout are passed over.
  unfoldable pub first_read : Option (Result String String) → TuiApp → Option TuiApp
  first_read none app = some app
  first_read (some read) app = elim (recv responses read) [
    | ok msg ↦ handle_action app (Action.server_message msg)
    | err _ ↦ some app
  ]

  -- `run_tui` up to the loop.
  unfoldable pub first_reads :
      Option (Result String String) → Option (Result String String) → TuiApp → Option TuiApp
  first_reads one two app = elim (first_read one app) [
    | none ↦ none
    | some app' ↦
        Option.map (λ (a : TuiApp). record a { status = "Conectado" }) (first_read two app')
  ]

  -- `main`, up to `run_tui`: the lines that were written.
  unfoldable pub greet : Start → Result (List String) IpcClientError
  greet w = do
    written ← connect_to w.socket_path w.exists w.refused
    let subscribed = subscribe requests responses w.first_fault w.reply written
    _ ← subscribed.0
    let configured = send requests w.config_fault subscribed.1 ClientRequest.get_config
    _ ← configured.0
    let listed = send requests w.peers_fault configured.1 ClientRequest.list_peers
    _ ← listed.0
    ok listed.1

  -- `main`, up to the loop.
  unfoldable pub start : Start → Result (Option Session) IpcClientError
  unfolding first_reads
  start w = do
    written ← greet w
    ok (Option.map (λ app. record { app = app; written = written }) (first_reads w.one w.two new))

-- How `--set-name` ends: the name is changed, the daemon refuses it, or it answers something else.
pub data SetName : Type 0 where
  changed : SetName
  refused_by_daemon : String → SetName
  unexpected : SetName

unfoldable pub set_name_of : ServerMessage → SetName
set_name_of ServerMessage.done = changed
set_name_of (ServerMessage.error code message) = refused_by_daemon message
set_name_of _ = unexpected

-- `set_display_name`, on a socket that exists and accepts the connection or not.
unfoldable pub set_display_name :
    IpcJson ClientRequest
    → IpcJson ServerMessage
    → Start
    → String
    → Result SetName IpcClientError × List String
unfolding set_name_of
set_display_name requests responses w name = elim (connect_to w.socket_path w.exists w.refused) [
  | err e ↦ (err e, [])
  | ok written ↦
      let (outcome, written') =
        send requests w.first_fault written (ClientRequest.set_display_name name) in
      (do _ ← outcome; response ← recv responses w.reply; ok (set_name_of response), written')
]
