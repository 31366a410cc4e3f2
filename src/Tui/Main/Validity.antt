-- ===== src/Tui/Main/Validity.antt =====
-- The client does not panic, and its state stays valid.
use text.Mathlib.TextLemmas.{nil-append}
use family_com.Prelude.{
  ◌≡◌, refl, sym, String, Bool, true, false, List, [], ◌∷◌, Option, some, Result, ok, err, arith,
  byte_length, Bool-cases, Option-cases, not, ◌&&◌, inl, inr, if◌then◌else◌, is_blank, trim,
}
use family_com.Core.Types.{PeerId}
use family_com.Core.Ipc.{ClientRequest, ServerMessage, IpcJson}
use family_com.Tui.App.{TuiApp, Action, selected_peer_id, take_input}
use family_com.Tui.App.Validity.{IsValid, handle_action-IsValid}
use family_com.Tui.Event.{TerminalEvent, handle_event}
use family_com.Tui.IpcClient.{IpcClientError, disconnected, recv, send}
use family_com.Tui.Main.{
  Session, Turn, Ready, terminal, daemon, send_to_peer, handle_send_message,
  fetch_selected_peer_messages, handle_other, perform, handle_terminal, handle_received,
  handle_ready, after_action, after_message, same_peer, is_peer_list, goes_on, run_loop,
}

-- The panics of a step are none, and what it gives is valid.
abbrev pub Returns : Option Session → Type 0
Returns r = (s' : Session) × (r ≡ some s') × IsValid s'.app

pub status-IsValid :
    (app : TuiApp) (text : String) → IsValid app → IsValid (record app { status = text })
status-IsValid app text w = record {
  selection = w.selection;
  scroll = w.scroll;
  before = w.before;
  after = w.after;
  text = w.text;
  cursor = w.cursor;
}

module _ (requests : IpcJson ClientRequest) (responses : IpcJson ServerMessage) where
  cleared-IsValid : (app : TuiApp) → IsValid app → IsValid (take_input app).1
  unfolding take_input byte_length
  cleared-IsValid app w = record {
    selection = w.selection;
    scroll = w.scroll;
    before = "";
    after = "";
    text = sym (nil-append "");
    cursor = refl;
  }

  send_to_peer-IsValid :
      (turn : Turn) (k : PeerId) (content : String) (s : Session)
      → IsValid s.app
      → IsValid (send_to_peer requests responses turn k content s).app
  unfolding send_to_peer send
  send_to_peer-IsValid turn k content s w = let v = cleared-IsValid s.app w in ground arith

  handle_send_message-IsValid :
      (turn : Turn) (s : Session)
      → IsValid s.app
      → IsValid (handle_send_message requests responses turn s).app
  unfolding handle_send_message
  handle_send_message-IsValid turn s w = elim (Bool-cases (is_blank (trim s.app.input))) [
    | inl blank ↦ rw blank w
    | inr full ↦ elim (Option-cases (selected_peer_id s.app)) [
      | inl e ↦ rw (full, e, handle_send_message) (status-IsValid s.app _ w)
      | inr (k, e) ↦
          rw (full, e, handle_send_message) (send_to_peer-IsValid turn k (trim s.app.input) s w)
    ]
  ]

  fetch-IsValid :
      (fault : Option String) (s : Session)
      → IsValid s.app
      → IsValid (fetch_selected_peer_messages requests responses fault s).app
  unfolding fetch_selected_peer_messages
  fetch-IsValid fault s w = elim (Option-cases (selected_peer_id s.app)) [
    | inl e ↦ rw (e, fetch_selected_peer_messages) w
    | inr (k, e) ↦ rw (e, fetch_selected_peer_messages) w
  ]

  either-IsValid :
      (b : Bool) (x y : Session) → IsValid x.app → IsValid y.app → IsValid (if b then x else y).app
  either-IsValid true x y v w = v
  either-IsValid false x y v w = w

  handle_other-Returns :
      (turn : Turn) (action : Action) (s : Session)
      → IsValid s.app
      → Returns (handle_other requests responses turn action s)
  unfolding handle_other after_action
  handle_other-Returns turn action s w =
      let (app, e, v) = handle_action-IsValid s.app action w in
      (
        after_action requests responses turn s app,
        rw (e, handle_other) refl,
        either-IsValid (same_peer (selected_peer_id app) (selected_peer_id s.app))
            (record s { app = app })
            (fetch_selected_peer_messages requests responses turn.fault (record s { app = app })) v
            (fetch-IsValid turn.fault (record s { app = app }) v),
      )

  perform-Returns :
      (turn : Turn) (action : Action) (s : Session)
      → IsValid s.app
      → Returns (perform requests responses turn action s)
  unfolding perform
  perform-Returns turn Action.send_message s w = (_, refl, handle_send_message-IsValid turn s w)
  perform-Returns turn action s w = handle_other-Returns turn action s w

  handle_terminal-Returns :
      (turn : Turn) (e : TerminalEvent) (s : Session)
      → IsValid s.app
      → Returns (handle_terminal requests responses turn e s)
  unfolding handle_terminal
  handle_terminal-Returns turn e s w = elim (Option-cases (handle_event e turn.rects s.app)) [
    | inl q ↦ (s, rw (q, handle_terminal) refl, w)
    | inr (action, q) ↦ rw (q, handle_terminal) (perform-Returns turn action s w)
  ]

  handle_received-Returns :
      (turn : Turn) (r : Result ServerMessage IpcClientError) (s : Session)
      → IsValid s.app
      → Returns (handle_received requests responses turn r s)
  unfolding handle_received after_message
  handle_received-Returns turn (ok msg) s w =
      let (app, e, v) = handle_action-IsValid s.app (Action.server_message msg) w in
      (
        after_message requests responses turn msg s app,
        rw (e, handle_received) refl,
        either-IsValid (is_peer_list msg)
            (fetch_selected_peer_messages requests responses turn.fault (record s { app = app }))
            (record s { app = app }) (fetch-IsValid turn.fault (record s { app = app }) v) v,
      )
  handle_received-Returns turn (err disconnected) s w = (_, refl, status-IsValid s.app _ w)
  handle_received-Returns turn (err e) s w = (_, refl, status-IsValid s.app _ w)

  pub handle_ready-Returns :
      (turn : Turn) (r : Ready) (s : Session)
      → IsValid s.app
      → Returns (handle_ready requests responses turn r s)
  unfolding handle_ready
  handle_ready-Returns turn (terminal e) s w = handle_terminal-Returns turn e s w
  handle_ready-Returns turn (daemon read) s w =
      handle_received-Returns turn (recv responses read) s w
  handle_ready-Returns turn _ s w = (s, refl, w)

  -- From a valid state the loop of the terminal client does not panic, whatever keys, clicks and
  -- messages of the daemon come in whatever order and whatever write fails, and it leaves a valid
  -- state: the selection is one of the peers and the cursor stands between two characters.
  pub run_loop-IsValid :
      (turns : List Turn) (s : Session)
      → IsValid s.app
      → Returns (run_loop requests responses turns s)
  unfolding run_loop
  run_loop-IsValid [] s w = (s, refl, w)
  run_loop-IsValid (turn ∷ turns) s w =
      let (s', e, v) = handle_ready-Returns turn turn.ready s w in
      elim (Bool-cases (goes_on turn.ready && not s'.app.should_quit)) [
        | inl more ↦ rw (e, run_loop) (rw (more, run_loop) (run_loop-IsValid turns s' v))
        | inr done ↦ (s', rw (e, run_loop) (rw (done, run_loop) refl), v)
      ]
