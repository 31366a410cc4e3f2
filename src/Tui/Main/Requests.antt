-- ===== src/Tui/Main/Requests.antt =====
-- The loop keeps it so that the history of the selected peer has been asked for.
use Prim.Native.String.{◌++◌ as ◌<>◌}
use family_com.Prelude.{
  ◌≡◌, String, not, ◌&&◌, List, [], ◌∷◌, none, some, Result, ok, err, arith, All, Bool-cases,
  Option-cases, inl, inr,
}
use family_com.Core.Ipc.{ClientRequest, ServerMessage, IpcJson, encode_request}
use family_com.Tui.App.{TuiApp, Action, selected_peer_id, handle_action, handle_server_message}
use family_com.Tui.App.Validity.{IsValid}
use family_com.Tui.Event.{TerminalEvent, handle_event}
use family_com.Tui.IpcClient.{IpcClientError, disconnected, show_client_error, recv}
use family_com.Tui.Main.{
  Session, Turn, Ready, terminal, daemon, handle_send_message, handle_other, perform,
  handle_terminal, handle_received, handle_ready, after_action, after_message, same_peer,
  is_peer_list, goes_on, run_loop,
}
use family_com.Tui.Main.Selection.{handle_server_message-selected}
use family_com.Tui.Main.Validity.{handle_ready-Returns}
use family_com.Tui.Main.Fetching.{
  IsFetched, same_peer-eq, fetch-IsFetched, shown-IsFetched, handle_send_message-IsFetched,
}

-- Every request can be written as a line: what serde_json does for texts and numbers.
module _ (requests : IpcJson ClientRequest) (responses : IpcJson ServerMessage)
    (line : ClientRequest → String)
    (encodes : (r : ClientRequest) → encode_request requests r ≡ ok (line r)) where
  after_action-IsFetched :
      (turn : Turn) (s : Session) (app : TuiApp)
      → turn.fault ≡ none
      → IsFetched requests responses line encodes s
      → IsFetched requests responses line encodes (after_action requests responses turn s app)
  unfolding after_action
  after_action-IsFetched turn s app f h =
      elim (Bool-cases (same_peer (selected_peer_id app) (selected_peer_id s.app))) [
        | inl y ↦ rw y (rw (same_peer-eq (selected_peer_id app) (selected_peer_id s.app) y) h)
        | inr n ↦
            rw (n, f) (fetch-IsFetched requests responses line encodes (record s { app = app }))
      ]

  handle_other-IsFetched :
      (turn : Turn) (action : Action) (s s' : Session)
      → turn.fault ≡ none
      → IsFetched requests responses line encodes s
      → handle_other requests responses turn action s ≡ some s'
      → IsFetched requests responses line encodes s'
  unfolding handle_other
  handle_other-IsFetched turn action s s' f h e = elim (Option-cases (handle_action s.app action)) [
    | inl q ↦ ground (arith, q)
    | inr (app, q) ↦
        let same : after_action requests responses turn s app ≡ s' = ground (arith, q) in
        rw (← same) (after_action-IsFetched turn s app f h)
  ]

  perform-IsFetched :
      (turn : Turn) (action : Action) (s s' : Session)
      → turn.fault ≡ none
      → IsFetched requests responses line encodes s
      → perform requests responses turn action s ≡ some s'
      → IsFetched requests responses line encodes s'
  unfolding perform
  perform-IsFetched turn Action.send_message s s' f h e =
      let same : handle_send_message requests responses turn s ≡ s' = ground arith in
      rw (← same) (handle_send_message-IsFetched requests responses line encodes turn s f h)
  perform-IsFetched turn action s s' f h e = handle_other-IsFetched turn _ s s' f h e

  handle_terminal-IsFetched :
      (turn : Turn) (event : TerminalEvent) (s s' : Session)
      → turn.fault ≡ none
      → IsFetched requests responses line encodes s
      → handle_terminal requests responses turn event s ≡ some s'
      → IsFetched requests responses line encodes s'
  unfolding handle_terminal
  handle_terminal-IsFetched turn event s s' f h e =
      elim (Option-cases (handle_event event turn.rects s.app)) [
        | inl q ↦ let same : s ≡ s' = ground (arith, q) in rw (← same) h
        | inr (action, q) ↦ perform-IsFetched turn action s s' f h (ground (arith, q))
      ]

  after_message-IsFetched :
      (turn : Turn) (m : ServerMessage) (s : Session)
      → turn.fault ≡ none
      → IsValid s.app
      → IsFetched requests responses line encodes s
      → IsFetched requests responses line encodes
          (after_message requests responses turn m s (handle_server_message s.app m))
  unfolding after_message
  after_message-IsFetched turn m s f w h = elim (Bool-cases (is_peer_list m)) [
    | inl y ↦
        rw (y, f)
          (fetch-IsFetched requests responses line encodes
            (record s { app = handle_server_message s.app m }))
    | inr n ↦ rw n (rw (handle_server_message-selected s.app m n w) h)
  ]

  handle_received-IsFetched :
      (turn : Turn) (r : Result ServerMessage IpcClientError) (s s' : Session)
      → turn.fault ≡ none
      → IsValid s.app
      → IsFetched requests responses line encodes s
      → handle_received requests responses turn r s ≡ some s'
      → IsFetched requests responses line encodes s'
  unfolding handle_received handle_action
  handle_received-IsFetched turn (ok m) s s' f w h e =
      let same : after_message requests responses turn m s (handle_server_message s.app m) ≡ s' =
        ground arith in
      rw (← same) (after_message-IsFetched turn m s f w h)
  handle_received-IsFetched turn (err disconnected) s s' f w h e =
      shown-IsFetched requests responses line encodes "Desconectado del daemon" s s' h e
  handle_received-IsFetched turn (err c) s s' f w h e =
      shown-IsFetched requests responses line encodes ("Error: " <> show_client_error c) s s' h e

  handle_ready-IsFetched :
      (turn : Turn) (r : Ready) (s s' : Session)
      → turn.fault ≡ none
      → IsValid s.app
      → IsFetched requests responses line encodes s
      → handle_ready requests responses turn r s ≡ some s'
      → IsFetched requests responses line encodes s'
  unfolding handle_ready
  handle_ready-IsFetched turn (terminal event) s s' f w h e =
      handle_terminal-IsFetched turn event s s' f h e
  handle_ready-IsFetched turn (daemon read) s s' f w h e =
      handle_received-IsFetched turn (recv responses read) s s' f w h e
  handle_ready-IsFetched turn _ s s' f w h e = let same : s ≡ s' = ground arith in rw (← same) h

  -- Once the history of the selected peer has been asked for, or no peer is selected, the loop keeps
  -- it so over any turns whose writes succeed: whoever is selected afterwards, by a key, a click or a
  -- list of the daemon, a request for the last 100 messages of that peer has been written.
  pub run_loop-IsFetched :
      (turns : List Turn) (s s' : Session)
      → All (λ (t : Turn). t.fault ≡ none) turns
      → IsValid s.app
      → IsFetched requests responses line encodes s
      → run_loop requests responses turns s ≡ some s'
      → IsFetched requests responses line encodes s'
  unfolding run_loop
  run_loop-IsFetched [] s s' f w h e = let same : s ≡ s' = ground arith in rw (← same) h
  run_loop-IsFetched (turn ∷ turns) s s' f w h e =
      let (t, q, v) = handle_ready-Returns requests responses turn turn.ready s w in
      let k = handle_ready-IsFetched turn turn.ready s t f.0 w h q in
      elim (Bool-cases (goes_on turn.ready && not t.app.should_quit)) [
        | inl more ↦ run_loop-IsFetched turns t s' f.1 v k (ground (arith, q))
        | inr done ↦ let same : t ≡ s' = ground (arith, q) in rw (← same) k
      ]
