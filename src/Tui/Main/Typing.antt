-- ===== src/Tui/Main/Typing.antt =====
-- A line that is typed and sent.
use Prim.Native.String.{◌++◌ as ◌<>◌}
use mathlib.Core.Path.{ap₂}
use text.Mathlib.TextLemmas.{nil-append, cons-append, append-nil, append_assoc}
use family_com.Prelude.{
  ◌≡◌, refl, ap, sym, ◌∙◌, String, Char, true, false, not, ◌&&◌, List, [], ◌∷◌, ◌++◌, Option, none,
  some, ok, eq_refl, is_blank, trim, byte_length, push, if◌then◌else◌, ◌==◌,
}
use family_com.Core.Types.{PeerId, Message, sent}
use family_com.Core.Ipc.{ClientRequest, ServerMessage, IpcJson, encode_request}
use family_com.Tui.App.{
  TuiApp, FocusedPanel, Action, selected_peer, selected_peer_id, take_input, handle_action,
}
use family_com.Tui.App.History.{history, history-push_message}
use family_com.Tui.App.Editor.{showing, types, edit, handle_action-showing}
use family_com.Tui.Event.{
  KeyCode, TerminalEvent, PanelRects, handle_event, handle_key_event, focused_key, handle_input_key,
}
use family_com.Tui.Main.{
  Session, Turn, terminal, optimistic_message, show_sent, send_to_peer, handle_send_message,
  handle_other, perform, handle_terminal, handle_ready, after_action, same_peer, goes_on, run_loop,
}
use family_com.Tui.Main.Fetching.{send_to_peer_lem}

-- A key that is pressed alone.
abbrev pub press : Turn → KeyCode → Turn
press turn code = record turn {
  ready = terminal (TerminalEvent.key (record { code = code; control = false }));
}

-- The keys of a text.
unfoldable pub keys : Turn → String → List Turn
keys turn String.[] = []
keys turn (String.◌∷◌ c s) = press turn (KeyCode.char c) ∷ keys turn s

same_peer_refl : (k : Option PeerId) → same_peer k k ≡ true
unfolding same_peer
same_peer_refl none = refl
same_peer_refl (some k) = eq_refl k

char_key :
    (c : Char) (rects : PanelRects) (app : TuiApp)
    → app.focused ≡ FocusedPanel.input
    → handle_event (TerminalEvent.key (record { code = KeyCode.char c; control = false })) rects app
      ≡ some (Action.input_char c)
unfolding handle_event handle_key_event focused_key handle_input_key
char_key c rects app f = rw (f, focused_key) refl

enter_key :
    (rects : PanelRects) (app : TuiApp)
    → app.focused ≡ FocusedPanel.input
    → handle_event (TerminalEvent.key (record { code = KeyCode.enter; control = false })) rects app
      ≡ some Action.send_message
unfolding handle_event handle_key_event focused_key handle_input_key
enter_key rects app f = rw (f, focused_key) refl

-- The message that the user sees at once.
abbrev pub own_message : Turn → PeerId → String → Message
own_message turn peer_id content = record {
  id = turn.fresh_id;
  peer_id = peer_id;
  direction = sent;
  content = content;
  timestamp = turn.now;
  delivered = false;
}

module _ (requests : IpcJson ClientRequest) (responses : IpcJson ServerMessage) where
  type_char :
      (turn : Turn) (c : Char) (app : TuiApp) (a : String) (written : List String)
      → app.focused ≡ FocusedPanel.input
      → handle_terminal requests responses turn
          (TerminalEvent.key (record { code = KeyCode.char c; control = false }))
          (record { app = showing app a ""; written = written })
        ≡ some (record { app = showing app (a <> String.◌∷◌ c "") ""; written = written })
  unfolding handle_terminal perform handle_other after_action
  type_char turn c app a written f =
      let edited : handle_action (showing app a "") (Action.input_char c)
          ≡ some (showing app (a <> String.◌∷◌ c "") "") =
        unfold edit in handle_action-showing app a "" (types c) in
      let kept : same_peer (selected_peer_id (showing app (a <> String.◌∷◌ c "") ""))
            (selected_peer_id (showing app a ""))
          ≡ true =
        unfold selected_peer_id selected_peer in same_peer_refl (selected_peer_id app) in
      rw (char_key c turn.rects (showing app a "") f, handle_terminal)
        (rw (edited, handle_other) (rw kept refl))

  sends :
      (turn : Turn) (content : String) (k : PeerId) (s : Session)
      → trim s.app.input ≡ content
      → is_blank content ≡ false
      → selected_peer_id s.app ≡ some k
      → handle_send_message requests responses turn s
        ≡ send_to_peer requests responses turn k content s
  unfolding handle_send_message
  sends turn content k s t full chosen =
      let full' : is_blank (trim s.app.input) ≡ false = ap is_blank t ∙ full in
      rw (full', chosen, handle_send_message)
        (ap (λ c. send_to_peer requests responses turn k c s) t)

  run_loop-step :
      (turn : Turn) (turns : List Turn) (s s' : Session)
      → handle_ready requests responses turn turn.ready s ≡ some s'
      → (goes_on turn.ready && not s'.app.should_quit) ≡ true
      → run_loop requests responses (turn ∷ turns) s ≡ run_loop requests responses turns s'
  unfolding run_loop
  run_loop-step turn turns s s' e more = rw (e, run_loop) (rw (more, run_loop) refl)

  run_loop-keys :
      (turn : Turn) (text : String) (rest : List Turn) (app : TuiApp) (a : String)
      (written : List String)
      → app.focused ≡ FocusedPanel.input
      → app.should_quit ≡ false
      → run_loop requests responses
          (keys turn text ++ rest)
          (record { app = showing app a ""; written = written })
        ≡ run_loop requests responses rest
            (record { app = showing app (a <> text) ""; written = written })
  unfolding keys
  run_loop-keys turn String.[] rest app a written f q =
      ap
        (λ t.
          run_loop requests responses rest (record { app = showing app t ""; written = written }))
        (sym (append-nil a))
  run_loop-keys turn (String.◌∷◌ c s) rest app a written f q =
      run_loop-step (press turn (KeyCode.char c)) (keys turn s ++ rest)
        (record { app = showing app a ""; written = written })
        (record { app = showing app (a <> String.◌∷◌ c "") ""; written = written })
        (unfold handle_ready in type_char (press turn (KeyCode.char c)) c app a written f)
        (unfold goes_on in ap not q)
      ∙ run_loop-keys turn s rest app (a <> String.◌∷◌ c "") written f q
      ∙ ap
          (λ t.
            run_loop requests responses rest (record { app = showing app t ""; written = written }))
          (append_assoc a (String.◌∷◌ c "") s
            ∙ ap (λ t. a <> t) (cons-append c "" s ∙ ap (String.◌∷◌ c) (nil-append s)))

  type_enter :
      (line : ClientRequest → String)
      → ((r : ClientRequest) → encode_request requests r ≡ ok (line r))
      → (turn : Turn) (app : TuiApp) (text : String) (k : PeerId) (written : List String)
      → turn.fault ≡ none
      → app.focused ≡ FocusedPanel.input
      → selected_peer_id app ≡ some k
      → is_blank (trim text) ≡ false
      → handle_terminal requests responses turn
          (TerminalEvent.key (record { code = KeyCode.enter; control = false }))
          (record { app = showing app text ""; written = written })
        ≡ some (record {
          app = show_sent turn k (trim text) (showing app text "");
          written = written ++ line (ClientRequest.send_message k (trim text)) ∷ [];
        })
  unfolding handle_terminal perform
  type_enter line encodes turn app text k written f w chosen full =
      rw (enter_key turn.rects (showing app text "") w, handle_terminal)
        (ap (λ t. some t)
          (sends turn (trim text) k (record { app = showing app text ""; written = written })
              (ap trim (append-nil text)) full (unfold selected_peer_id selected_peer in chosen)
            ∙ send_to_peer_lem requests responses line encodes turn k (trim text)
                (record { app = showing app text ""; written = written }) f))

  -- With the input focused and empty and a peer selected, the keys of a text that is not all blank,
  -- and then Enter, send the peer exactly the trimmed text, if the line can be written: one line goes
  -- out; the message, with that content, under the fresh identifier and at the present time, as sent
  -- and not delivered, is shown as the last of the conversation with the peer, and no other
  -- conversation changes; and the input is empty again.
  pub run_loop-typed :
      (line : ClientRequest → String)
      → ((r : ClientRequest) → encode_request requests r ≡ ok (line r))
      → (turn : Turn) (text : String) (s : Session) (k : PeerId) → turn.fault ≡ none
      → s.app.focused ≡ FocusedPanel.input
      → s.app.should_quit ≡ false
      → s.app.input ≡ ""
      → s.app.input_cursor ≡ 0
      → selected_peer_id s.app ≡ some k
      → is_blank (trim text) ≡ false
      → (s' : Session) × (run_loop requests responses
            (keys turn text ++ press turn KeyCode.enter ∷ [])
            s
          ≡ some s')
        × (s'.written ≡ s.written ++ line (ClientRequest.send_message k (trim text)) ∷ [])
        × ((j : PeerId)
            → history s'.app.messages j ≡ (
                if k == j
                then push (history s.app.messages j) (own_message turn k (trim text))
                else history s.app.messages j))
        × (s'.app.input ≡ "")
        × (s'.app.input_cursor ≡ 0)
  unfolding handle_ready handle_terminal
  run_loop-typed line encodes turn text s k f w q empty cursor chosen full =
      let session : String → String → Session =
        λ a b. record { app = showing s.app a b; written = s.written } in
      let begin : s ≡ session "" "" =
        ap₂ (λ t n. record s { app = record s.app { input = t; input_cursor = n } })
          (empty ∙ sym (nil-append "")) (cursor ∙ unfold byte_length in refl) in
      let last : Session = record {
        app = show_sent (press turn KeyCode.enter) k (trim text) (showing s.app text "");
        written = s.written ++ line (ClientRequest.send_message k (trim text)) ∷ [];
      } in
      let entered : handle_ready requests responses (press turn KeyCode.enter)
            (press turn KeyCode.enter).ready (session text "")
          ≡ some last =
        type_enter line encodes (press turn KeyCode.enter) s.app text k s.written f w
          (unfold selected_peer_id selected_peer in chosen) full in
      let more : (goes_on (press turn KeyCode.enter).ready && not last.app.should_quit) ≡ true =
        unfold goes_on show_sent take_input in ap not q in
      (
        last,
        ap (run_loop requests responses (keys turn text ++ press turn KeyCode.enter ∷ [])) begin
            ∙ run_loop-keys turn text (press turn KeyCode.enter ∷ []) s.app "" s.written w q
            ∙ ap (λ t. run_loop requests responses (press turn KeyCode.enter ∷ []) (session t ""))
                (nil-append text)
            ∙ run_loop-step (press turn KeyCode.enter) [] (session text "") last entered more
            ∙ unfold run_loop in refl,
        refl,
        unfold show_sent take_input optimistic_message in
            history-push_message s.app.messages (own_message turn k (trim text)),
        unfold show_sent take_input in refl,
        unfold show_sent take_input in refl,
      )
