-- ===== src/Tests/Client.antt =====
-- The terminal client at concrete keys and messages.
use family_com.Prelude.{
  ◌≡◌, refl, sym, arith, ◌↔◌, true, false, [], ◌∷◌, ◌++◌, none, some, ok, pos, trim, trim_start,
  trim_end, cons_trimmed, is_whitespace, byte_length, if◌then◌else◌, ◌==◌, push,
}
use family_com.Core.Types.{PeerId}
use family_com.Tui.App.History.{history}
use family_com.Core.Ipc.{ClientRequest, decode_response, encode_request}
use family_com.Tui.App.{
  TuiApp, Action, FocusedPanel, new, selected_peer, selected_peer_id, handle_action,
  handle_server_message, keep_selected, select_index, next_index,
}
use family_com.Tui.App.Validity.{IsValid}
use family_com.Tui.Event.{
  KeyCode, TerminalEvent, Rect, PanelRects, handle_event, handle_key_event, focused_key,
  handle_peer_list_key,
}
use family_com.Tui.Event.Keys.{ends_client, handle_event_quit_iff}
use family_com.Tui.IpcClient.{connect_to, send, recv, check_subscribed, subscribe}
use text.Mathlib.TextLemmas.{nil-append}
use family_com.Tui.Main.{
  Session, Turn, tick, Start, greet, first_read, first_reads, start, goes_on, handle_ready,
  handle_terminal, perform, handle_other, after_action, same_peer, fetch_selected_peer_messages,
  run_loop,
}
use family_com.Tui.Main.Validity.{Returns}
use family_com.Tui.Main.Fetching.{IsFetched}
use family_com.Tui.Main.Requests.{run_loop-IsFetched}
use family_com.Tui.Main.Typing.{keys, press, own_message, run_loop-typed}
use family_com.Tui.Ui.Drawn.{IsDrawn, run_loop-IsDrawn}
use family_com.Tui.Main.Startup.{smooth_start, greeting, start-unasked, run_loop-IsValid_started}
use family_com.Tests.Engines.{write_texts}
use family_com.Tests.Lines.{
  requests, responses, request_line, request_line-encodes, request_texts, read_response,
}
use family_com.Tests.Samples.{alice}

abbrev rect : Rect
rect = record { x = 0; y = 0; width = 10; height = 10 }

abbrev rects : PanelRects
rects = record { peers = rect; messages = rect; input = rect }

abbrev idle : Turn
idle = record { ready = tick; rects = rects; fault = none; fresh_id = "local"; now = pos 9 }

handle_event_quit_iff_example :
    (handle_event (TerminalEvent.key (record { code = KeyCode.esc; control = false })) rects new
      ≡ some Action.quit)
    ↔ (ends_client
          (TerminalEvent.key (record { code = KeyCode.esc; control = false }))
          FocusedPanel.peer_list
        ≡ true)
handle_event_quit_iff_example =
    handle_event_quit_iff (TerminalEvent.key (record { code = KeyCode.esc; control = false })) rects
      new

abbrev beginning : Start
beginning =
    smooth_start "/run/familycom.sock" (ok "ok\n") (some (ok "config\n")) (some (ok "peers\n"))

start-unasked_example :
    (s : Session) × (start requests responses beginning ≡ ok (some s))
    × (selected_peer_id s.app ≡ some "alice")
    × (s.written ≡ greeting requests responses request_line request_line-encodes)
unfolding recv decode_response read_response trim trim_start trim_end cons_trimmed is_whitespace
start-unasked_example =
    start-unasked requests responses request_line request_line-encodes "/run/familycom.sock"
      (ok "ok\n") (ok "config\n") (ok "peers\n") "Bob" "bob" alice [] refl refl refl

-- The client after that start.
abbrev with_alice : TuiApp
with_alice = record new {
  peers = alice ∷ [];
  selected_peer_idx = some 0;
  our_name = "Bob";
  our_peer_id = some "bob";
  status = "Conectado";
}

abbrev begun : Session
begun = record {
  app = with_alice;
  written =
      request_line ClientRequest.subscribe
      ∷ request_line ClientRequest.get_config
      ∷ request_line ClientRequest.list_peers
      ∷ [];
}

begins : start requests responses beginning ≡ ok (some begun)
unfolding start greet connect_to subscribe check_subscribed send recv decode_response encode_request
    read_response trim trim_start trim_end cons_trimmed is_whitespace first_reads first_read
    handle_action handle_server_message keep_selected request_texts write_texts
begins = refl

run_loop-IsValid_started_example :
    (s : Session) × (some begun ≡ some s)
    × IsValid s.app
    × Returns (run_loop requests responses (press idle KeyCode.tab ∷ press idle KeyCode.esc ∷ []) s)
run_loop-IsValid_started_example =
    run_loop-IsValid_started requests responses beginning
      (press idle KeyCode.tab ∷ press idle KeyCode.esc ∷ []) (some begun) begins

-- The list of peers, with none of them selected.
abbrev unselected : Session
unselected = record { app = record with_alice { selected_peer_idx = none }; written = [] }

abbrev fetched : Session
fetched = record {
  app = with_alice;
  written = request_line (ClientRequest.get_messages "alice" 100 none) ∷ [];
}

selects :
    run_loop requests responses (press idle KeyCode.down ∷ idle ∷ []) unselected ≡ some fetched
unfolding run_loop handle_ready handle_terminal handle_event handle_key_event perform handle_other
    after_action handle_action select_index next_index same_peer selected_peer_id selected_peer
    fetch_selected_peer_messages send encode_request goes_on request_texts write_texts
    handle_peer_list_key focused_key
selects = refl

run_loop-IsFetched_example : IsFetched requests responses request_line request_line-encodes fetched
unfolding selected_peer_id selected_peer byte_length
run_loop-IsFetched_example =
    run_loop-IsFetched requests responses request_line request_line-encodes
      (press idle KeyCode.down ∷ idle ∷ []) unselected fetched (refl, (refl, tt))
      (record {
        selection = tt;
        scroll = omega arith;
        before = "";
        after = "";
        text = sym (nil-append "");
        cursor = refl;
      })
      tt selects

run_loop-typed_example :
    (s' : Session) × (run_loop requests responses
        (keys idle " hi " ++ press idle KeyCode.enter ∷ [])
        (record begun { app = record with_alice { focused = FocusedPanel.input } })
      ≡ some s')
    × (s'.written
        ≡ begun.written ++ request_line (ClientRequest.send_message "alice" (trim " hi ")) ∷ [])
    × ((j : PeerId)
        → history s'.app.messages j ≡ (
            if "alice" == j
            then push (history [] j) (own_message idle "alice" (trim " hi "))
            else history [] j))
    × (s'.app.input ≡ "")
    × (s'.app.input_cursor ≡ 0)
unfolding selected_peer_id selected_peer trim trim_start trim_end cons_trimmed is_whitespace
run_loop-typed_example =
    run_loop-typed requests responses request_line request_line-encodes idle " hi "
      (record begun { app = record with_alice { focused = FocusedPanel.input } }) "alice" refl refl
      refl refl refl refl refl

run_loop-IsDrawn_example :
    (s s' : Session) × (some begun ≡ some s)
    × (run_loop requests responses (press idle KeyCode.tab ∷ press idle KeyCode.esc ∷ []) s
        ≡ some s')
    × IsDrawn s.app
    × IsDrawn s'.app
run_loop-IsDrawn_example =
    run_loop-IsDrawn requests responses beginning
      (press idle KeyCode.tab ∷ press idle KeyCode.esc ∷ []) (some begun) begins
