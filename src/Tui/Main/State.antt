-- ===== src/Tui/Main/State.antt =====
-- crates/familycom/src/main.rs: the state of the loop of the terminal client, what a turn and the start
-- meet, and the steps that need no socket.
use Prim.Native.String.{◌++◌ as ◌<>◌}
use family_com.Prelude.{String, Bool, true, false, List, Option, none, some, Result, ok, err, ◌==◌}
use family_com.Core.Types.{PeerId, MessageId, Timestamp, Message, sent}
use family_com.Core.Ipc.{ServerMessage}
use family_com.Tui.App.{TuiApp, push_message, take_input}
use family_com.Tui.Event.{TerminalEvent, PanelRects}
use family_com.Tui.IpcClient.{IpcClientError, show_client_error}

-- The state of the loop: `app`, and the lines that `client` has written.
pub record Session : Type 0 where
  pub app : TuiApp
  pub written : List String

-- `Some(Ok(evt))`, `Some(Err(_))` and `None` of the event stream, what is read from the daemon, and
-- the tick.
pub data Ready : Type 0 where
  terminal : TerminalEvent → Ready
  input_error : Ready
  stream_ended : Ready
  daemon : Result String String → Ready
  tick : Ready

-- The loop is left when the stream of events has ended.
unfoldable pub goes_on : Ready → Bool
goes_on stream_ended = false
goes_on _ = true

-- What a turn meets: the rectangles that were drawn, a fault of the write, the identifier and the
-- time for a message.
pub record Turn : Type 0 where
  pub ready : Ready
  pub rects : PanelRects
  pub fault : Option String
  pub fresh_id : MessageId
  pub now : Timestamp

-- The message that is shown before the daemon knows of it.
unfoldable pub optimistic_message : Turn → PeerId → String → Message
optimistic_message turn peer_id content = record {
  id = turn.fresh_id;
  peer_id = peer_id;
  direction = sent;
  content = content;
  timestamp = turn.now;
  delivered = false;
}

-- What the start meets: the socket, the faults of the three writes, and the reads of the reply to
-- Subscribe and of the first two messages, which may time out. With --set-name there is one write
-- and one read, the first of each.
pub record Start : Type 0 where
  pub socket_path : String
  pub exists : Bool
  pub refused : Option String
  pub first_fault : Option String
  pub config_fault : Option String
  pub peers_fault : Option String
  pub reply : Result String String
  pub one : Option (Result String String)
  pub two : Option (Result String String)

-- The input is cleared, and the message is shown.
unfoldable pub show_sent : Turn → PeerId → String → TuiApp → TuiApp
unfolding take_input push_message optimistic_message
show_sent turn peer_id content app =
    let cleared = (take_input app).1 in
    record cleared {
      messages = push_message cleared.messages (optimistic_message turn peer_id content);
      messages_scroll = 0;
    }

-- What follows the call of `client.send`.
unfoldable pub after_send : TuiApp → Result (Unit {0}) IpcClientError × List String → Session
after_send app (ok _, written) = record { app = app; written = written }
after_send app (err e, written) = record {
  app = record app { status = "Error enviando: " <> show_client_error e };
  written = written;
}

-- `new_peer != prev_peer`.
unfoldable pub same_peer : Option PeerId → Option PeerId → Bool
same_peer none none = true
same_peer (some a) (some b) = a == b
same_peer _ _ = false

unfoldable pub is_peer_list : ServerMessage → Bool
is_peer_list (ServerMessage.peer_list _) = true
is_peer_list _ = false
