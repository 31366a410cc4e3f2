-- ===== src/Daemon/Main/Notifier.antt =====
-- crates/familycomd/src/main.rs: the task that shows notifications of the daemon's events.
pub mod Due
pub mod Shown
pub mod Texts
use family_com.Prelude.{
  ℕ, String, List, [], ◌∷◌, ◌++◌, Option, none, some, Result, HashMap, get, insert,
}
use family_com.Core.Types.{PeerId, sent, received, Message}
use family_com.Core.Ipc.{ServerMessage}
use family_com.Daemon.Notifications.{
  NotificationManager, Notification, Call, new, truncate_preview, notify_new_message,
}

-- A panic ends the task.
infixl 5 ◌>>=◌
abbrev ◌>>=◌ {ℓ κ} : {A : Type ℓ} {B : Type κ} → Option A → (A → Option B) → Option B
none >>= f = none
some a >>= f = f a

-- What `recv` gives, up to the end of the channel: an event with the instant at which it is handled
-- and what showing a notification then gives, or that events were missed.
pub data Received : Type 0 where
  event : ServerMessage → ℕ → Result ℕ String → Received
  lagged : ℕ → Received

-- The task, with the notifications it has shown, each with the call that showed it.
pub record Notifier : Type 0 where
  pub peer_names : HashMap String
  pub manager : NotificationManager
  pub log : List (Call × Notification)

abbrev pub started : Notifier
started = record { peer_names = []; manager = new; log = [] }

unfoldable pub sender_name : HashMap String → PeerId → String
sender_name peer_names peer_id = elim (get peer_names peer_id) [ none ↦ "Peer" | some name ↦ name ]

-- The notifications after a call.
unfoldable pub logged :
    List (Call × Notification) → Call → Option Notification → List (Call × Notification)
logged log call none = log
logged log call (some notification) = log ++ (call, notification) ∷ []

unfoldable pub notify : Notifier → Call → Option Notifier
unfolding logged
notify notifier call = do
  (notification, manager) ← notify_new_message notifier.manager call
  some (record notifier { manager = manager; log = logged notifier.log call notification })

-- `none` is a panic.
unfoldable pub handle_event : Notifier → Received → Option Notifier
unfolding sender_name
handle_event notifier (event (ServerMessage.peer_online peer) now shows) =
    some (record notifier { peer_names = insert notifier.peer_names peer.id peer.display_name })
handle_event notifier (event (ServerMessage.new_message message) now shows) =
    elim message.direction [
      | sent ↦ some notifier
      | received ↦ do
        preview ← truncate_preview message.content
        notify notifier (record {
          now = now;
          sender_name = sender_name notifier.peer_names message.peer_id;
          preview = preview;
          shows = shows;
        })
    ]
handle_event notifier _ = some notifier

unfoldable pub notification_loop : Notifier → List Received → Option Notifier
notification_loop notifier [] = some notifier
notification_loop notifier (r ∷ rest) = do
  notifier' ← handle_event notifier r
  notification_loop notifier' rest
