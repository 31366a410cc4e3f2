-- ===== src/Daemon/Notifications.antt =====
-- crates/familycomd/src/notifications.rs: the limit on the rate of notifications, and the preview.
-- An instant is a number of nanoseconds; what the desktop does with a notification is an argument.
pub mod Due
pub mod Preview
pub mod Rate
use Prim.Native.String.{◌++◌}
use mathlib.Core.Option
use family_com.Prelude.{
  ℕ, ◌+◌, ◌-◌, String, Bool, true, false, not, List, [], ◌∷◌, Option, none, some, Result, ok, err,
  ltb, if◌then◌else◌, byte_length, len_utf8, split_at?,
}

abbrev pub min_notification_interval : ℕ
min_notification_interval = 1000000000

pub record NotificationManager : Type 0 where
  pub last_notification : Option ℕ
  pub enabled : Bool

-- `NotificationManager::new`.
abbrev pub new : NotificationManager
new = record { last_notification = none; enabled = true }

-- `str::floor_char_boundary`.
unfoldable pub floor_char_boundary : String → ℕ → ℕ
floor_char_boundary String.[] index = 0
floor_char_boundary (String.◌∷◌ c s) index =
    let rest = floor_char_boundary s (index - len_utf8 c) in
    if ltb index (len_utf8 c) then 0 else len_utf8 c + rest

-- `truncated_preview`; `none` is a panic.
unfoldable pub truncate_preview : String → Option String
unfolding floor_char_boundary
truncate_preview preview =
    if ltb 100 (byte_length preview)
    then Option.map (λ (p : String × String). p.0 ++ "...")
        (split_at? preview (floor_char_boundary preview 97))
    else some preview

pub record Notification : Type 0 where
  pub summary : String
  pub body : String

-- A call of `notify_new_message`: when it is made, and, if a notification is shown, when that is
-- done or why it fails.
pub record Call : Type 0 where
  pub now : ℕ
  pub sender_name : String
  pub preview : String
  pub shows : Result ℕ String

-- Is the last notification less than a second old? `elapsed` is 0 for an instant to come.
unfoldable pub is_limited : Option ℕ → ℕ → Bool
is_limited none now = false
is_limited (some last) now = ltb (now - last) min_notification_interval

-- The part of `notify_new_message` from the text of the preview on.
unfoldable pub show_notification :
    NotificationManager → Call → String → Option Notification × NotificationManager
show_notification manager call body =
    let notification : Notification = record {
      summary = "FamilyCom - " ++ call.sender_name;
      body = body;
    } in
    elim call.shows [
      | ok shown ↦ (some notification, record manager { last_notification = some shown })
      | err _ ↦ (none, manager)
    ]

-- `notify_new_message`: the notification that was shown, and the manager. `none` is a panic.
unfoldable pub notify_new_message :
    NotificationManager → Call → Option (Option Notification × NotificationManager)
unfolding is_limited truncate_preview show_notification
notify_new_message manager call =
    if not manager.enabled
    then some (none, manager)
    else if is_limited manager.last_notification call.now
    then some (none, manager)
    else Option.map (show_notification manager call) (truncate_preview call.preview)

-- `set_enabled`.
unfoldable pub set_enabled : NotificationManager → Bool → NotificationManager
set_enabled manager enabled = record manager { enabled = enabled }
