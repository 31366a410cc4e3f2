-- ===== src/Tests/Notifications.antt =====
-- Notifications at concrete calls.
use family_com.Prelude.{◌≡◌, List, [], ◌∷◌, Option, none, if◌then◌else◌, some, ok, err, All}
use family_com.Daemon.Notifications.{
  NotificationManager, Notification, Call, new, notify_new_message,
}
use family_com.Daemon.Notifications.Due.{due}
use family_com.Daemon.Notifications.Rate.{shown, at_instants, IsSpaced, shown-IsSpaced}

abbrev calls : List Call
calls =
    record { now = 5; sender_name = "Alice"; preview = "hola"; shows = ok 7 }
    ∷ record { now = 9; sender_name = "Alice"; preview = "mañana"; shows = ok 11 }
    ∷ record { now = 2000000000; sender_name = "Alice"; preview = "adiós"; shows = err "no bus" }
    ∷ record { now = 2000000001; sender_name = "Alice"; preview = "adiós"; shows = ok 2000000009 }
    ∷ []

shown-IsSpaced_example :
    All
      (λ (call : Call).
        (p : Option Notification × NotificationManager) × (notify_new_message new call ≡ some p))
      calls
    × (shown new calls ≡ (if new.enabled then at_instants (due none calls) else []))
    × IsSpaced new.last_notification (shown new calls)
shown-IsSpaced_example = shown-IsSpaced new calls
