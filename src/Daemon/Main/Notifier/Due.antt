-- ===== src/Daemon/Main/Notifier/Due.antt =====
-- The notifications that the task of main.rs shows for short calls.
use Prim.Native.String.{◌++◌ as ◌<>◌}
use family_com.Prelude.{
  ℕ, ◌≡◌, refl, sym, ap, ◌∙◌, ◌≤◌, inl, inr, true, false, ok, Bool-cases, Result-cases, List, [],
  ◌∷◌, some, map, arith, All, byte_length,
}
use family_com.Daemon.Notifications.{NotificationManager, Notification, Call, notify_new_message}
use family_com.Daemon.Notifications.Due.{
  is_too_soon, due, due-refused, due-soon, due-told, notify_new_message-soon,
  notify_new_message-refused, notify_new_message-disabled, notify_new_message-told,
}
use family_com.Daemon.Notifications.Preview.{shortened}
use family_com.Daemon.Main.Notifier.Shown.{notifications, notifications-none, notifications-some}

abbrev pub IsShort : Call → Type 0
IsShort call = byte_length call.preview ≤ 100

-- A call with the notification that names its sender and has its text.
abbrev pub told : Call → Call × Notification
told call = (call, record { summary = "FamilyCom - " <> call.sender_name; body = call.preview })

tells :
    (manager : NotificationManager) (call : Call)
    → IsShort call
    → (t : ℕ) → manager.enabled ≡ true
    → is_too_soon manager.last_notification call.now ≡ false
    → call.shows ≡ ok t
    → notify_new_message manager call
      ≡ some (some (told call).1, record manager { last_notification = some t })
tells manager call short t on free at =
    let whole : shortened call.preview ≡ call.preview = ground arith in
    notify_new_message-told manager call t on free at
    ∙ ap
        (λ b. some (
          some (record { summary = "FamilyCom - " <> call.sender_name; body = b }),
          record manager { last_notification = some t },
        ))
        whole

pub notifications-due :
    (manager : NotificationManager) (calls : List Call)
    → All IsShort calls
    → manager.enabled ≡ true
    → notifications manager calls ≡ map told (due manager.last_notification calls)
notifications-due manager [] short on = unfold notifications due in refl
notifications-due manager (call ∷ calls) (short, rest) on = elim (Result-cases call.shows) [
  | inr (e, fails) ↦
      notifications-none manager call calls (notify_new_message-refused manager call e fails)
      ∙ notifications-due manager calls rest on
      ∙ sym (ap (map told) (due-refused manager.last_notification call calls e fails))
  | inl (t, at) ↦ elim (Bool-cases (is_too_soon manager.last_notification call.now)) [
    | inl soon ↦
        notifications-none manager call calls (notify_new_message-soon manager call soon)
        ∙ notifications-due manager calls rest on
        ∙ sym (ap (map told) (due-soon manager.last_notification call calls t at soon))
    | inr free ↦
        let manager' = record manager { last_notification = some t } in
        notifications-some manager call calls (told call).1 manager'
          (tells manager call short t on free at)
        ∙ ap (λ l. told call ∷ l) (notifications-due manager' calls rest on)
        ∙ sym (ap (map told) (due-told manager.last_notification call calls t at free))
  ]
]

pub notifications-disabled :
    (manager : NotificationManager) (calls : List Call)
    → manager.enabled ≡ false
    → notifications manager calls ≡ []
notifications-disabled manager [] off = unfold notifications in refl
notifications-disabled manager (call ∷ calls) off =
    notifications-none manager call calls (notify_new_message-disabled manager call off)
    ∙ notifications-disabled manager calls off
