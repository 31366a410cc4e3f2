-- ===== src/Daemon/Notifications/Due.antt =====
-- Which calls of notify_new_message in notifications.rs show a notification.
use Prim.Native.String.{◌++◌ as ◌<>◌}
use family_com.Prelude.{
  ℕ, ◌+◌, ◌≡◌, refl, ◌∙◌, String, Bool, true, false, Option, none, ok, err, ltb, List, [], ◌∷◌,
  some, arith,
}
use family_com.Daemon.Notifications.{
  NotificationManager, Call, notify_new_message, show_notification, is_limited,
}
use family_com.Daemon.Notifications.Preview.{shortened, truncate_preview_lem}

-- The calls whose notifications the desktop shows: those that it does not refuse, a second or more
-- after it showed the one before.
abbrev pub is_too_soon : Option ℕ → ℕ → Bool
is_too_soon none now = false
is_too_soon (some last) now = ltb now (last + 1000000000)

unfoldable pub due : Option ℕ → List Call → List Call
due last [] = []
due last (call ∷ calls) = elim call.shows [
  | err e ↦ due last calls
  | ok t ↦ elim (is_too_soon last call.now) [
    | true ↦ due last calls
    | false ↦ call ∷ due (some t) calls
  ]
]

module _ (last : Option ℕ) (call : Call) (calls : List Call) where
  pub due-refused : (e : String) → call.shows ≡ err e → due last (call ∷ calls) ≡ due last calls
  unfolding due
  due-refused e fails = ground (arith, fails)

  pub due-soon :
      (t : ℕ)
      → call.shows ≡ ok t
      → is_too_soon last call.now ≡ true
      → due last (call ∷ calls) ≡ due last calls
  unfolding due
  due-soon t at soon = ground (arith, at, soon)

  pub due-told :
      (t : ℕ)
      → call.shows ≡ ok t
      → is_too_soon last call.now ≡ false
      → due last (call ∷ calls) ≡ call ∷ due (some t) calls
  unfolding due
  due-told t at free = ground (arith, at, free)

pub is_limited-eq : (last : Option ℕ) (now : ℕ) → is_limited last now ≡ is_too_soon last now
unfolding is_limited
is_limited-eq none now = refl
is_limited-eq (some last) now = ground arith

module _ (manager : NotificationManager) (call : Call) where
  pub notify_new_message-soon :
      is_too_soon manager.last_notification call.now ≡ true
      → notify_new_message manager call ≡ some (none, manager)
  unfolding notify_new_message
  notify_new_message-soon soon =
      ground (arith, is_limited-eq manager.last_notification call.now ∙ soon)

  pub notify_new_message-refused :
      (e : String) → call.shows ≡ err e → notify_new_message manager call ≡ some (none, manager)
  unfolding notify_new_message show_notification
  notify_new_message-refused e fails =
      let (body, cut, _, _, _) = truncate_preview_lem call.preview in ground (arith, cut, fails)

  pub notify_new_message-disabled :
      manager.enabled ≡ false → notify_new_message manager call ≡ some (none, manager)
  unfolding notify_new_message
  notify_new_message-disabled off = ground (arith, off)

  pub notify_new_message-told :
      (t : ℕ)
      → manager.enabled ≡ true
      → is_too_soon manager.last_notification call.now ≡ false
      → call.shows ≡ ok t
      → notify_new_message manager call
        ≡ some (
          some (record {
            summary = "FamilyCom - " <> call.sender_name;
            body = shortened call.preview;
          }),
          record manager { last_notification = some t },
        )
  unfolding notify_new_message show_notification
  notify_new_message-told t on free at =
      let (body, cut, same, _, _) = truncate_preview_lem call.preview in
      ground (arith, cut, same, on, at, is_limited-eq manager.last_notification call.now ∙ free)
