-- ===== src/Daemon/Notifications/Rate.antt =====
-- Notifications are at least a second apart.
use family_com.Prelude.{
  ℕ, All, ◌+◌, ◌≤◌, ◌≡◌, refl, sym, ◌∙◌, ap, map, Bool, true, false, Bool-cases, Result-cases,
  if◌then◌else◌, List, [], ◌∷◌, Option, none, some, ok, err, arith, inl, inr, ◌⊎◌,
}
use mathlib.Core.Path.{ap₂}
use family_com.Daemon.Notifications.Due.{
  is_too_soon, due, due-refused, due-soon, due-told, is_limited-eq, notify_new_message-soon,
  notify_new_message-refused, notify_new_message-disabled, notify_new_message-told,
}
use family_com.Daemon.Notifications.Preview.{truncate_preview_lem}
use family_com.Daemon.Notifications.{
  NotificationManager, Notification, Call, is_limited, show_notification, notify_new_message,
}

-- When a call showed its notification.
abbrev pub shown_at : Call → ℕ
shown_at call = elim call.shows [ err e ↦ call.now | ok t ↦ t ]

-- The instants at which the calls that showed a notification were made, each with that at which the
-- desktop showed it.
unfoldable pub shown : NotificationManager → List Call → List (ℕ × ℕ)
shown manager [] = []
shown manager (call ∷ calls) = elim (notify_new_message manager call) [
  | none ↦ []
  | some (notification, manager') ↦ elim notification [
    | none ↦ shown manager' calls
    | some _ ↦ (call.now, shown_at call) ∷ shown manager' calls
  ]
]

-- Each is made at least a second after the one before was shown.
abbrev pub IsSpaced : Option ℕ → List (ℕ × ℕ) → Type 0
IsSpaced last [] = Unit
IsSpaced none ((now, t) ∷ rest) = IsSpaced (some t) rest
IsSpaced (some last) ((now, t) ∷ rest) = (last + 1000000000 ≤ now) × IsSpaced (some t) rest

IsSpaced-cons :
    (last : Option ℕ) (now t : ℕ) (rest : List (ℕ × ℕ))
    → is_limited last now ≡ false
    → IsSpaced (some t) rest
    → IsSpaced last ((now, t) ∷ rest)
unfolding is_limited
IsSpaced-cons none now t rest h s = s
IsSpaced-cons (some last) now t rest h s = (ground arith, s)

module _ (manager : NotificationManager) (call : Call) where
  -- A call shows nothing and keeps the manager, or it is not limited and records when it showed.
  pub notify_new_message-or :
      (notify_new_message manager call ≡ some (none, manager))
      ⊎ ((n : Notification) × (t : ℕ) × (notify_new_message manager call
            ≡ some (some n, record manager { last_notification = some t }))
          × (call.shows ≡ ok t)
          × (is_limited manager.last_notification call.now ≡ false))
  unfolding notify_new_message show_notification
  notify_new_message-or =
      let (body, cut, _, _, _) = truncate_preview_lem call.preview in ground (arith, cut)

abbrev pub at_instants : List Call → List (ℕ × ℕ)
at_instants calls = map (λ call. (call.now, shown_at call)) calls

IsSpaced-due :
    (last : Option ℕ) (call : Call) (t : ℕ) (calls : List (ℕ × ℕ))
    → call.shows ≡ ok t
    → is_too_soon last call.now ≡ false
    → IsSpaced (some t) calls
    → IsSpaced last ((call.now, shown_at call) ∷ calls)
IsSpaced-due last call t calls at free rest =
    IsSpaced-cons last call.now (shown_at call) calls (is_limited-eq last call.now ∙ free)
      (rw at rest)

pub due-IsSpaced :
    (last : Option ℕ) (calls : List Call) → IsSpaced last (at_instants (due last calls))
due-IsSpaced last [] = unfold due in tt
due-IsSpaced last (call ∷ calls) = elim (Result-cases call.shows) [
  | inr (e, fails) ↦ rw (due-refused last call calls e fails) (due-IsSpaced last calls)
  | inl (t, at) ↦ elim (Bool-cases (is_too_soon last call.now)) [
    | inl soon ↦ rw (due-soon last call calls t at soon) (due-IsSpaced last calls)
    | inr free ↦
        rw (due-told last call calls t at free)
          (IsSpaced-due last call t _ at free (due-IsSpaced (some t) calls))
  ]
]

shown-none :
    (manager : NotificationManager) (call : Call) (calls : List Call)
    → notify_new_message manager call ≡ some (none, manager)
    → shown manager (call ∷ calls) ≡ shown manager calls
unfolding shown
shown-none manager call calls h = rw (h, shown) refl

shown_at-ok : (call : Call) (t : ℕ) → call.shows ≡ ok t → shown_at call ≡ t
shown_at-ok call t at = rw at refl

shown-some :
    (manager : NotificationManager) (call : Call) (calls : List Call) (n : Notification) (t : ℕ)
    → notify_new_message manager call ≡ some (some n, record manager { last_notification = some t })
    → call.shows ≡ ok t
    → shown manager (call ∷ calls)
      ≡ (call.now, t) ∷ shown (record manager { last_notification = some t }) calls
unfolding shown
shown-some manager call calls n t h at = rw (h, at, shown) refl

shown-due :
    (manager : NotificationManager) (calls : List Call)
    → manager.enabled ≡ true
    → shown manager calls ≡ at_instants (due manager.last_notification calls)
shown-due manager [] on = unfold shown due in refl
shown-due manager (call ∷ calls) on = elim (Result-cases call.shows) [
  | inr (e, fails) ↦
      shown-none manager call calls (notify_new_message-refused manager call e fails)
      ∙ shown-due manager calls on
      ∙ sym (ap at_instants (due-refused manager.last_notification call calls e fails))
  | inl (t, at) ↦ elim (Bool-cases (is_too_soon manager.last_notification call.now)) [
    | inl soon ↦
        shown-none manager call calls (notify_new_message-soon manager call soon)
        ∙ shown-due manager calls on
        ∙ sym (ap at_instants (due-soon manager.last_notification call calls t at soon))
    | inr free ↦
        let manager' = record manager { last_notification = some t } in
        shown-some manager call calls _ t (notify_new_message-told manager call t on free at) at
        ∙ ap₂ (λ u l. (call.now, u) ∷ l) (sym (shown_at-ok call t at)) (shown-due manager' calls on)
        ∙ sym (ap at_instants (due-told manager.last_notification call calls t at free))
  ]
]

shown-disabled :
    (manager : NotificationManager) (calls : List Call)
    → manager.enabled ≡ false
    → shown manager calls ≡ []
shown-disabled manager [] off = unfold shown in refl
shown-disabled manager (call ∷ calls) off =
    shown-none manager call calls (notify_new_message-disabled manager call off)
    ∙ shown-disabled manager calls off

-- No call of the manager panics. Where it is enabled, exactly those calls show a notification that the
-- desktop does not refuse and that are not made less than a second after the desktop showed the one
-- before, and where it is disabled, none. So, whatever the calls, each that shows a notification is made
-- at least a second after the desktop showed that of the call before which did; the first of them at
-- least a second after the last notification that the manager has noted.
pub shown-IsSpaced :
    (manager : NotificationManager) (calls : List Call)
    → All
        (λ (call : Call).
          (p : Option Notification × NotificationManager) × (notify_new_message manager call
            ≡ some p))
        calls
      × (shown manager calls
          ≡ (if manager.enabled then at_instants (due manager.last_notification calls) else []))
      × IsSpaced manager.last_notification (shown manager calls)
shown-IsSpaced manager calls = elim (Bool-cases manager.enabled) [
  | inl on ↦
      let all = shown-due manager calls on in
      (no_panic calls, all ∙ pick on, rw all (due-IsSpaced manager.last_notification calls))
  | inr off ↦
      let none_shown = shown-disabled manager calls off in
      (no_panic calls, none_shown ∙ pick off, rw none_shown tt)
]
  where
    pick :
        {b : Bool}
        → manager.enabled ≡ b
        → (if b then at_instants (due manager.last_notification calls) else [])
          ≡ (if manager.enabled then at_instants (due manager.last_notification calls) else [])
    pick e = ap (λ c. if c then at_instants (due manager.last_notification calls) else []) (sym e)

    no_panic :
        (calls : List Call)
        → All
            (λ (call : Call).
              (p : Option Notification × NotificationManager) × (notify_new_message manager call
                ≡ some p))
            calls
    no_panic [] = tt
    no_panic (call ∷ rest) = (
      elim (notify_new_message-or manager call) [ inl h ↦ (_, h) | inr (_, _, h, _, _) ↦ (_, h) ],
      no_panic rest,
    )
