-- ===== src/Daemon/Main/Notifier/Shown.antt =====
-- Which notifications the task shows.
use family_com.Prelude.{
  ℕ, HashMap, ◌≡◌, refl, sym, ap, ◌∙◌, ◌⊎◌, inl, inr, String, List, [], ◌∷◌, ◌++◌, none, some,
  Result, append-nil, append_assoc, arith, insert, get-insert, ◌==◌, if◌then◌else◌,
}
use family_com.Core.Types.{PeerId, Direction, sent, received, Message}
use family_com.Core.Ipc.{ServerMessage}
use family_com.Daemon.Notifications.{NotificationManager, Notification, Call, notify_new_message}
use family_com.Daemon.Notifications.Preview.{shortened, truncate_preview_lem}
use family_com.Daemon.Notifications.Rate.{notify_new_message-or}
use family_com.Daemon.Main.Notifier.{
  Received, event, lagged, Notifier, sender_name, logged, notify, handle_event, notification_loop,
}

-- The call for a message that was received under a name.
abbrev pub call_of : Message → ℕ → Result ℕ String → String → Call
call_of message now shows name = record {
  now = now;
  sender_name = name;
  preview = shortened message.content;
  shows = shows;
}

-- The calls that the events amount to, where the function says how a peer is called: one for each
-- message received, under the last name that was announced.
abbrev pub calls_of : (PeerId → String) → List Received → List Call
calls_of name_of [] = []
calls_of name_of (event (ServerMessage.peer_online peer) now shows ∷ rest) =
    calls_of (λ k. if peer.id == k then peer.display_name else name_of k) rest
calls_of name_of (event (ServerMessage.new_message message) now shows ∷ rest) =
    elim message.direction [
      | sent ↦ calls_of name_of rest
      | received ↦ call_of message now shows (name_of message.peer_id) ∷ calls_of name_of rest
    ]
calls_of name_of (_ ∷ rest) = calls_of name_of rest

-- The notifications that calls show.
unfoldable pub notifications : NotificationManager → List Call → List (Call × Notification)
notifications manager [] = []
notifications manager (call ∷ calls) = elim (notify_new_message manager call) [
  | none ↦ []
  | some (notification, manager') ↦ logged [] call notification ++ notifications manager' calls
]

module _ (manager : NotificationManager) (call : Call) (calls : List Call) where
  pub notifications-none :
      notify_new_message manager call ≡ some (none, manager)
      → notifications manager (call ∷ calls) ≡ notifications manager calls
  unfolding notifications logged
  notifications-none h = rw (h, notifications) refl

  pub notifications-some :
      (x : Notification) (manager' : NotificationManager)
      → notify_new_message manager call ≡ some (some x, manager')
      → notifications manager (call ∷ calls) ≡ (call, x) ∷ notifications manager' calls
  unfolding notifications logged
  notifications-some x manager' h = rw (h, notifications) refl

-- A call never panics; it keeps the names, and logs what it shows.
notify-total :
    (n : Notifier) (call : Call)
    → (n' : Notifier) × (notify n call ≡ some n')
      × (n'.peer_names ≡ n.peer_names)
      × ((calls : List Call)
          → n'.log ++ notifications n'.manager calls
            ≡ n.log ++ notifications n.manager (call ∷ calls))
unfolding notify logged
notify-total n call = elim (notify_new_message-or n.manager call) [
  | inl h ↦ (
    n,
    simp h,
    refl,
    λ calls. ap (λ l. n.log ++ l) (sym (notifications-none n.manager call calls h)),
  )
  | inr (x, t, h, _, _) ↦
      let manager = record n.manager { last_notification = some t } in
      (
        record n { manager = manager; log = n.log ++ (call, x) ∷ [] },
        simp h,
        refl,
        λ calls.
            append_assoc n.log ((call, x) ∷ []) (notifications manager calls)
            ∙ ap (λ l. n.log ++ l) (sym (notifications-some n.manager call calls x manager h)),
      )
]

Direction-cases : (d : Direction) → (d ≡ sent) ⊎ (d ≡ received)
Direction-cases sent = inl refl
Direction-cases received = inr refl

abbrev pub IsTold : (PeerId → String) → Notifier → List Received → Type 0
IsTold name_of n rs =
    (n' : Notifier) × (notification_loop n rs ≡ some n')
    × (n'.log ≡ n.log ++ notifications n.manager (calls_of name_of rs))

-- The task goes on after an event that it handled.
IsTold-cons :
    (name_of name_of' : PeerId → String) (n n' : Notifier) (r : Received) (rest : List Received)
    → handle_event n r ≡ some n'
    → n'.log ++ notifications n'.manager (calls_of name_of' rest)
      ≡ n.log ++ notifications n.manager (calls_of name_of (r ∷ rest))
    → IsTold name_of' n' rest
    → IsTold name_of n (r ∷ rest)
unfolding notification_loop
IsTold-cons name_of name_of' n n' r rest h e (end, ran, log) = (end, rw h ran, log ∙ e)

-- The name after an announcement.
told :
    (names : HashMap String) (name_of : PeerId → String) (id name : String) (k : PeerId)
    → sender_name names k ≡ name_of k
    → sender_name (insert names id name) k ≡ (if id == k then name else name_of k)
told names name_of id name k h = unfold sender_name in ground (arith, get-insert names id k name, h)

module _ (n : Notifier) (message : Message) (now : ℕ) (shows : Result ℕ String) where
  -- Our own messages are not notified.
  handle_event-sent :
      message.direction ≡ sent
      → handle_event n (event (ServerMessage.new_message message) now shows) ≡ some n
  unfolding handle_event
  handle_event-sent out = ground (arith, out)

  handle_event-received :
      message.direction ≡ received
      → handle_event n (event (ServerMessage.new_message message) now shows)
        ≡ notify n (call_of message now shows (sender_name n.peer_names message.peer_id))
  unfolding handle_event
  handle_event-received inn =
      let (body, cut, same, _, _) = truncate_preview_lem message.content in
      ground (arith, inn, cut, same)

module _ (name_of : PeerId → String) (message : Message) (now : ℕ) (shows : Result ℕ String)
    (rest : List Received) where
  calls_of-sent :
      message.direction ≡ sent
      → calls_of name_of (event (ServerMessage.new_message message) now shows ∷ rest)
        ≡ calls_of name_of rest
  calls_of-sent out = ground (arith, out)

  calls_of-received :
      message.direction ≡ received
      → calls_of name_of (event (ServerMessage.new_message message) now shows ∷ rest)
        ≡ call_of message now shows (name_of message.peer_id) ∷ calls_of name_of rest
  calls_of-received inn = ground (arith, inn)

-- The task logs what the events amount to, where the function agrees with its names.
pub loop-IsTold :
    (name_of : PeerId → String) (rs : List Received) (n : Notifier)
    → ((k : PeerId) → sender_name n.peer_names k ≡ name_of k)
    → IsTold name_of n rs
unfolding notification_loop handle_event
loop-IsTold name_of [] n same = (n, refl, unfold notifications in sym (append-nil n.log))
loop-IsTold name_of (lagged missed ∷ rest) n same =
    IsTold-cons name_of name_of n n (lagged missed) rest refl refl (loop-IsTold name_of rest n same)
loop-IsTold name_of (event (ServerMessage.peer_online peer) now shows ∷ rest) n same =
    let names = insert n.peer_names peer.id peer.display_name in
    let name_of' : PeerId → String = λ k. if peer.id == k then peer.display_name else name_of k in
    IsTold-cons name_of name_of' n (record n { peer_names = names })
      (event (ServerMessage.peer_online peer) now shows) rest refl refl
      (loop-IsTold name_of' rest (record n { peer_names = names })
        (λ k. told n.peer_names name_of peer.id peer.display_name k (same k)))
loop-IsTold name_of (event (ServerMessage.new_message message) now shows ∷ rest) n same =
    elim (Direction-cases message.direction) [
      | inl out ↦
          IsTold-cons name_of name_of n n (event (ServerMessage.new_message message) now shows) rest
            (handle_event-sent n message now shows out)
            (ap (λ cs. n.log ++ notifications n.manager cs)
              (sym (calls_of-sent name_of message now shows rest out)))
            (loop-IsTold name_of rest n same)
      | inr inn ↦
          let call = call_of message now shows (sender_name n.peer_names message.peer_id) in
          let (n', ran, names, log) = notify-total n call in
          IsTold-cons name_of name_of n n' (event (ServerMessage.new_message message) now shows)
            rest (handle_event-received n message now shows inn ∙ ran)
            (log (calls_of name_of rest)
              ∙ ap
                  (λ k.
                    n.log
                    ++ notifications n.manager
                        (call_of message now shows k ∷ calls_of name_of rest))
                  (same message.peer_id)
              ∙ ap (λ cs. n.log ++ notifications n.manager cs)
                  (sym (calls_of-received name_of message now shows rest inn)))
            (loop-IsTold name_of rest n' (λ k. ap (λ m. sender_name m k) names ∙ same k))
    ]
loop-IsTold name_of (event (ServerMessage.done) now shows ∷ rest) n same =
    IsTold-cons name_of name_of n n (event (ServerMessage.done) now shows) rest refl refl
      (loop-IsTold name_of rest n same)
loop-IsTold name_of (event (ServerMessage.peer_list ps) now shows ∷ rest) n same =
    IsTold-cons name_of name_of n n (event (ServerMessage.peer_list ps) now shows) rest refl refl
      (loop-IsTold name_of rest n same)
loop-IsTold name_of (event (ServerMessage.messages ms) now shows ∷ rest) n same =
    IsTold-cons name_of name_of n n (event (ServerMessage.messages ms) now shows) rest refl refl
      (loop-IsTold name_of rest n same)
loop-IsTold name_of (event (ServerMessage.message_sent k) now shows ∷ rest) n same =
    IsTold-cons name_of name_of n n (event (ServerMessage.message_sent k) now shows) rest refl refl
      (loop-IsTold name_of rest n same)
loop-IsTold name_of (event (ServerMessage.peer_offline k) now shows ∷ rest) n same =
    IsTold-cons name_of name_of n n (event (ServerMessage.peer_offline k) now shows) rest refl refl
      (loop-IsTold name_of rest n same)
loop-IsTold name_of (event (ServerMessage.message_delivered k) now shows ∷ rest) n same =
    IsTold-cons name_of name_of n n (event (ServerMessage.message_delivered k) now shows) rest refl
      refl (loop-IsTold name_of rest n same)
loop-IsTold name_of (event (ServerMessage.config name k) now shows ∷ rest) n same =
    IsTold-cons name_of name_of n n (event (ServerMessage.config name k) now shows) rest refl refl
      (loop-IsTold name_of rest n same)
loop-IsTold name_of (event (ServerMessage.error code text) now shows ∷ rest) n same =
    IsTold-cons name_of name_of n n (event (ServerMessage.error code text) now shows) rest refl refl
      (loop-IsTold name_of rest n same)
