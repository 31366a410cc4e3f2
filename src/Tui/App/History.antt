-- ===== src/Tui/App/History.antt =====
-- The histories and the peers that the client keeps of what the daemon sends.
use mathlib.Core.Option
use family_com.Prelude.{
  ◌≡◌, refl, ap, ◌∙◌, Bool, true, false, List, [], ◌∷◌, reverse, Option, none, some, arith, HashMap,
  get, insert, get-insert, push, if◌then◌else◌, ◌==◌, eq_iff, eq_refl, find, any, find-append,
  Bool-cases, inl, inr,
}
use family_com.Core.Types.{PeerId, PeerInfo, Message}
use family_com.Core.Ipc.{ServerMessage}
use family_com.Tui.App.{
  TuiApp, push_message, store_page, update_first, set_peer_online, handle_server_message,
}

-- The history with a peer, empty if there is none.
unfoldable pub history : HashMap (List Message) → PeerId → List Message
history messages k = elim (get messages k) [ none ↦ [] | some ms ↦ ms ]

history-insert :
    (messages : HashMap (List Message)) (j k : PeerId) (ms : List Message)
    → history (insert messages j ms) k ≡ (if j == k then ms else history messages k)
unfolding history
history-insert messages j k ms = rw (get-insert messages j k ms, history) (ground arith)

push_message-eq :
    (messages : HashMap (List Message)) (m : Message)
    → push_message messages m ≡ insert messages m.peer_id (push (history messages m.peer_id) m)
unfolding push_message history
push_message-eq messages m = ground arith

pub history-push_message :
    (messages : HashMap (List Message)) (m : Message) (k : PeerId)
    → history (push_message messages m) k
      ≡ (if m.peer_id == k then push (history messages k) m else history messages k)
history-push_message messages m k =
    ap (λ ms. history ms k) (push_message-eq messages m)
    ∙ history-insert messages m.peer_id k (push (history messages m.peer_id) m)
    ∙ same
  where
    same :
        (if m.peer_id == k then push (history messages m.peer_id) m else history messages k)
        ≡ (if m.peer_id == k then push (history messages k) m else history messages k)
    same = elim (Bool-cases (m.peer_id == k)) [
      | inl e ↦ rw (e, (eq_iff m.peer_id k).0 e) refl
      | inr e ↦ rw e refl
    ]

-- A message that arrives is the last of the history with its peer, after those that were there, and
-- no other history changes; the view goes back to the newest message.
pub handle_server_message-new_message :
    (app : TuiApp) (m : Message)
    → (app' : TuiApp) × (handle_server_message app (ServerMessage.new_message m) ≡ app')
      × ((k : PeerId)
          → history app'.messages k
            ≡ (if m.peer_id == k then push (history app.messages k) m else history app.messages k))
      × (app'.messages_scroll ≡ 0)
unfolding handle_server_message
handle_server_message-new_message app m = (_, refl, history-push_message app.messages m, refl)

-- A page, which the daemon sends with the newest message first, becomes the history with its peer, the
-- oldest message first; no other history changes, and an empty page changes nothing.
pub handle_server_message-messages :
    (app : TuiApp) (m : Message) (ms : List Message)
    → (handle_server_message app (ServerMessage.messages []) ≡ app)
      × ((k : PeerId)
          → history (handle_server_message app (ServerMessage.messages (m ∷ ms))).messages k
            ≡ (if m.peer_id == k then reverse (m ∷ ms) else history app.messages k))
unfolding handle_server_message store_page
handle_server_message-messages app m ms =
    (refl, λ k. history-insert app.messages m.peer_id k (reverse (m ∷ ms)))

find-update_first :
    (p : PeerInfo → Bool) (f : PeerInfo → PeerInfo) (xs : List PeerInfo)
    → ((x : PeerInfo) → p (f x) ≡ p x)
    → find p (update_first p f xs) ≡ Option.map f (find p xs)
unfolding find update_first
find-update_first p f [] h = refl
find-update_first p f (x ∷ xs) h = ground (arith, find-update_first p f xs h, h x)

find-update_first_other :
    (p q : PeerInfo → Bool) (f : PeerInfo → PeerInfo) (xs : List PeerInfo)
    → ((x : PeerInfo) → p x ≡ true → (q x ≡ false) × (q (f x) ≡ false))
    → find q (update_first p f xs) ≡ find q xs
unfolding find update_first
find-update_first_other p q f [] h = refl
find-update_first_other p q f (x ∷ xs) h = ground (arith, find-update_first_other p q f xs h, h x)

find-none : (p : PeerInfo → Bool) (xs : List PeerInfo) → any p xs ≡ false → find p xs ≡ none
unfolding find any
find-none p [] h = refl
find-none p (x ∷ xs) h = ground (arith, find-none p xs)

find-any :
    (p : PeerInfo → Bool) (xs : List PeerInfo)
    → any p xs ≡ true
    → (x : PeerInfo) × (find p xs ≡ some x)
unfolding find any
find-any p [] h = cc
find-any p (x ∷ xs) h = elim (Bool-cases (p x)) [
  | inl e ↦ (x, rw e refl)
  | inr e ↦ let (y, f) = find-any p xs (ground (arith, e)) in (y, rw e f)
]

-- The entry of a peer.
unfoldable pub find_peer : List PeerInfo → PeerId → Option PeerInfo
find_peer ps k = find (λ p. p.id == k) ps

find-push_other :
    (p : PeerInfo → Bool) (xs : List PeerInfo) (x : PeerInfo)
    → p x ≡ false
    → find p (push xs x) ≡ find p xs
unfolding find
find-push_other p [] x h = rw h refl
find-push_other p (y ∷ xs) x h = ground (arith, find-push_other p xs x h)

module _ (p : PeerInfo) where
  abbrev brought_online : PeerInfo → PeerInfo
  brought_online q = record q {
    online = true;
    display_name = p.display_name;
    addresses = p.addresses;
  }

  set_peer_online-known :
      (ps : List PeerInfo)
      → any (λ q. q.id == p.id) ps ≡ true
      → set_peer_online p ps ≡ update_first (λ q. q.id == p.id) brought_online ps
  unfolding set_peer_online
  set_peer_online-known ps h = rw h refl

  set_peer_online-new :
      (ps : List PeerInfo) → any (λ q. q.id == p.id) ps ≡ false → set_peer_online p ps ≡ push ps p
  unfolding set_peer_online
  set_peer_online-new ps h = rw h refl

  find_peer-set_peer_online :
      (ps : List PeerInfo)
      → p.online ≡ true
      → (q : PeerInfo) × (find_peer (set_peer_online p ps) p.id ≡ some q)
        × (q.online ≡ true)
        × (q.display_name ≡ p.display_name)
        × (q.addresses ≡ p.addresses)
  unfolding find_peer
  find_peer-set_peer_online ps on = elim (Bool-cases (any (λ q. q.id == p.id) ps)) [
    | inl known ↦
        let (x, found) = find-any (λ q. q.id == p.id) ps known in
        (
          brought_online x,
          rw (set_peer_online-known ps known) (
              find-update_first (λ q. q.id == p.id) brought_online ps (λ q. refl)
              ∙ ap (Option.map brought_online) found),
          refl,
          refl,
          refl,
        )
    | inr new ↦ (
      p,
      rw (set_peer_online-new ps new) (
          find-append (λ q. q.id == p.id) ps (p ∷ []) (find-none (λ q. q.id == p.id) ps new)
          ∙ unfold find in rw (eq_refl p.id) refl),
      on,
      refl,
      refl,
    )
  ]

  find_peer-set_peer_online_other :
      (ps : List PeerInfo) (k : PeerId)
      → (p.id == k) ≡ false
      → find_peer (set_peer_online p ps) k ≡ find_peer ps k
  unfolding find_peer
  find_peer-set_peer_online_other ps k other = elim (Bool-cases (any (λ q. q.id == p.id) ps)) [
    | inl known ↦ rw (set_peer_online-known ps known) (
        find-update_first_other (λ q. q.id == p.id) (λ q. q.id == k) brought_online ps
          (λ x h. rw ((eq_iff x.id p.id).0 h) (other, other)))
    | inr new ↦ rw (set_peer_online-new ps new) (find-push_other (λ q. q.id == k) ps p other)
  ]

-- After a peer came online, the entry with its identifier is online under its name and addresses,
-- also if there was none before, and the entry of any other identifier is what it was.
pub handle_server_message-peer_online :
    (app : TuiApp) (p : PeerInfo)
    → p.online ≡ true
    → (app' : TuiApp) × (handle_server_message app (ServerMessage.peer_online p) ≡ app')
      × ((q : PeerInfo) × (find_peer app'.peers p.id ≡ some q)
          × (q.online ≡ true)
          × (q.display_name ≡ p.display_name)
          × (q.addresses ≡ p.addresses))
      × ((k : PeerId) → (p.id == k) ≡ false → find_peer app'.peers k ≡ find_peer app.peers k)
unfolding handle_server_message
handle_server_message-peer_online app p on =
    (_, refl, find_peer-set_peer_online p app.peers on, find_peer-set_peer_online_other p app.peers)
