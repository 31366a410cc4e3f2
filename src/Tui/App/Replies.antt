-- ===== src/Tui/App/Replies.antt =====
-- crates/familycom/src/app.rs: what a message of the daemon does to the state.
use Prim.Native.String.{◌++◌}
use family_com.Prelude.{
  ℕ, ◌-◌, String, Bool, true, false, List, [], ◌∷◌, reverse, Option, none, some, HashMap, get,
  insert, length, is_empty, any, push, leb, eqb, if◌then◌else◌, ◌==◌, decimal,
}
use family_com.Core.Types.{MessageId, PeerInfo, Message}
use family_com.Core.Ipc.{ServerMessage}
use family_com.Tui.App.State.{TuiApp}

-- `format!("{n} peer{}", ..)`.
unfoldable pub peer_status : ℕ → String
peer_status n = decimal n ++ (" peer" ++ (if eqb n 1 then "" else "s"))

-- The selection, kept within a new list of peers.
unfoldable pub keep_selected : List PeerInfo → Option ℕ → Option ℕ
keep_selected peers (some idx) =
    if leb (length peers) idx
    then if is_empty peers then none else some (length peers - 1)
    else some idx
keep_selected peers none = if is_empty peers then none else some 0

-- `iter_mut().find(..)`, and what is done to the entry that is found.
unfoldable pub update_first {ℓ} : {A : Type ℓ} → (A → Bool) → (A → A) → List A → List A
update_first p f [] = []
update_first p f (x ∷ xs) = if p x then f x ∷ xs else x ∷ update_first p f xs

unfoldable pub set_peer_online : PeerInfo → List PeerInfo → List PeerInfo
unfolding update_first
set_peer_online peer peers =
    if any (λ p. p.id == peer.id) peers
    then update_first (λ p. p.id == peer.id)
        (λ (p : PeerInfo). record p {
          online = true;
          display_name = peer.display_name;
          addresses = peer.addresses;
        })
        peers
    else push peers peer

-- The loop over the histories, which ends at the first that has the message.
unfoldable pub mark_first : MessageId → HashMap (List Message) → HashMap (List Message)
unfolding update_first
mark_first k [] = []
mark_first k ((peer_id, ms) ∷ rest) =
    let later = mark_first k rest in
    if any (λ (m : Message). m.id == k) ms
    then (
      peer_id,
      update_first (λ (m : Message). m.id == k) (λ (m : Message). record m { delivered = true }) ms,
    )
      ∷ rest
    else (peer_id, ms) ∷ later

-- `entry(..).or_default().push(..)`.
unfoldable pub push_message : HashMap (List Message) → Message → HashMap (List Message)
push_message histories m = elim (get histories m.peer_id) [
  | none ↦ insert histories m.peer_id (m ∷ [])
  | some ms ↦ insert histories m.peer_id (push ms m)
]

unfoldable pub store_page : HashMap (List Message) → List Message → HashMap (List Message)
store_page histories [] = histories
store_page histories (m ∷ ms) = insert histories m.peer_id (reverse (m ∷ ms))

unfoldable pub handle_server_message : TuiApp → ServerMessage → TuiApp
unfolding keep_selected set_peer_online mark_first push_message store_page peer_status
handle_server_message app (ServerMessage.peer_list peers) = record app {
  peers = peers;
  selected_peer_idx = keep_selected peers app.selected_peer_idx;
  status = peer_status (length peers);
}
handle_server_message app (ServerMessage.messages ms) = record app {
  messages = store_page app.messages ms;
}
handle_server_message app (ServerMessage.new_message m) = record app {
  messages = push_message app.messages m;
  messages_scroll = 0;
}
handle_server_message app (ServerMessage.message_sent k) = app
handle_server_message app (ServerMessage.peer_online peer) = record app {
  peers = set_peer_online peer app.peers;
  status = peer_status (length (set_peer_online peer app.peers));
}
handle_server_message app (ServerMessage.peer_offline k) = record app {
  peers =
      update_first (λ (p : PeerInfo). p.id == k) (λ (p : PeerInfo). record p { online = false })
        app.peers;
}
handle_server_message app (ServerMessage.message_delivered k) = record app {
  messages = mark_first k app.messages;
}
handle_server_message app (ServerMessage.config display_name peer_id) = record app {
  our_name = display_name;
  our_peer_id = some peer_id;
}
handle_server_message app (ServerMessage.error code message) = record app {
  status = "Error [" ++ (code ++ ("]: " ++ message));
}
handle_server_message app ServerMessage.done = app
