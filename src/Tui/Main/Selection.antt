-- ===== src/Tui/Main/Selection.antt =====
-- Which peer is selected after a message of the daemon: the list of peers alone can change it.
use mathlib.Core.Option
use family_com.Prelude.{
  ℕ, zero, suc, ◌<◌, ◌≡◌, refl, ap, sym, ◌∙◌, Bool, false, List, [], ◌∷◌, ◌++◌, Option, none, some,
  arith, length, get_elem?, any, ◌==◌, Bool-cases, Option-cases, inl, inr, String,
}
use family_com.Core.Types.{PeerId, PeerInfo}
use family_com.Core.Ipc.{ServerMessage}
use family_com.Tui.App.{
  TuiApp, selected_peer, selected_peer_id, update_first, set_peer_online, handle_server_message,
}
use family_com.Tui.App.Validity.{IsWithin, IsValid}
use family_com.Tui.Main.{is_peer_list}

-- The identifier of an entry.
abbrev id_at : List PeerInfo → ℕ → Option PeerId
id_at ps i = Option.map (λ (p : PeerInfo). p.id) (get_elem? ps i)

id_at-update_first :
    (q : PeerInfo → Bool) (f : PeerInfo → PeerInfo) (ps : List PeerInfo) (i : ℕ)
    → ((p : PeerInfo) → (f p).id ≡ p.id)
    → id_at (update_first q f ps) i ≡ id_at ps i
unfolding update_first
id_at-update_first q f [] i h = refl
id_at-update_first q f (p ∷ ps) zero h = elim (Bool-cases (q p)) [
  | inl y ↦ rw y (ap some (h p))
  | inr n ↦ rw n refl
]
id_at-update_first q f (p ∷ ps) (suc i) h = elim (Bool-cases (q p)) [
  | inl y ↦ rw y refl
  | inr n ↦ rw n (id_at-update_first q f ps i h)
]

id_at-push :
    (ps : List PeerInfo) (p : PeerInfo) (i : ℕ)
    → i < length ps
    → id_at (ps ++ p ∷ []) i ≡ id_at ps i
id_at-push [] p i h = absurd (omega arith)
id_at-push (q ∷ ps) p zero h = refl
id_at-push (q ∷ ps) p (suc i) h = id_at-push ps p i (omega arith)

id_at-set_peer_online :
    (p : PeerInfo) (ps : List PeerInfo) (i : ℕ)
    → i < length ps
    → id_at (set_peer_online p ps) i ≡ id_at ps i
unfolding set_peer_online
id_at-set_peer_online p ps i h = elim (Bool-cases (any (λ (q : PeerInfo). q.id == p.id) ps)) [
  | inl y ↦ rw y (id_at-update_first _ _ ps i (λ q. refl))
  | inr n ↦ rw n (id_at-push ps p i h)
]

selected_of : List PeerInfo → Option ℕ → Option PeerId
selected_of ps none = none
selected_of ps (some i) = id_at ps i

selected_peer_id_lem :
    (app : TuiApp) → selected_peer_id app ≡ selected_of app.peers app.selected_peer_idx
unfolding selected_peer_id selected_peer selected_of
selected_peer_id_lem app = elim (Option-cases app.selected_peer_idx) [
  | inl e ↦ rw (e, selected_peer, selected_of) refl
  | inr (i, e) ↦ rw (e, selected_peer, selected_of) refl
]

selected_of-same :
    (ps qs : List PeerInfo) (i : Option ℕ)
    → ((n : ℕ) → n < length ps → id_at qs n ≡ id_at ps n)
    → IsWithin (length ps) i
    → selected_of qs i ≡ selected_of ps i
unfolding selected_of
selected_of-same ps qs none h w = refl
selected_of-same ps qs (some n) h w = h n w

-- A new list of peers leaves the selection, if the entries that there were keep their places.
selected-same :
    (app : TuiApp) (qs : List PeerInfo) (text : String)
    → ((n : ℕ) → n < length app.peers → id_at qs n ≡ id_at app.peers n)
    → IsValid app
    → selected_peer_id (record app { peers = qs; status = text }) ≡ selected_peer_id app
selected-same app qs text h w =
    selected_peer_id_lem (record app { peers = qs; status = text })
    ∙ selected_of-same app.peers qs app.selected_peer_idx h w.selection
    ∙ sym (selected_peer_id_lem app)

pub handle_server_message-selected :
    (app : TuiApp) (m : ServerMessage)
    → is_peer_list m ≡ false
    → IsValid app
    → selected_peer_id (handle_server_message app m) ≡ selected_peer_id app
unfolding handle_server_message is_peer_list selected_peer_id selected_peer
handle_server_message-selected app (ServerMessage.peer_list ps) h w = cc
handle_server_message-selected app (ServerMessage.peer_online p) h w =
    selected-same app (set_peer_online p app.peers)
      (handle_server_message app (ServerMessage.peer_online p)).status
      (λ n. id_at-set_peer_online p app.peers n) w
handle_server_message-selected app (ServerMessage.peer_offline k) h w =
    selected-same app (update_first _ _ app.peers) app.status
      (λ n _. id_at-update_first _ _ app.peers n (λ q. refl)) w
handle_server_message-selected app _ h w = refl
