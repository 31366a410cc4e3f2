-- ===== src/Tui/App/Validity.antt =====
-- The state of the client stays valid, and no action panics.
use Prim.Native.String.{◌++◌}
use mathlib.Core.Path.{ap₂}
use text.Mathlib.TextLemmas.{nil-append}
use family_com.Prelude.{
  ℕ, ◌≤◌, ◌<◌, ◌≡◌, refl, ap, sym, ◌∙◌, String, Bool, true, false, List, [], ◌∷◌, Option, none,
  some, arith, length, length-append, is_empty, byte_length, ◌==◌,
}
use family_com.Core.Types.{PeerInfo}
use family_com.Core.Ipc.{ServerMessage}
use family_com.Tui.App.{
  TuiApp, Action, new, max_u16, keep_selected, update_first, set_peer_online, handle_server_message,
  next_index, prev_index, select_index, handle_action,
}
use family_com.Tui.App.Editor.{
  showing, Edit, types, backspace, delete, left, right, home, end, action_of, edit,
  handle_action-showing,
}

-- A selected index is one of the list.
abbrev pub IsWithin : ℕ → Option ℕ → Type 0
IsWithin n none = Unit
IsWithin n (some idx) = idx < n

-- The selection names a peer, the scroll offset is a `u16`, and the cursor stands between two
-- characters of the input.
pub record IsValid (app : TuiApp) : Type 0 where
  pub selection : IsWithin (length app.peers) app.selected_peer_idx
  pub scroll : app.messages_scroll ≤ max_u16
  pub before : String
  pub after : String
  pub text : app.input ≡ before ++ after
  pub cursor : app.input_cursor ≡ byte_length before

pub new-IsValid : IsValid new
unfolding byte_length
new-IsValid = record {
  selection = tt;
  scroll = omega arith;
  before = "";
  after = "";
  text = sym (nil-append "");
  cursor = refl;
}

length-update_first :
    {A : Type 0} (p : A → Bool) (f : A → A) (xs : List A) → length (update_first p f xs) ≡ length xs
unfolding update_first
length-update_first p f [] = refl
length-update_first p f (x ∷ xs) = ground (arith, length-update_first p f xs)

length-set_peer_online :
    (p : PeerInfo) (ps : List PeerInfo) → length ps ≤ length (set_peer_online p ps)
unfolding set_peer_online
length-set_peer_online p ps = ground (
  arith,
  length-append ps (p ∷ []),
  length-update_first (λ (q : PeerInfo). q.id == p.id)
      (λ (q : PeerInfo). record q {
        online = true;
        display_name = p.display_name;
        addresses = p.addresses;
      })
      ps,
)

IsWithin-more : (n m : ℕ) (i : Option ℕ) → n ≤ m → IsWithin n i → IsWithin m i
IsWithin-more n m none h w = tt
IsWithin-more n m (some i) h w = omega arith

IsWithin-keep_selected :
    (ps : List PeerInfo) (i : Option ℕ) → IsWithin (length ps) (keep_selected ps i)
unfolding keep_selected
IsWithin-keep_selected [] none = tt
IsWithin-keep_selected (p ∷ ps) none = omega arith
IsWithin-keep_selected [] (some i) = ground arith
IsWithin-keep_selected (p ∷ ps) (some i) = ground arith

handle_server_message-IsValid :
    (app : TuiApp) (m : ServerMessage) → IsValid app → IsValid (handle_server_message app m)
unfolding handle_server_message
handle_server_message-IsValid app (ServerMessage.peer_list ps) w = record {
  selection = IsWithin-keep_selected ps app.selected_peer_idx;
  scroll = w.scroll;
  before = w.before;
  after = w.after;
  text = w.text;
  cursor = w.cursor;
}
handle_server_message-IsValid app (ServerMessage.messages ms) w = ground arith
handle_server_message-IsValid app (ServerMessage.new_message m) w = ground arith
handle_server_message-IsValid app (ServerMessage.message_sent k) w = w
handle_server_message-IsValid app (ServerMessage.peer_online p) w = record {
  selection =
      IsWithin-more (length app.peers) (length (set_peer_online p app.peers)) app.selected_peer_idx
        (length-set_peer_online p app.peers) w.selection;
  scroll = w.scroll;
  before = w.before;
  after = w.after;
  text = w.text;
  cursor = w.cursor;
}
handle_server_message-IsValid app (ServerMessage.peer_offline k) w = record {
  selection = rw (length-update_first _ _ app.peers) w.selection;
  scroll = w.scroll;
  before = w.before;
  after = w.after;
  text = w.text;
  cursor = w.cursor;
}
handle_server_message-IsValid app (ServerMessage.message_delivered k) w = ground arith
handle_server_message-IsValid app (ServerMessage.config n k) w = ground arith
handle_server_message-IsValid app (ServerMessage.error c t) w = ground arith
handle_server_message-IsValid app ServerMessage.done w = w

edit-IsValid :
    (app : TuiApp) (e : Edit)
    → IsValid app
    → (app' : TuiApp) × (handle_action app (action_of e) ≡ some app') × IsValid app'
edit-IsValid app e w =
    let (a, b) = edit e (w.before, w.after) in
    let shown : app ≡ showing app w.before w.after =
      ap₂ (λ s n. record app { input = s; input_cursor = n }) w.text w.cursor in
    (
      showing app a b,
      ap (λ x. handle_action x (action_of e)) shown ∙ handle_action-showing app w.before w.after e,
      record {
        selection = w.selection;
        scroll = w.scroll;
        before = a;
        after = b;
        text = refl;
        cursor = refl;
      },
    )

select_index-IsValid :
    (app : TuiApp) (idx : ℕ)
    → (is_empty app.peers ≡ false → idx < length app.peers)
    → IsValid app
    → IsValid (select_index app idx)
unfolding select_index
select_index-IsValid app idx h w = ground arith

within_some : (ps : List PeerInfo) → is_empty ps ≡ false → 0 < length ps
within_some ps h = ground arith

next_index-lt : (n : ℕ) (i : Option ℕ) → 0 < n → next_index n i < n
unfolding next_index
next_index-lt n none h = omega arith
next_index-lt n (some i) h = omega arith

prev_index-lt : (n : ℕ) (i : Option ℕ) → 0 < n → IsWithin n i → prev_index i < n
unfolding prev_index
prev_index-lt n none h w = omega arith
prev_index-lt n (some i) h w = omega arith

-- Every action, an event of the daemon included, leaves a valid state valid and does not panic.
pub handle_action-IsValid :
    (app : TuiApp) (action : Action)
    → IsValid app
    → (app' : TuiApp) × (handle_action app action ≡ some app') × IsValid app'
unfolding handle_action
handle_action-IsValid app Action.quit w = (_, refl, ground arith)
handle_action-IsValid app Action.next_focus w = (_, refl, ground arith)
handle_action-IsValid app Action.next_peer w = (
  _,
  refl,
  select_index-IsValid app (next_index (length app.peers) app.selected_peer_idx)
      (λ h. next_index-lt (length app.peers) app.selected_peer_idx (within_some app.peers h)) w,
)
handle_action-IsValid app Action.prev_peer w = (
  _,
  refl,
  select_index-IsValid app (prev_index app.selected_peer_idx)
      (λ h.
        prev_index-lt (length app.peers) app.selected_peer_idx (within_some app.peers h)
          w.selection)
      w,
)
handle_action-IsValid app Action.scroll_up w = (_, refl, ground arith)
handle_action-IsValid app Action.scroll_down w = (_, refl, ground arith)
handle_action-IsValid app (Action.input_char c) w = edit-IsValid app (types c) w
handle_action-IsValid app Action.input_backspace w = edit-IsValid app backspace w
handle_action-IsValid app Action.input_delete w = edit-IsValid app delete w
handle_action-IsValid app Action.input_left w = edit-IsValid app left w
handle_action-IsValid app Action.input_right w = edit-IsValid app right w
handle_action-IsValid app Action.input_home w = edit-IsValid app home w
handle_action-IsValid app Action.input_end w = edit-IsValid app end w
handle_action-IsValid app Action.send_message w = (_, refl, w)
handle_action-IsValid app (Action.focus_panel p) w = (_, refl, ground arith)
handle_action-IsValid app (Action.select_peer i) w = (_, refl, ground arith)
handle_action-IsValid app (Action.server_message m) w =
    (_, refl, handle_server_message-IsValid app m w)
