-- ===== src/Tui/Ui/PeerList.antt =====
-- crates/familycom/src/ui/peer_list.rs: the list of peers.
use family_com.Prelude.{ℕ, String, List, [], ◌∷◌, Option, map, if◌then◌else◌}
use family_com.Core.Types.{PeerInfo}
use family_com.Tui.App.{TuiApp, FocusedPanel}
use family_com.Tui.Ui.Style.{green, dark_gray, white, Line, Block, styled, block, is_focused}

-- An empty list with its text, or the items with the one selected, behind the symbol ">> ".
pub data PeerListView : Type 0 where
  no_peers : Block → String → PeerListView
  items : Block → List Line → Option ℕ → PeerListView

unfoldable pub peer_line : PeerInfo → Line
peer_line peer =
    styled (if peer.online then " * " else " - ") (if peer.online then green else dark_gray)
    ∷ styled peer.display_name (if peer.online then white else dark_gray)
    ∷ []

-- `render`.
unfoldable pub render : TuiApp → PeerListView
unfolding peer_line
render app =
    let panel = block " Peers " (is_focused app.focused FocusedPanel.peer_list) in
    elim app.peers [
      | [] ↦ no_peers panel "Buscando peers..."
      | p ∷ ps ↦ items panel (map peer_line (p ∷ ps)) app.selected_peer_idx
    ]
