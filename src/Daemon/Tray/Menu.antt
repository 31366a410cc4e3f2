-- ===== src/Daemon/Tray/Menu.antt =====
-- From a click in the menu of the tray to the daemon.
use family_com.Prelude.{
  ℕ, zero, suc, ◌≡◌, refl, ap, ◌≤◌, Bool, true, false, List, [], ◌∷◌, arith, length, any, keep,
}
use family_com.Daemon.Tray.{
  MenuItem, open_item, quit_item, other_item, run_tray, handle_tray_events,
}

abbrev pub is_quit : MenuItem → Bool
is_quit quit_item = true
is_quit _ = false

abbrev pub is_open : MenuItem → Bool
is_open open_item = true
is_open _ = false

-- The clicks before the first that quits.
abbrev pub before_quit : List MenuItem → List MenuItem
before_quit [] = []
before_quit (quit_item ∷ rest) = []
before_quit (open_item ∷ rest) = open_item ∷ before_quit rest
before_quit (other_item ∷ rest) = other_item ∷ before_quit rest

-- Where the events of the tray can be sent, the daemon opens the chat once for each click on that item
-- before the first that quits, and is asked to shut down exactly if the user quits.
pub handle_tray_events-run_tray :
    (items : List MenuItem) (room : ℕ)
    → length items ≤ room
    → handle_tray_events (run_tray room items)
      ≡ (length (keep is_open (before_quit items)), any is_quit items)
unfolding handle_tray_events run_tray keep any
handle_tray_events-run_tray [] room h = refl
handle_tray_events-run_tray (other_item ∷ rest) room h =
    handle_tray_events-run_tray rest room (omega arith)
handle_tray_events-run_tray (quit_item ∷ rest) zero h = ground arith
handle_tray_events-run_tray (quit_item ∷ rest) (suc room) h = refl
handle_tray_events-run_tray (open_item ∷ rest) zero h = ground arith
handle_tray_events-run_tray (open_item ∷ rest) (suc room) h =
    ap (λ (p : ℕ × Bool). (suc p.0, p.1)) (handle_tray_events-run_tray rest room (omega arith))
