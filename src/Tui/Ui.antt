-- ===== src/Tui/Ui.antt =====
-- crates/familycom/src/ui: what is drawn of the state of the terminal client. A widget is what it is
-- given, with the colour and weight of its text; how ratatui lays it out is an argument.
pub mod Style
pub mod PeerList
pub mod Messages
pub mod Input
pub mod Render
pub mod Drawn
