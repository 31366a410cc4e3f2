-- ===== src/Daemon/Discovery.antt =====
-- crates/familycomd/src/discovery.rs: the loop that turns what the mDNS library reports into events
-- for the main loop, and forgets a peer by the full name of its service.
pub mod Browsing
pub mod Names
pub mod Registration
pub mod Announced
use Prim.Native.Nat.{bit_and}
use Prim.Native.String.{◌++◌}
use family_com.Prelude.{
  ℕ, zero, suc, String, Bool, true, false, not, List, [], ◌∷◌, map, Option, none, some, HashMap,
  get, insert, remove, keep, is_empty, eqb, if◌then◌else◌, ◌==◌, decimal,
}
use family_com.Core.Types.{PeerId, Timestamp, PeerInfo}
use family_com.Daemon.App.{DiscoveryEvent, peer_found, peer_lost}

-- An address as its first segment, if it has segments, and as it is displayed.
pub data IpAddr : Type 0 where
  v4 : String → IpAddr
  v6 : ℕ → String → IpAddr

unfoldable pub show_addr : IpAddr → String
show_addr (v4 text) = text
show_addr (v6 segment text) = text

-- `is_ipv6_link_local`: the first ten bits of the first segment.
unfoldable pub is_ipv6_link_local : IpAddr → Bool
is_ipv6_link_local (v4 text) = false
is_ipv6_link_local (v6 segment text) = eqb (bit_and segment 0xffc0) 0xfe80

-- What the library says of a resolved service: its full name, two of its TXT records, its port, and
-- its addresses in the order in which they are iterated.
pub record ResolvedService : Type 0 where
  pub fullname : String
  pub peer_id : Option String
  pub display_name : Option String
  pub port : ℕ
  pub addresses : List IpAddr

pub data ServiceEvent : Type 0 where
  service_resolved : ResolvedService → ServiceEvent
  service_removed service_found : String → String → ServiceEvent
  search_started search_stopped : String → ServiceEvent

-- `get_property_val_str("display_name").unwrap_or("Unknown")`.
unfoldable pub name_or_unknown : Option String → String
name_or_unknown none = "Unknown"
name_or_unknown (some name) = name

-- The addresses that can be reached, with the port.
unfoldable pub reachable : ResolvedService → List String
unfolding is_ipv6_link_local show_addr
reachable info =
    map (λ addr. show_addr addr ++ (":" ++ decimal info.port))
      (keep (λ addr. not (is_ipv6_link_local addr)) info.addresses)

unfoldable pub found_info : PeerId → Timestamp → ResolvedService → PeerInfo
unfolding name_or_unknown reachable
found_info k now info = record {
  id = k;
  display_name = name_or_unknown info.display_name;
  addresses = reachable info;
  last_seen_at = now;
  online = true;
}

-- The case of a resolved service that has a `peer_id`.
unfoldable pub resolve :
    PeerId
    → Timestamp
    → HashMap PeerId
    → ResolvedService
    → PeerId
    → Option DiscoveryEvent × HashMap PeerId
unfolding found_info reachable
resolve our_peer_id now names info k =
    if k == our_peer_id
    then (none, names)
    else if is_empty (reachable info)
    then (none, names)
    else (some (peer_found (found_info k now info)), insert names info.fullname k)

-- One turn of the loop: the event to send, if any, and the map from full names to identifiers.
unfoldable pub handle_service_event :
    PeerId → Timestamp → HashMap PeerId → ServiceEvent → Option DiscoveryEvent × HashMap PeerId
unfolding resolve
handle_service_event our_peer_id now names (service_resolved info) = elim info.peer_id [
  | none ↦ (none, names)
  | some k ↦ resolve our_peer_id now names info k
]
handle_service_event our_peer_id now names (service_removed _ fullname) =
    elim (get names fullname) [
      | none ↦ (none, names)
      | some k ↦ (some (peer_lost k), remove names fullname)
    ]
handle_service_event our_peer_id now names (service_found _ _) = (none, names)
handle_service_event our_peer_id now names (search_started _) = (none, names)
handle_service_event our_peer_id now names (search_stopped _) = (none, names)

-- `blocking_send` on a channel that closes after a number of events, if at all: does the loop go on,
-- and with what channel?
unfoldable pub blocking_send : Option ℕ → Option (Option ℕ)
blocking_send none = some none
blocking_send (some zero) = none
blocking_send (some (suc n)) = some (some n)

-- `browse_loop`: the events that are sent. Each report comes with the time at which it is handled.
unfoldable pub browse_loop :
    PeerId → Option ℕ → HashMap PeerId → List (Timestamp × ServiceEvent) → List DiscoveryEvent
unfolding handle_service_event blocking_send
browse_loop our_peer_id room names [] = []
browse_loop our_peer_id room names ((now, event) ∷ rest) =
    let (sends, names') = handle_service_event our_peer_id now names event in
    elim sends [
      | none ↦ browse_loop our_peer_id room names' rest
      | some e ↦ elim (blocking_send room) [
        | none ↦ []
        | some room' ↦ e ∷ browse_loop our_peer_id room' names' rest
      ]
    ]
