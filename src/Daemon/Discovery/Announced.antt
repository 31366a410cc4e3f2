-- ===== src/Daemon/Discovery/Announced.antt =====
-- From the registration on one machine to the events of discovery on another.
use Prim.Native.String.{◌++◌}
use family_com.Prelude.{
  keep, HashMap, remove, eq_iff, ℕ, ◌≡◌, refl, sym, ap, ◌∙◌, String, true, false, List, [], ◌∷◌,
  Option, none, some, ok, get, insert, get-insert, ◌==◌, eq_refl, arith, decimal, is_empty,
  Bool-cases, Option-cases, inl, inr,
}
use family_com.Core.Types.{PeerId, Timestamp, PeerInfo}
use family_com.Daemon.App.{peer_found, peer_lost}
use family_com.Daemon.Discovery.{
  ResolvedService, v4, service_resolved, service_removed, handle_service_event, resolve, found_info,
  reachable, browse_loop, name_or_unknown, show_addr, is_ipv6_link_local,
}
use family_com.Daemon.Discovery.Browsing.{browse_loop-none}
use family_com.Daemon.Discovery.Names.{browse_loop-step, resolved_lem, removed_lem}
use family_com.Daemon.Discovery.Registration.{
  Mdns, MdnsCall, register, Netdev, ServiceInfo, DiscoveryService, detect_interface, service_info,
  enable_addr_auto, new, properties, host, call_all, registration_calls, restrict,
}

-- What the library of another machine says of a registered service: its full name, its TXT records
-- and its port, and the address, where one is given and no other is to be found.
pub record IsResolved (lib : Mdns) (info : ServiceInfo) (r : ResolvedService) : Type 0 where
  pub fullname : r.fullname ≡ lib.fullname info
  pub peer_id : r.peer_id ≡ get info.properties "peer_id"
  pub display_name : r.display_name ≡ get info.properties "display_name"
  pub port : r.port ≡ info.port
  pub addresses : info.addr_auto ≡ false → r.addresses ≡ v4 info.address ∷ []

-- The services that are registered by calls.
unfoldable pub registered_in : List MdnsCall → List ServiceInfo
registered_in [] = []
registered_in (register info ∷ calls) = info ∷ registered_in calls
registered_in (_ ∷ calls) = registered_in calls

-- What is to be registered: our identifier and name as TXT records, and our address and port.
abbrev pub our_service : Mdns → PeerId → String → String → ℕ → ServiceInfo
our_service lib peer_id display_name addr tcp_port = record {
  service_type = "_familycom._tcp.local.";
  instance_name = lib.to_lowercase display_name;
  host = elim lib.hostname [ none ↦ "familycom.local." | some name ↦ name ++ ".local." ];
  address = addr;
  port = tcp_port;
  properties = ("peer_id", peer_id) ∷ ("display_name", display_name) ∷ [];
  addr_auto = false;
}

-- Where no call failed, all were made.
call_all-ok :
    (lib : Mdns) (calls : List MdnsCall)
    → (call_all lib calls).0 ≡ ok tt
    → (call_all lib calls).1 ≡ calls
unfolding call_all
call_all-ok lib [] h = refl
call_all-ok lib (call ∷ calls) h = ground (arith, call_all-ok lib calls)

-- The service is registered once, also where all interfaces are used.
registered_in-registration_calls :
    (detected : String × Option String) (info : ServiceInfo)
    → registered_in (registration_calls detected info) ≡ enable_addr_auto detected.1 info ∷ []
unfolding registered_in registration_calls restrict
registered_in-registration_calls (name, none) info = elim (Bool-cases (name == "")) [
  | inl e ↦ rw e refl
  | inr e ↦ rw e refl
]
registered_in-registration_calls (name, some addr) info = refl

module _ (lib : Mdns) (netdev : Netdev) (peer_id : PeerId) (display_name addr : String)
    (tcp_port : ℕ) (network_interface : Option String) where
  service_info-our_service :
      enable_addr_auto (some addr) (service_info lib (some addr) peer_id display_name tcp_port)
      ≡ our_service lib peer_id display_name addr tcp_port
  unfolding enable_addr_auto service_info properties insert host
  service_info-our_service = elim (Option-cases lib.hostname) [
    | inl h ↦ rw (h, host) refl
    | inr (name, h) ↦ rw (h, host) refl
  ]

  new-eq-ok :
      (service : DiscoveryService)
      → (new lib netdev peer_id display_name tcp_port network_interface).0 ≡ ok service
      → (detect_interface netdev network_interface).1 ≡ some addr
      → (service.our_service_fullname
          ≡ lib.fullname (our_service lib peer_id display_name addr tcp_port))
        × (registered_in (new lib netdev peer_id display_name tcp_port network_interface).1
            ≡ our_service lib peer_id display_name addr tcp_port ∷ [])
  unfolding new
  new-eq-ok service h at =
      let detected : String × Option String = detect_interface netdev network_interface in
      let info : ServiceInfo = service_info lib detected.1 peer_id display_name tcp_port in
      let same : enable_addr_auto detected.1 info
          ≡ our_service lib peer_id display_name addr tcp_port =
        ap (λ a. enable_addr_auto a (service_info lib a peer_id display_name tcp_port)) at
        ∙ service_info-our_service in
      let called : (call_all lib (registration_calls detected info)).0 ≡ ok tt =
        ground (arith, h) in
      let named : service.our_service_fullname ≡ lib.fullname (enable_addr_auto detected.1 info) =
        ground (arith, h) in
      (
        named ∙ ap lib.fullname same,
        ap registered_in (call_all-ok lib (registration_calls detected info) called)
            ∙ registered_in-registration_calls detected info
            ∙ ap (λ i. i ∷ []) same,
      )

  -- The other machine reads the records that were written here.
  resolved_records :
      (r : ResolvedService)
      → IsResolved lib (our_service lib peer_id display_name addr tcp_port) r
      → (r.peer_id ≡ some peer_id)
        × (r.display_name ≡ some display_name)
        × (r.port ≡ tcp_port)
        × (r.addresses ≡ v4 addr ∷ [])
  unfolding get
  resolved_records r is = (is.peer_id, is.display_name, is.port, is.addresses refl)

-- The peer that the other machine finds.
abbrev pub announced_peer : PeerId → String → String → ℕ → Timestamp → PeerInfo
announced_peer peer_id display_name addr tcp_port now = record {
  id = peer_id;
  display_name = display_name;
  addresses = (addr ++ (":" ++ decimal tcp_port)) ∷ [];
  last_seen_at = now;
  online = true;
}

found_info-announced :
    (peer_id : PeerId) (display_name addr : String) (tcp_port : ℕ) (now : Timestamp)
    (r : ResolvedService)
    → r.display_name ≡ some display_name
    → r.port ≡ tcp_port
    → r.addresses ≡ v4 addr ∷ []
    → (found_info peer_id now r ≡ announced_peer peer_id display_name addr tcp_port now)
      × (is_empty (reachable r) ≡ false)
unfolding found_info name_or_unknown reachable show_addr is_ipv6_link_local keep
found_info-announced peer_id display_name addr tcp_port now r name port addresses =
    (rw (name, port, addresses, found_info) refl, rw (addresses, reachable) refl)

browse_loop-end :
    (our_peer_id : PeerId) (names : HashMap PeerId) → browse_loop our_peer_id none names [] ≡ []
unfolding browse_loop
browse_loop-end our_peer_id names = refl

own :
    (peer_id : PeerId) (now : Timestamp) (r : ResolvedService)
    → r.peer_id ≡ some peer_id
    → (handle_service_event peer_id now [] (service_resolved r)).0 ≡ none
unfolding handle_service_event resolve
own peer_id now r id = ground (arith, id, eq_refl peer_id)

known :
    (name other : String) (peer_id : PeerId)
    → other ≡ name
    → get (insert [] name peer_id) other ≡ some peer_id
known name other peer_id e = ground (arith, get-insert [] name other peer_id, eq_iff name other, e)

-- Where our service is started on an interface whose address was detected, and no call of the library
-- fails: exactly one service is registered, with our identifier and name as TXT records, and that
-- address and our port. Where the libraries carry these records, another machine finds us under our
-- identifier and name, at that address and port, and when the service is removed, reports us lost;
-- on our own machine nothing is reported.
pub browse_loop-new :
    (lib : Mdns) (netdev : Netdev) (peer_id our_peer_id : PeerId) (display_name : String)
    (tcp_port : ℕ) (network_interface : Option String) (service : DiscoveryService) (addr : String)
    (r : ResolvedService) (s t : Timestamp) (removed_type : String)
    → (new lib netdev peer_id display_name tcp_port network_interface).0 ≡ ok service
    → (detect_interface netdev network_interface).1 ≡ some addr
    → IsResolved lib (our_service lib peer_id display_name addr tcp_port) r
    → (peer_id == our_peer_id) ≡ false
    → (registered_in (new lib netdev peer_id display_name tcp_port network_interface).1
        ≡ our_service lib peer_id display_name addr tcp_port ∷ [])
      × (browse_loop our_peer_id none [] (
            (s, service_resolved r)
            ∷ (t, service_removed removed_type service.our_service_fullname)
            ∷ [])
          ≡ peer_found (announced_peer peer_id display_name addr tcp_port s)
            ∷ peer_lost peer_id
            ∷ [])
      × (browse_loop peer_id none [] ((s, service_resolved r) ∷ []) ≡ [])
browse_loop-new lib netdev peer_id our_peer_id display_name tcp_port network_interface service addr
      r s t removed_type ran at is other =
    let (full, once) =
      new-eq-ok lib netdev peer_id display_name addr tcp_port network_interface service ran at in
    let (id, name, port, addresses) =
      resolved_records lib netdev peer_id display_name addr tcp_port network_interface r is in
    let (found, there) =
      found_info-announced peer_id display_name addr tcp_port s r name port addresses in
    let fullname : service.our_service_fullname ≡ r.fullname = full ∙ sym is.fullname in
    (
      once,
      browse_loop-step our_peer_id [] s (service_resolved r) (peer_found (found_info peer_id s r))
            (insert [] r.fullname peer_id) _
            (resolved_lem our_peer_id [] s peer_id r id other there)
          ∙ ap (◌∷◌ (peer_found (found_info peer_id s r))) (
              browse_loop-step our_peer_id (insert [] r.fullname peer_id) t
                (service_removed removed_type service.our_service_fullname) (peer_lost peer_id)
                (remove (insert [] r.fullname peer_id) service.our_service_fullname) []
                (removed_lem our_peer_id (insert [] r.fullname peer_id) t peer_id
                  service.our_service_fullname removed_type
                  (known r.fullname service.our_service_fullname peer_id fullname))
              ∙ ap (◌∷◌ (peer_lost peer_id)) (
                  browse_loop-end our_peer_id
                    (remove (insert [] r.fullname peer_id) service.our_service_fullname)))
          ∙ ap (λ p. peer_found p ∷ peer_lost peer_id ∷ []) found,
      browse_loop-none peer_id none [] s (service_resolved r) [] (own peer_id s r id)
          ∙ browse_loop-end peer_id (handle_service_event peer_id s [] (service_resolved r)).1,
    )
