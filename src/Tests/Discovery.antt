-- ===== src/Tests/Discovery.antt =====
-- The browse loop at concrete reports.
use family_com.Prelude.{pos, ◌≡◌, refl, List, [], ◌∷◌, none, some, get, insert, keep}
use family_com.Prelude.{ok, ◌==◌, if◌then◌else◌}
use Prim.Native.String.{◌++◌ as ◌<>◌}
use family_com.Core.Types.{Timestamp}
use family_com.Daemon.Discovery.Registration.{
  Mdns, Netdev, detect_interface, first_ipv4, new, service_info, properties, enable_addr_auto,
  call_all, registration_calls, restrict,
}
use family_com.Daemon.Discovery.Announced.{
  IsResolved, registered_in, our_service, announced_peer, browse_loop-new,
}
use family_com.Daemon.App.{DiscoveryEvent, peer_found, peer_lost, Outside, run}
use family_com.Daemon.Discovery.{
  v4, v6, ResolvedService, ServiceEvent, service_resolved, service_removed, browse_loop, found_info,
  reachable, show_addr, is_ipv6_link_local, handle_service_event, resolve, blocking_send,
}
use family_com.Daemon.Discovery.Browsing.{
  IsOrderly, browse_loop-IsOrderly, deliveries, run-deliveries,
}
use family_com.Tests.Engines.{sqlite, json}
use family_com.Tests.Codecs.{toml, msg_pack}
use family_com.Tests.Samples.{outside, daemon}

abbrev service : ResolvedService
service = record {
  fullname = "alice._familycom._tcp.local.";
  peer_id = some "alice";
  display_name = none;
  port = 7000;
  addresses = v6 0xfe80 "fe80::1" ∷ v4 "10.0.0.2" ∷ [];
}

abbrev second : ResolvedService
second = record service { fullname = "ali._familycom._tcp.local." }

abbrev reports : List (Timestamp × ServiceEvent)
reports =
    (pos 1, service_resolved (record service { peer_id = some "bob" }))
    ∷ (pos 2, service_resolved service)
    ∷ (pos 3, service_removed "_familycom._tcp.local." "alice._familycom._tcp.local.")
    ∷ []

browse_loop-IsOrderly_example : IsOrderly "bob" [] (browse_loop "bob" none [] reports)
browse_loop-IsOrderly_example = browse_loop-IsOrderly "bob" none reports

abbrev events : List (DiscoveryEvent × Outside)
events =
    (peer_found (found_info "alice" (pos 2) service), outside) ∷ (peer_lost "alice", outside) ∷ []

run-deliveries_example :
    get (run sqlite json msg_pack toml daemon (deliveries events)).1.online_peers "bob" ≡ none
unfolding browse_loop handle_service_event resolve blocking_send found_info reachable show_addr
    is_ipv6_link_local get insert keep
run-deliveries_example =
    run-deliveries sqlite json msg_pack toml daemon "bob" none reports events refl refl

-- Alice's machine, on which every call of the library succeeds.
abbrev lib : Mdns
lib = record {
  fails = λ call. none;
  fullname = λ info. info.instance_name <> ("." <> info.service_type);
  hostname = none;
  to_lowercase = λ s. if s == "Alice" then "alice" else s;
}

abbrev netdev : Netdev
netdev = record {
  interfaces = [];
  default_interface = ok (record { name = "eth0"; ipv4 = "10.0.0.2" ∷ [] });
}

abbrev announced : ResolvedService
announced = record service { display_name = some "Alice"; addresses = v4 "10.0.0.2" ∷ [] }

announced-IsResolved : IsResolved lib (our_service lib "alice" "Alice" "10.0.0.2" 7000) announced
unfolding get
announced-IsResolved = record {
  fullname = refl;
  peer_id = refl;
  display_name = refl;
  port = refl;
  addresses = λ h. refl;
}

browse_loop-new_example :
    (registered_in (new lib netdev "alice" "Alice" 7000 none).1
      ≡ our_service lib "alice" "Alice" "10.0.0.2" 7000 ∷ [])
    × (browse_loop "bob" none [] (
          (pos 1, service_resolved announced)
          ∷ (pos 9, service_removed "_familycom._tcp.local." "alice._familycom._tcp.local.")
          ∷ [])
        ≡ peer_found (announced_peer "alice" "Alice" "10.0.0.2" 7000 (pos 1))
          ∷ peer_lost "alice"
          ∷ [])
    × (browse_loop "alice" none [] ((pos 1, service_resolved announced) ∷ []) ≡ [])
unfolding new detect_interface first_ipv4 service_info enable_addr_auto properties call_all
    registration_calls restrict
browse_loop-new_example =
    browse_loop-new lib netdev "alice" "bob" "Alice" 7000 none
      (record { our_peer_id = "alice"; our_service_fullname = "alice._familycom._tcp.local." })
      "10.0.0.2" announced (pos 1) (pos 9) "_familycom._tcp.local." refl refl announced-IsResolved
      refl
