-- ===== src/Daemon/Discovery/Registration.antt =====
-- crates/familycomd/src/discovery.rs: the choice of a network interface, the registration of our
-- service, and its end. The mDNS library and the list of interfaces are arguments.
use Prim.Native.String.{◌++◌}
use family_com.Prelude.{
  ℕ, String, Bool, true, false, List, [], ◌∷◌, ◌++◌ as ◌+++◌, Option, none, some, Result, ok, err,
  ◌>>=◌, HashMap, insert, find, if◌then◌else◌, ◌==◌,
}
use family_com.Core.Types.{PeerId}

abbrev pub service_type : String
service_type = "_familycom._tcp.local."

pub data DiscoveryError : Type 0 where
  mdns registration : String → DiscoveryError

-- A network interface as the library netdev describes it.
pub record Interface : Type 0 where
  pub name : String
  pub ipv4 : List String

-- What netdev knows: all interfaces, and that of the default route.
pub record Netdev : Type 0 where
  pub interfaces : List Interface
  pub default_interface : Result Interface String

pub record ServiceInfo : Type 0 where
  pub service_type : String
  pub instance_name : String
  pub host : String
  pub address : String
  pub port : ℕ
  pub properties : HashMap String
  pub addr_auto : Bool

-- The calls of the library.
pub data MdnsCall : Type 0 where
  create disable_all disable_ipv6 shut_down : MdnsCall
  enable_addr enable_name browse unregister : String → MdnsCall
  build register : ServiceInfo → MdnsCall

-- Which calls fail, the full name that the library gives a service, and what else is asked of the
-- system: the name of the host, and the lower case of a text.
pub record Mdns : Type 0 where
  pub fails : MdnsCall → Option String
  pub fullname : ServiceInfo → String
  pub hostname : Option String
  pub to_lowercase : String → String

unfoldable pub first_ipv4 : List String → Option String
first_ipv4 [] = none
first_ipv4 (addr ∷ _) = some addr

-- `detect_interface`.
unfoldable pub detect_interface : Netdev → Option String → String × Option String
unfolding first_ipv4 find
detect_interface netdev (some name) = (
  name,
  elim (find (λ (i : Interface). i.name == name) netdev.interfaces) [
    | none ↦ none
    | some interface ↦ first_ipv4 interface.ipv4
  ],
)
detect_interface netdev none = elim netdev.default_interface [
  | ok interface ↦ (interface.name, first_ipv4 interface.ipv4)
  | err e ↦ ("", none)
]

-- The calls that restrict the library to the interface.
unfoldable pub restrict : String × Option String → List MdnsCall
restrict (name, some addr) = disable_all ∷ enable_addr addr ∷ []
restrict (name, none) =
    if name == "" then [] else disable_all ∷ enable_name name ∷ disable_ipv6 ∷ []

-- The records of our service.
unfoldable pub properties : PeerId → String → HashMap String
properties peer_id display_name = insert (insert [] "peer_id" peer_id) "display_name" display_name

unfoldable pub host : Option String → String
host none = "familycom.local."
host (some name) = name ++ ".local."

-- Our service as it is built, and as it is registered: with the address, if there is one, or else with
-- those that the library finds.
unfoldable pub service_info : Mdns → Option String → PeerId → String → ℕ → ServiceInfo
unfolding properties host
service_info lib addr peer_id display_name tcp_port = record {
  service_type = service_type;
  instance_name = lib.to_lowercase display_name;
  host = host lib.hostname;
  address = elim addr [ none ↦ "" | some a ↦ a ];
  port = tcp_port;
  properties = properties peer_id display_name;
  addr_auto = false;
}

unfoldable pub enable_addr_auto : Option String → ServiceInfo → ServiceInfo
enable_addr_auto none info = record info { addr_auto = true }
enable_addr_auto (some addr) info = info

-- The error that a failed call ends the registration with.
unfoldable pub error_of : MdnsCall → String → DiscoveryError
error_of (build _) e = registration e
error_of (register _) e = registration e
error_of _ e = mdns e

-- Calls in order, up to the first that fails, and those that were made.
unfoldable pub call_all : Mdns → List MdnsCall → Result (Unit {0}) DiscoveryError × List MdnsCall
unfolding error_of
call_all lib [] = (ok tt, [])
call_all lib (call ∷ rest) =
    let (result, made) = call_all lib rest in
    elim (lib.fails call) [
      | some e ↦ (err (error_of call e), call ∷ [])
      | none ↦ (result, call ∷ made)
    ]

pub record DiscoveryService : Type 0 where
  pub our_peer_id : PeerId
  pub our_service_fullname : String

-- The calls of `DiscoveryService::new`.
unfoldable pub registration_calls : String × Option String → ServiceInfo → List MdnsCall
unfolding restrict enable_addr_auto
registration_calls detected info =
    create
    ∷ (restrict detected
        +++ build info ∷ register (enable_addr_auto detected.1 info) ∷ browse service_type ∷ [])

-- `DiscoveryService::new`, without the task that it starts, and the calls that it made.
unfoldable pub new :
    Mdns
    → Netdev
    → PeerId
    → String
    → ℕ
    → Option String
    → Result DiscoveryService DiscoveryError × List MdnsCall
unfolding detect_interface service_info call_all registration_calls enable_addr_auto
new lib netdev peer_id display_name tcp_port network_interface =
    let detected = detect_interface netdev network_interface in
    let info = service_info lib detected.1 peer_id display_name tcp_port in
    let (called, made) = call_all lib (registration_calls detected info) in
    (
      do
        _ ← called
        ok (record {
          our_peer_id = peer_id;
          our_service_fullname = lib.fullname (enable_addr_auto detected.1 info);
        }),
      made,
    )

-- `shutdown`: both calls are made, whatever the first gives.
unfoldable pub shutdown : DiscoveryService → List MdnsCall
shutdown service = unregister service.our_service_fullname ∷ shut_down ∷ []
