-- ===== src/Daemon/Discovery/Browsing.antt =====
-- What the main loop can rely on of the events that discovery sends.
use family_com.Prelude.{
  ℕ, ◌≡◌, refl, ap, ◌∙◌, String, true, false, List, [], ◌∷◌, map, Option, none, some, HashMap, get,
  insert, remove, get-insert, get-remove, any, is_empty, ◌==◌, eq_refl, arith, Option-cases,
  Bool-cases, inl, inr,
}
use family_com.Core.Types.{PeerId, Timestamp}
use family_com.Core.Config.{Toml}
use family_com.Core.Db.Engine.{Sqlite, Json}
use family_com.Core.Protocol.{MsgPack}
use family_com.Daemon.App.{
  DiscoveryEvent, peer_found, peer_lost, DaemonApp, Outside, Event, discovery, run,
}
use family_com.Daemon.App.Online.{last_said, said, run-online_peers}
use family_com.Daemon.Discovery.{
  ResolvedService, ServiceEvent, service_resolved, service_removed, service_found, search_started,
  search_stopped, handle_service_event, resolve, found_info, reachable, browse_loop, blocking_send,
}

-- A peer that is found is another one, online, with an address. A peer that is lost was found before.
abbrev pub Follows : PeerId → List PeerId → DiscoveryEvent → Type 0
Follows our_peer_id known (peer_found p) =
    ((p.id == our_peer_id) ≡ false) × (p.online ≡ true) × (is_empty p.addresses ≡ false)
Follows our_peer_id known (peer_lost k) = any (λ j. j == k) known ≡ true

abbrev pub note : List PeerId → DiscoveryEvent → List PeerId
note known (peer_found p) = p.id ∷ known
note known (peer_lost k) = known

-- Each event follows those before it.
abbrev pub IsOrderly : PeerId → List PeerId → List DiscoveryEvent → Type 0
IsOrderly our_peer_id known [] = Unit
IsOrderly our_peer_id known (e ∷ es) =
    Follows our_peer_id known e × IsOrderly our_peer_id (note known e) es

-- The identifiers of the map were all found before.
abbrev Covers : List PeerId → HashMap PeerId → Type 0
Covers known names =
    (n : String) (k : PeerId) → get names n ≡ some k → any (λ j. j == k) known ≡ true

Covers-insert :
    (known : List PeerId) (names : HashMap PeerId) (n : String) (k : PeerId)
    → Covers known names
    → Covers (k ∷ known) (insert names n k)
unfolding any
Covers-insert known names n k c m j h = ground (arith, get-insert names n m k, c m j, eq_refl k)

Covers-remove :
    (known : List PeerId) (names : HashMap PeerId) (n : String)
    → Covers known names
    → Covers known (remove names n)
Covers-remove known names n c m j h = c m j (ground (arith, get-remove names n m))

module _ (our_peer_id : PeerId) (known : List PeerId) where
  -- One turn sends nothing and keeps a covered map, or sends an event that follows.
  abbrev Turn : Option DiscoveryEvent × HashMap PeerId → Type 0
  Turn (none, names) = Covers known names
  Turn (some e, names) = Follows our_peer_id known e × Covers (note known e) names

  resolve-Turn :
      (now : Timestamp) (names : HashMap PeerId) (info : ResolvedService) (k : PeerId)
      → Covers known names
      → Turn (resolve our_peer_id now names info k)
  unfolding resolve found_info
  resolve-Turn now names info k c = elim (Bool-cases (k == our_peer_id)) [
    | inl e ↦ rw (e, resolve) c
    | inr e ↦ elim (Bool-cases (is_empty (reachable info))) [
      | inl f ↦ rw (e, resolve, f) c
      | inr f ↦ rw (e, resolve, f) ((e, refl, f), Covers-insert known names info.fullname k c)
    ]
  ]

  handle_service_event-Turn :
      (now : Timestamp) (names : HashMap PeerId) (event : ServiceEvent)
      → Covers known names
      → Turn (handle_service_event our_peer_id now names event)
  unfolding handle_service_event
  handle_service_event-Turn now names (service_resolved info) c = elim (Option-cases info.peer_id) [
    | inl e ↦ rw (e, handle_service_event) c
    | inr (k, e) ↦ rw (e, handle_service_event) (resolve-Turn now names info k c)
  ]
  handle_service_event-Turn now names (service_removed t fullname) c =
      elim (Option-cases (get names fullname)) [
        | inl e ↦ rw (e, handle_service_event) c
        | inr (k, e) ↦
            rw (e, handle_service_event) (c fullname k e, Covers-remove known names fullname c)
      ]
  handle_service_event-Turn now names (service_found t n) c = c
  handle_service_event-Turn now names (search_started t) c = c
  handle_service_event-Turn now names (search_stopped t) c = c

module _ (our_peer_id : PeerId) (room : Option ℕ) (names : HashMap PeerId) (now : Timestamp)
    (event : ServiceEvent) (rest : List (Timestamp × ServiceEvent)) where
  pub browse_loop-none :
      (handle_service_event our_peer_id now names event).0 ≡ none
      → browse_loop our_peer_id room names ((now, event) ∷ rest)
        ≡ browse_loop our_peer_id room (handle_service_event our_peer_id now names event).1 rest
  unfolding browse_loop
  browse_loop-none h = rw (h, browse_loop) refl

  browse_loop-closed :
      (e : DiscoveryEvent)
      → (handle_service_event our_peer_id now names event).0 ≡ some e
      → blocking_send room ≡ none
      → browse_loop our_peer_id room names ((now, event) ∷ rest) ≡ []
  unfolding browse_loop
  browse_loop-closed e h k = rw (h, browse_loop, k) refl

  pub browse_loop-some :
      (e : DiscoveryEvent) (room' : Option ℕ)
      → (handle_service_event our_peer_id now names event).0 ≡ some e
      → blocking_send room ≡ some room'
      → browse_loop our_peer_id room names ((now, event) ∷ rest)
        ≡ e
          ∷ browse_loop our_peer_id room' (handle_service_event our_peer_id now names event).1 rest
  unfolding browse_loop
  browse_loop-some e room' h k = rw (h, browse_loop, k) refl

browse_loop-IsOrderly_known :
    (our_peer_id : PeerId) (room : Option ℕ) (known : List PeerId) (names : HashMap PeerId)
    (reports : List (Timestamp × ServiceEvent))
    → Covers known names
    → IsOrderly our_peer_id known (browse_loop our_peer_id room names reports)
browse_loop-IsOrderly_known our_peer_id room known names [] c = unfold browse_loop in tt
browse_loop-IsOrderly_known our_peer_id room known names ((now, event) ∷ rest) c =
    let turn = handle_service_event-Turn our_peer_id known now names event c in
    let names' : HashMap PeerId = (handle_service_event our_peer_id now names event).1 in
    elim (Option-cases (handle_service_event our_peer_id now names event).0) [
      | inl h ↦
          let c' : Covers known names' = rw h at turn in
          rw (browse_loop-none our_peer_id room names now event rest h)
            (browse_loop-IsOrderly_known our_peer_id room known names' rest c')
      | inr (e, h) ↦
          let sent : Follows our_peer_id known e × Covers (note known e) names' = rw h at turn in
          elim (Option-cases (blocking_send room)) [
            | inl k ↦ rw (browse_loop-closed our_peer_id room names now event rest e h k) tt
            | inr (room', k) ↦
                rw (browse_loop-some our_peer_id room names now event rest e room' h k) (
                  sent.0,
                  browse_loop-IsOrderly_known our_peer_id room' (note known e) names' rest sent.1,
                )
          ]
    ]

-- The events that discovery sends, whatever the library reports and whenever the channel closes: a
-- peer that is found is never we ourselves, is online and has an address, and a peer is lost only if
-- it was found before.
pub browse_loop-IsOrderly :
    (our_peer_id : PeerId) (room : Option ℕ) (reports : List (Timestamp × ServiceEvent))
    → IsOrderly our_peer_id [] (browse_loop our_peer_id room [] reports)
browse_loop-IsOrderly our_peer_id room reports =
    browse_loop-IsOrderly_known our_peer_id room [] [] reports λ n k h. absurd (unfold get in cc)

-- What the main loop takes from discovery, each event with what happens outside at that time.
unfoldable pub deliveries : List (DiscoveryEvent × Outside) → List (Outside × Event)
deliveries [] = []
deliveries ((e, o) ∷ rest) = (o, discovery e) ∷ deliveries rest

said_self :
    (our_peer_id : PeerId) (known : List PeerId) (e : DiscoveryEvent)
    → Follows our_peer_id known e
    → said our_peer_id none e ≡ none
unfolding said
said_self our_peer_id known (peer_found p) f = rw f.0 refl
said_self our_peer_id known (peer_lost k) f = ground arith

last_said-cons :
    (k : PeerId) (e : DiscoveryEvent) (o : Outside) (rest : List (DiscoveryEvent × Outside))
    → last_said k none (deliveries ((e, o) ∷ rest)) ≡ last_said k (said k none e) (deliveries rest)
unfolding last_said deliveries
last_said-cons k e o rest = refl

last_said_self :
    (our_peer_id : PeerId) (known : List PeerId) (events : List (DiscoveryEvent × Outside))
    → IsOrderly our_peer_id known (map (λ p. p.0) events)
    → last_said our_peer_id none (deliveries events) ≡ none
last_said_self our_peer_id known [] h = unfold last_said deliveries in refl
last_said_self our_peer_id known ((e, o) ∷ rest) h =
    last_said-cons our_peer_id e o rest
    ∙ ap (λ b. last_said our_peer_id b (deliveries rest)) (said_self our_peer_id known e h.0)
    ∙ last_said_self our_peer_id (note known e) rest h.1

-- A daemon that takes the events that discovery sends, in any state in which it is not online to
-- itself, never becomes so.
pub run-deliveries :
    (sql : Sqlite) (json : Json) (mp : MsgPack) (toml : Toml) (app : DaemonApp)
    (our_peer_id : PeerId) (room : Option ℕ) (reports : List (Timestamp × ServiceEvent))
    (events : List (DiscoveryEvent × Outside))
    → map (λ p. p.0) events ≡ browse_loop our_peer_id room [] reports
    → get app.online_peers our_peer_id ≡ none
    → get (run sql json mp toml app (deliveries events)).1.online_peers our_peer_id ≡ none
run-deliveries sql json mp toml app our_peer_id room reports events sent off =
    run-online_peers sql json mp toml app (deliveries events) our_peer_id
    ∙ ap (λ b. last_said our_peer_id b (deliveries events)) off
    ∙ last_said_self our_peer_id [] events
        (rw sent (browse_loop-IsOrderly our_peer_id room reports))
