-- ===== src/Daemon/Discovery/Names.antt =====
-- What happens to a peer that is announced under two service names.
use family_com.Prelude.{
  ◌≡◌, refl, ap, ◌∙◌, String, false, List, [], ◌∷◌, none, some, HashMap, get, insert, remove,
  get-insert, is_empty, ◌==◌, eq_refl,
}
use family_com.Core.Types.{PeerId, Timestamp}
use family_com.Daemon.App.{DiscoveryEvent, peer_found, peer_lost}
use family_com.Daemon.Discovery.{
  ResolvedService, ServiceEvent, service_resolved, service_removed, handle_service_event, resolve,
  found_info, reachable, browse_loop, blocking_send,
}
use family_com.Daemon.Discovery.Browsing.{browse_loop-some}

module _ (our_peer_id : PeerId) (names : HashMap PeerId) (now : Timestamp) where
  pub browse_loop-step :
      (event : ServiceEvent) (e : DiscoveryEvent) (names' : HashMap PeerId)
      (rest : List (Timestamp × ServiceEvent))
      → handle_service_event our_peer_id now names event ≡ (some e, names')
      → browse_loop our_peer_id none names ((now, event) ∷ rest)
        ≡ e ∷ browse_loop our_peer_id none names' rest
  browse_loop-step event e names' rest h =
      browse_loop-some our_peer_id none names now event rest e none (ap (λ p. p.0) h)
        (unfold blocking_send in refl)
      ∙ ap (λ m. e ∷ browse_loop our_peer_id none m rest) (ap (λ p. p.1) h)

  pub resolved_lem :
      (k : PeerId) (a : ResolvedService)
      → a.peer_id ≡ some k
      → (k == our_peer_id) ≡ false
      → is_empty (reachable a) ≡ false
      → handle_service_event our_peer_id now names (service_resolved a)
        ≡ (some (peer_found (found_info k now a)), insert names a.fullname k)
  unfolding handle_service_event
  resolved_lem k a i other r = rw (i, handle_service_event) (unfold resolve in rw (other, r) refl)

  pub removed_lem :
      (k : PeerId) (n service_type : String)
      → get names n ≡ some k
      → handle_service_event our_peer_id now names (service_removed service_type n)
        ≡ (some (peer_lost k), remove names n)
  unfolding handle_service_event
  removed_lem k n service_type h = rw (h, handle_service_event) refl

-- Two services of one peer under different names: when the first is removed, the peer is reported
-- lost, although the second is still there.
pub browse_loop-two_names :
    (our_peer_id k : PeerId) (s t : Timestamp) (a b : ResolvedService) (now : Timestamp)
    (service_type : String)
    → a.peer_id ≡ some k
    → b.peer_id ≡ some k
    → (k == our_peer_id) ≡ false
    → is_empty (reachable a) ≡ false
    → is_empty (reachable b) ≡ false
    → (b.fullname == a.fullname) ≡ false
    → browse_loop our_peer_id none [] (
        (s, service_resolved a)
        ∷ (t, service_resolved b)
        ∷ (now, service_removed service_type a.fullname)
        ∷ [])
      ≡ peer_found (found_info k s a) ∷ peer_found (found_info k t b) ∷ peer_lost k ∷ []
browse_loop-two_names our_peer_id k s t a b now service_type ia ib other ra rb names =
    let one : HashMap PeerId = insert [] a.fullname k in
    let two : HashMap PeerId = insert one b.fullname k in
    let there : get two a.fullname ≡ some k =
      get-insert one b.fullname a.fullname k
      ∙ rw (names, get-insert [] a.fullname a.fullname k, eq_refl a.fullname) refl in
    browse_loop-step our_peer_id [] s (service_resolved a) (peer_found (found_info k s a)) one _
      (resolved_lem our_peer_id [] s k a ia other ra)
    ∙ ap (◌∷◌ (peer_found (found_info k s a))) (
        browse_loop-step our_peer_id one t (service_resolved b) (peer_found (found_info k t b)) two
          _ (resolved_lem our_peer_id one t k b ib other rb)
        ∙ ap (◌∷◌ (peer_found (found_info k t b))) (
            browse_loop-step our_peer_id two now (service_removed service_type a.fullname)
              (peer_lost k) (remove two a.fullname) []
              (removed_lem our_peer_id two now k a.fullname service_type there)
            ∙ unfold browse_loop in refl))
