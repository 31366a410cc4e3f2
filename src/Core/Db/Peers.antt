-- ===== src/Core/Db/Peers.antt =====
-- `upsert_peer` and `get_peers`.
use mathlib.Core.List.{Mem, mem-cons_self, mem-cons_of_mem}
use mathlib.Core.List.Perm
use family_com.Prelude.{
  ◌||◌, is_ok, is_ok-eq-ok, any-perm, Result-cases, ◌≡◌, refl, ap, ◌∙◌, true, false, not, List, [],
  ◌∷◌, none, Result, ok, arith, keep, any, length, length-perm, all, all-perm, if◌then◌else◌, ◌==◌,
  eq_iff, suc, Bool-cases, mem-keep, inl, inr,
}
use family_com.Core.Types.{PeerId, PeerInfo}
use family_com.Core.Db.Collect.{mem-collect}
use family_com.Core.Db.Engine.{PeerRow, Sqlite, Json}
use family_com.Core.Db.{
  Database, DatabaseError, get_peers, upsert_peer, peer_of_row, collect, has_peer, replace_peer,
}
use family_com.Core.Db.Invariant.{IsWellFormed, HasDistinctPeers}
use family_com.Core.Db.Integrity.{run_update-IsWellFormed, upserts, has_peer-replace_peer}

-- Readable rows are all read.
collect-readable :
    (json : Json) (rows : List PeerRow)
    → all (λ p. is_ok (peer_of_row json p)) rows ≡ true
    → (ps : List PeerInfo) × (collect (peer_of_row json) rows ≡ ok ps) × (length ps ≡ length rows)
unfolding all collect
collect-readable json [] h = ([], refl, refl)
collect-readable json (r ∷ rows) h =
    let (ps, e, f) = collect-readable json rows (ground arith) in
    let (p, g) = is_ok-eq-ok (peer_of_row json r) (ground arith) in (p ∷ ps, simp (g, e), cc)

length-others :
    (row : PeerRow) (ps : List PeerRow)
    → HasDistinctPeers ps
    → suc (length (keep (λ p. not (p.id == row.id)) ps))
      ≡ (if has_peer ps row.id then length ps else suc (length ps))
unfolding keep has_peer any
length-others row [] d = ground arith
length-others row (p ∷ ps) d = elim (Bool-cases (p.id == row.id)) [
  | inl e ↦
      let q : p.id ≡ row.id = (eq_iff p.id row.id).0 e in
      let n : has_peer ps row.id ≡ false = rw q at d.0 in
      ground (arith, e, n, length-others row ps d.1)
  | inr e ↦ ground (arith, e, length-others row ps d.1)
]

length-replace_peer :
    (row : PeerRow) (ps : List PeerRow)
    → HasDistinctPeers ps
    → length (replace_peer row ps) ≡ (if has_peer ps row.id then length ps else suc (length ps))
unfolding replace_peer
length-replace_peer row ps d = length-others row ps d

module _ (sql : Sqlite) (json : Json) (db : Database) (w : IsWellFormed json db) where
  -- In a well-formed database the peers are all read: each row has its peer in the list, and there
  -- are as many as rows.
  pub get_peers_all :
      (ps : List PeerInfo) × (get_peers sql json none db ≡ ok ps) × (length ps ≡ length db.peers)
  unfolding get_peers
  get_peers_all =
      let (ps, e, f) =
        collect-readable json (sql.by_name db.peers)
          (all-perm (λ p. is_ok (peer_of_row json p)) (sql.by_name-perm db.peers) ∙ w.readable) in
      (ps, e, f ∙ length-perm (sql.by_name-perm db.peers))

  mem-get_peers :
      (ps : List PeerInfo) (row : PeerRow) (p : PeerInfo)
      → get_peers sql json none db ≡ ok ps
      → peer_of_row json row ≡ ok p
      → Mem row db.peers
      → Mem p ps
  unfolding get_peers
  mem-get_peers ps row p got e m =
      mem-collect (peer_of_row json) (sql.by_name db.peers) ps row p got e
        (Perm.subset (Perm.symm (sql.by_name-perm db.peers)) row m)

-- The row that an upsert writes.
upsert_peer_row :
    (json : Json) (db : Database) (peer : PeerInfo)
    → (row : PeerRow) × (upsert_peer json none db peer
        ≡ (ok tt, record db { peers = replace_peer row db.peers }))
      × (row.id ≡ peer.id)
      × (peer_of_row json row ≡ ok (record peer { online = false }))
unfolding upsert_peer peer_of_row
upsert_peer_row json db peer =
    let (text, written, read) = json.written peer.addresses in
    (
      record {
        id = peer.id;
        display_name = peer.display_name;
        last_seen_at = peer.last_seen_at;
        addresses = text;
      },
      rw (written, upsert_peer) refl,
      refl,
      rw read refl,
    )

id-peer_of_row :
    (json : Json) (row : PeerRow) (p : PeerInfo) → peer_of_row json row ≡ ok p → p.id ≡ row.id
unfolding peer_of_row
id-peer_of_row json row p h = ground arith

any-collect :
    (json : Json) (k : PeerId) (rows : List PeerRow) (ps : List PeerInfo)
    → collect (peer_of_row json) rows ≡ ok ps
    → any (λ p. p.id == k) ps ≡ has_peer rows k
unfolding collect any has_peer
any-collect json k [] ps h = ground arith
any-collect json k (r ∷ rows) ps h = elim (Result-cases (peer_of_row json r)) [
  | inl (p, e) ↦ elim (Result-cases (collect (peer_of_row json) rows)) [
    | inl (qs, f) ↦ ground (arith, e, f, any-collect json k rows qs f, id-peer_of_row json r p e)
    | inr (x, f) ↦ ground (arith, e, f)
  ]
  | inr (x, e) ↦ ground (arith, e)
]

-- The list of peers has those identifiers that the table has.
pub any-get_peers :
    (sql : Sqlite) (json : Json) (db : Database) (k : PeerId) (ps : List PeerInfo)
    → get_peers sql json none db ≡ ok ps
    → any (λ p. p.id == k) ps ≡ has_peer db.peers k
unfolding get_peers has_peer
any-get_peers sql json db k ps h =
    unfold has_peer in
    any-collect json k (sql.by_name db.peers) ps h
    ∙ any-perm (λ p. p.id == k) (sql.by_name-perm db.peers)

mem-replace_peer :
    (row r : PeerRow) (ps : List PeerRow)
    → (r.id == row.id) ≡ false
    → Mem r ps
    → Mem r (replace_peer row ps)
unfolding replace_peer
mem-replace_peer row r ps h m =
    mem-cons_of_mem row (mem-keep (λ p. not (p.id == row.id)) ps (ground arith) m)

module _ (sql : Sqlite) (json : Json) (db : Database) (w : IsWellFormed json db) where
  -- After an upsert without a fault the list of peers has the new peer, marked offline, and it has
  -- every other peer that the list had before. It is one longer if the peer was not known, and as
  -- long as before if it was.
  pub get_peers-upsert_peer :
      (peer : PeerInfo)
      → (db' : Database) × (ps : List PeerInfo) × (upsert_peer json none db peer ≡ (ok tt, db'))
        × (get_peers sql json none db' ≡ ok ps)
        × Mem (record peer { online = false }) ps
        × ((row : PeerRow) (q : PeerInfo)
            → Mem row db.peers
            → peer_of_row json row ≡ ok q
            → (q.id == peer.id) ≡ false
            → Mem q ps)
        × (length ps
            ≡ (if has_peer db.peers peer.id then length db.peers else suc (length db.peers)))
  get_peers-upsert_peer peer =
      let (row, e, i, f) = upsert_peer_row json db peer in
      let db' : Database = record db { peers = replace_peer row db.peers } in
      let w' : IsWellFormed json db' =
        rw (ap (λ (r : Result (Unit {0}) DatabaseError × Database). r.1) e) at
          (run_update-IsWellFormed sql json none db (upserts peer) w) in
      let (ps, got, count) = get_peers_all sql json db' w' in
      (
        db',
        ps,
        e,
        got,
        mem-get_peers sql json db' w' ps row (record peer { online = false }) got f
            (unfold replace_peer in mem-cons_self),
        λ r q m g n.
            mem-get_peers sql json db' w' ps r q got g
              (mem-replace_peer row r db.peers (other row r q g n i) m),
        count
            ∙ length-replace_peer row db.peers w.peers
            ∙ ap (λ k. if has_peer db.peers k then length db.peers else suc (length db.peers)) i,
      )
    where
      other :
          (row r : PeerRow) (q : PeerInfo)
          → peer_of_row json r ≡ ok q
          → (q.id == peer.id) ≡ false
          → row.id ≡ peer.id
          → (r.id == row.id) ≡ false
      other row r q g n i = rw (i, ← id-peer_of_row json r q g) n

-- An upsert without a fault adds its key, removes none, and leaves the messages alone.
pub upsert_peer-keys :
    (json : Json) (db : Database) (peer : PeerInfo)
    → (db' : Database) × (upsert_peer json none db peer ≡ (ok tt, db'))
      × (db'.messages ≡ db.messages)
      × ((k : PeerId) → has_peer db'.peers k ≡ (peer.id == k || has_peer db.peers k))
upsert_peer-keys json db peer =
    let (row, e, i, _) = upsert_peer_row json db peer in
    (
      record db { peers = replace_peer row db.peers },
      e,
      refl,
      λ k. has_peer-replace_peer row db.peers k ∙ ap (λ j. j == k || has_peer db.peers k) i,
    )
