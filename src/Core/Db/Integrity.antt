-- ===== src/Core/Db/Integrity.antt =====
-- Every update of the database keeps its invariant, on every branch.
use family_com.Prelude.{
  ◌≡◌, refl, String, true, not, ◌&&◌, List, [], ◌∷◌, map, is_ok, arith, keep, any, all, all-keep,
  eq_iff, ◌||◌, eq_refl, ◌==◌, Option-cases, inl, inr,
}
use family_com.Core.Types.{PeerId, MessageId, PeerInfo, Message}
use family_com.Core.Db.Engine.{MessageRow, PeerRow, Sqlite, Json}
use family_com.Core.Db.{
  Database, Fault, set_config, upsert_peer, save_message, mark_delivered, has_peer, has_message,
  replace_peer, peer_of_row, message_of_row, set_delivered,
}
use family_com.Core.Db.Invariant.{
  is_written, HasDistinctMessages, HasDistinctPeers, IsWellFormed, is_written-row_of_message,
}

has_peer-cons :
    (p : PeerRow) (ps : List PeerRow) (k : PeerId)
    → has_peer (p ∷ ps) k ≡ (p.id == k || has_peer ps k)
unfolding has_peer any
has_peer-cons p ps k = refl

module _ (row : PeerRow) where
  abbrev others : List PeerRow → List PeerRow
  others = keep (λ p. not (p.id == row.id))

  has_peer-others :
      (ps : List PeerRow) (k : PeerId)
      → has_peer (others ps) k ≡ (not (row.id == k) && has_peer ps k)
  unfolding has_peer keep any
  has_peer-others [] k = ground arith
  has_peer-others (p ∷ ps) k =
      ground (arith, has_peer-others ps k, eq_iff p.id row.id, eq_iff p.id k, eq_iff row.id k)

  HasDistinctPeers-others : (ps : List PeerRow) → HasDistinctPeers ps → HasDistinctPeers (others ps)
  unfolding keep
  HasDistinctPeers-others [] d = tt
  HasDistinctPeers-others (p ∷ ps) d =
      ground (arith, HasDistinctPeers-others ps d.1, has_peer-others ps p.id)

  HasDistinctPeers-replace_peer :
      (ps : List PeerRow) → HasDistinctPeers ps → HasDistinctPeers (replace_peer row ps)
  unfolding replace_peer
  HasDistinctPeers-replace_peer ps d =
      (rw (has_peer-others ps row.id, eq_refl row.id), HasDistinctPeers-others ps d)

  -- Replacing a row adds its key and removes none.
  pub has_peer-replace_peer :
      (ps : List PeerRow) (k : PeerId)
      → has_peer (replace_peer row ps) k ≡ (row.id == k || has_peer ps k)
  unfolding replace_peer
  has_peer-replace_peer ps k = rw has_peer-cons (ground (arith, has_peer-others ps k))

  parents-replace_peer :
      (ps : List PeerRow) (ms : List MessageRow)
      → all (λ m. has_peer ps m.peer_id) ms ≡ true
      → all (λ m. has_peer (replace_peer row ps) m.peer_id) ms ≡ true
  unfolding all
  parents-replace_peer ps [] h = refl
  parents-replace_peer ps (m ∷ ms) h =
      ground (arith, parents-replace_peer ps ms, has_peer-replace_peer ps m.peer_id)

readable-replace_peer :
    (json : Json) (row : PeerRow) (ps : List PeerRow)
    → is_ok (peer_of_row json row) ≡ true
    → all (λ p. is_ok (peer_of_row json p)) ps ≡ true
    → all (λ p. is_ok (peer_of_row json p)) (replace_peer row ps) ≡ true
unfolding all replace_peer
readable-replace_peer json row ps r h = rw r (all-keep _ _ ps h)

module _ (k : MessageId) where
  has_message-set_delivered :
      (ms : List MessageRow) (j : MessageId)
      → has_message (map (set_delivered k) ms) j ≡ has_message ms j
  unfolding has_message any set_delivered
  has_message-set_delivered [] j = refl
  has_message-set_delivered (m ∷ ms) j = ground (arith, has_message-set_delivered ms j)

  HasDistinctMessages-set_delivered :
      (ms : List MessageRow)
      → HasDistinctMessages ms
      → HasDistinctMessages (map (set_delivered k) ms)
  HasDistinctMessages-set_delivered [] d = tt
  HasDistinctMessages-set_delivered (m ∷ ms) d = (
    rw (has_message-set_delivered ms) (unfold set_delivered in ground arith),
    HasDistinctMessages-set_delivered ms d.1,
  )

  parents-set_delivered :
      (ps : List PeerRow) (ms : List MessageRow)
      → all (λ m. has_peer ps m.peer_id) ms ≡ true
      → all (λ m. has_peer ps m.peer_id) (map (set_delivered k) ms) ≡ true
  unfolding all set_delivered
  parents-set_delivered ps [] h = refl
  parents-set_delivered ps (m ∷ ms) h = ground (arith, parents-set_delivered ps ms)

  written-set_delivered :
      (ms : List MessageRow)
      → all is_written ms ≡ true
      → all is_written (map (set_delivered k) ms) ≡ true
  unfolding all set_delivered is_written message_of_row
  written-set_delivered [] h = refl
  written-set_delivered (m ∷ ms) h = ground (arith, written-set_delivered ms)

-- The updates of the program.
pub data Update : Type 0 where
  sets_config : String → String → Update
  upserts : PeerInfo → Update
  saves : Message → Update
  marks : MessageId → Update

module _ (sql : Sqlite) (json : Json) (fault : Fault) where
  abbrev pub run_update : Database → Update → Database
  run_update db (sets_config key value) = (set_config fault db key value).1
  run_update db (upserts peer) = (upsert_peer json fault db peer).1
  run_update db (saves msg) = (save_message sql fault db msg).1
  run_update db (marks k) = (mark_delivered fault db k).1

  upsert_peer-IsWellFormed :
      (db : Database) (peer : PeerInfo)
      → IsWellFormed json db
      → IsWellFormed json (upsert_peer json fault db peer).1
  unfolding upsert_peer peer_of_row
  upsert_peer-IsWellFormed db peer w =
      let (text, written, read) = json.written peer.addresses in
      elim (Option-cases fault) [
        | inl e ↦
            rw (written, e, upsert_peer)
              (replaced
                (record {
                  id = peer.id;
                  display_name = peer.display_name;
                  last_seen_at = peer.last_seen_at;
                  addresses = text;
                })
                (rw (read, peer_of_row) refl))
        | inr (x, e) ↦ rw (written, e, upsert_peer) w
      ]
    where
      replaced :
          (row : PeerRow)
          → is_ok (peer_of_row json row) ≡ true
          → IsWellFormed json (record db { peers = replace_peer row db.peers })
      replaced row r = record {
        messages = w.messages;
        peers = HasDistinctPeers-replace_peer row db.peers w.peers;
        parents = parents-replace_peer row db.peers db.messages w.parents;
        written = w.written;
        readable = readable-replace_peer json row db.peers r w.readable;
      }

  save_message-IsWellFormed :
      (db : Database) (msg : Message)
      → IsWellFormed json db
      → IsWellFormed json (save_message sql fault db msg).1
  unfolding save_message all
  save_message-IsWellFormed db msg w = ground (arith, is_written-row_of_message msg)

  mark_delivered-IsWellFormed :
      (db : Database) (k : MessageId)
      → IsWellFormed json db
      → IsWellFormed json (mark_delivered fault db k).1
  unfolding mark_delivered
  mark_delivered-IsWellFormed db k w = elim (Option-cases fault) [
    | inl e ↦
        rw (e, mark_delivered)
          (record {
            messages = HasDistinctMessages-set_delivered k db.messages w.messages;
            peers = w.peers;
            parents = parents-set_delivered k db.peers db.messages w.parents;
            written = written-set_delivered k db.messages w.written;
            readable = w.readable;
          })
    | inr (x, e) ↦ rw (e, mark_delivered) w
  ]

  -- Every update keeps the invariant, whether the statement succeeds, is refused by a constraint, or
  -- fails in the engine.
  pub run_update-IsWellFormed :
      (db : Database) (u : Update) → IsWellFormed json db → IsWellFormed json (run_update db u)
  unfolding set_config
  run_update-IsWellFormed db (sets_config key value) w = ground arith
  run_update-IsWellFormed db (upserts peer) w = upsert_peer-IsWellFormed db peer w
  run_update-IsWellFormed db (saves msg) w = save_message-IsWellFormed db msg w
  run_update-IsWellFormed db (marks k) w = mark_delivered-IsWellFormed db k w
