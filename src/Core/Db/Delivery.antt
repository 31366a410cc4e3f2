-- ===== src/Core/Db/Delivery.antt =====
-- `mark_delivered` and the count of unread messages.
use family_com.Prelude.{
  ◌≡◌, refl, ap, List, [], ◌∷◌, map, Option, none, ok, arith, keep, any, find, length, ltb,
  if◌then◌else◌, ◌==◌, eq_iff,
}
use mathlib.Core.Option
use family_com.Core.Types.{MessageId}
use family_com.Core.Db.Engine.{MessageRow}
use family_com.Core.Db.{Database, mark_delivered, set_delivered, has_message}

-- The row with a key.
unfoldable pub find_row : List MessageRow → MessageId → Option MessageRow
find_row ms k = find (λ m. m.id == k) ms

find_row-set_delivered :
    (k j : MessageId) (ms : List MessageRow)
    → find_row (map (set_delivered k) ms) j ≡ (
        if k == j
        then Option.map (λ (m : MessageRow). record m { delivered = 1 }) (find_row ms j)
        else find_row ms j)
unfolding find_row find set_delivered
find_row-set_delivered k j [] = ground arith
find_row-set_delivered k j (m ∷ ms) =
    ground (arith, find_row-set_delivered k j ms, eq_iff m.id k, eq_iff m.id j, eq_iff k j)

rows_affected :
    (ms : List MessageRow) (k : MessageId)
    → ltb 0 (length (keep (λ m. m.id == k) ms)) ≡ has_message ms k
unfolding keep has_message any
rows_affected [] k = refl
rows_affected (m ∷ ms) k = ground (arith, rows_affected ms k)

-- Without a fault `mark_delivered` answers whether the message is stored, sets its flag, leaves every
-- other field and every other message as it was, and leaves the other tables alone.
pub mark_delivered_lem :
    (db : Database) (k : MessageId)
    → (db' : Database) × (mark_delivered none db k ≡ (ok (has_message db.messages k), db'))
      × (db'.peers ≡ db.peers)
      × (db'.config ≡ db.config)
      × ((j : MessageId)
          → find_row db'.messages j ≡ (
              if k == j
              then Option.map
                  (λ (m : MessageRow). record m { delivered = 1 })
                  (find_row db.messages j)
              else find_row db.messages j))
unfolding mark_delivered
mark_delivered_lem db k = (
  record db { messages = map (set_delivered k) db.messages },
  ap (λ b. (ok b, record db { messages = map (set_delivered k) db.messages }))
      (rows_affected db.messages k),
  refl,
  refl,
  λ j. find_row-set_delivered k j db.messages,
)

set_delivered_idem :
    (k : MessageId) (ms : List MessageRow)
    → map (set_delivered k) (map (set_delivered k) ms) ≡ map (set_delivered k) ms
unfolding set_delivered
set_delivered_idem k [] = refl
set_delivered_idem k (m ∷ ms) = ground (arith, set_delivered_idem k ms)

-- A second acknowledgement of a message changes nothing more.
pub mark_delivered_idem :
    (db : Database) (k : MessageId)
    → (mark_delivered none (mark_delivered none db k).1 k).1 ≡ (mark_delivered none db k).1
unfolding mark_delivered
mark_delivered_idem db k = ground (arith, set_delivered_idem k db.messages)
