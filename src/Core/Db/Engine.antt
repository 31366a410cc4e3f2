-- ===== src/Core/Db/Engine.antt =====
-- The rows of the tables, and what the database code relies on of SQLite and of serde_json.
use mathlib.Core.List.{Perm}
use family_com.Prelude.{ℕ, ℤ, String, List, [], ◌∷◌, ◌≡◌, Result, ok, All, ◌≤ℤ◌}

pub record MessageRow : Type 0 where
  pub id : String
  pub peer_id : String
  pub direction : String
  pub content : String
  pub timestamp : ℤ
  pub delivered : ℕ

pub record PeerRow : Type 0 where
  pub id : String
  pub display_name : String
  pub last_seen_at : ℤ
  pub addresses : String

-- Every row is at least as new as those after it.
abbrev pub IsNewestFirst : List MessageRow → Type 0
IsNewestFirst [] = Unit
IsNewestFirst (m ∷ ms) = All (λ (n : MessageRow). n.timestamp ≤ℤ m.timestamp) ms × IsNewestFirst ms

-- ORDER BY timestamp DESC and ORDER BY display_name: some order that the clause allows. The order
-- of display names is used nowhere.
pub record Sqlite : Type 0 where
  pub by_time : List MessageRow → List MessageRow
  pub by_time-perm : (ms : List MessageRow) → Perm (by_time ms) ms
  pub by_time-IsNewestFirst : (ms : List MessageRow) → IsNewestFirst (by_time ms)
  pub by_name : List PeerRow → List PeerRow
  pub by_name-perm : (ps : List PeerRow) → Perm (by_name ps) ps
  pub unique_failed : String
  pub foreign_key_failed : String

-- A list of texts is written without error, and read back as it was.
pub record Json : Type 0 where
  pub to_string : List String → Result String String
  pub from_str : String → Result (List String) String
  pub written : (xs : List String) → (s : String) × (to_string xs ≡ ok s) × (from_str s ≡ ok xs)
