-- ===== src/Daemon/Server/Accepting.antt =====
-- crates/familycomd/src/server.rs: the accept loop, which gives each connection a handler of its own.
use family_com.Prelude.{
  ℕ, suc, ◌<◌, ◌≡◌, refl, ap, String, List, [], ◌∷◌, Option, some, Result, ok, err, length, All,
}
use family_com.Core.Protocol.{ProtocolError, MsgPack}
use family_com.Daemon.Server.{Connection, handle_connection}
use family_com.Daemon.Server.Serving.{handle_connection_total}

-- `MessageServer::accept_loop`: how each of the handlers ends that it starts for what `accept` gives.
-- An error of `accept` is logged, and the loop goes on.
unfoldable pub accept_loop :
    MsgPack
    → ℕ
    → List (Result Connection String)
    → List (Option (Result (Unit {0}) ProtocolError × Connection))
accept_loop mp fuel [] = []
accept_loop mp fuel (ok c ∷ rest) = handle_connection mp fuel c ∷ accept_loop mp fuel rest
accept_loop mp fuel (err e ∷ rest) = accept_loop mp fuel rest

-- The connections that are accepted.
abbrev pub accepted : List (Result Connection String) → List Connection
accepted [] = []
accepted (ok c ∷ rest) = c ∷ accepted rest
accepted (err e ∷ rest) = accepted rest

-- Every connection that is accepted has its handler, and every handler ends, when the stream of each
-- connection ends, as every Reader does, and the fuel exceeds the bytes of each of them, whatever
-- errors `accept` gives in between. An idle connection that its peer leaves open is not such a stream.
pub accept_loop_total :
    (mp : MsgPack) (fuel : ℕ) (l : List (Result Connection String))
    → All (λ (c : Connection). length c.reader.bytes < fuel) (accepted l)
    → (length (accept_loop mp fuel l) ≡ length (accepted l))
      × All
          (λ (r : Option (Result (Unit {0}) ProtocolError × Connection)).
            (x : Result (Unit {0}) ProtocolError × Connection) × (r ≡ some x))
          (accept_loop mp fuel l)
unfolding accept_loop
accept_loop_total mp fuel [] h = (refl, tt)
accept_loop_total mp fuel (ok c ∷ rest) (h, hs) =
    let (n, ends) = accept_loop_total mp fuel rest hs in
    (ap suc n, (handle_connection_total mp fuel c h, ends))
accept_loop_total mp fuel (err e ∷ rest) h = accept_loop_total mp fuel rest h
