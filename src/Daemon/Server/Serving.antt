-- ===== src/Daemon/Server/Serving.antt =====
-- The connection handler always comes to an end, and serves what its peer wrote.
use family_com.Prelude.{
  ℕ, suc, zero, ◌<◌, ◌≡◌, refl, ap, ◌∙◌, sym, Bool, true, false, List, [], ◌∷◌, ◌++◌, none, some,
  Result, ok, err, arith, length, keep, All, append_assoc, append-nil, Result-cases, Bool-cases,
  inl, inr,
}
use family_com.Core.Protocol.{
  PeerMessage, chat, ack, ping, pong, ProtocolError, MsgPack, IoError, Reader, read_message,
  connection_closed, prefix_error, closing, unexpected_eof, write_message,
}
use family_com.Core.Protocol.Frames.{
  Fits, write_messages, written, write_messages-written, write_message-Fits, reading,
}
use family_com.Core.Protocol.Reading.{read_message_progress, read_message-nil}
use family_com.Daemon.Server.{
  Connection, handle_connection, handle_message, forward, reply, next_fault, later_faults,
}

-- Handling a message reads nothing.
handle_message-reader :
    (mp : MsgPack) (msg : PeerMessage) (c : Connection)
    → (handle_message mp msg c).1.reader ≡ c.reader
unfolding handle_message forward reply
handle_message-reader mp msg c = ground arith

module _ (mp : MsgPack) (fuel : ℕ) (c : Connection) (r : Reader) where
  handle_connection-err :
      (e : ProtocolError)
      → read_message mp c.reader ≡ (err e, r)
      → handle_connection mp (suc fuel) c ≡ some (err e, record c { reader = r })
  unfolding handle_connection
  handle_connection-err e h = rw (ap (λ p. p.0) h, ap (λ p. p.1) h, handle_connection) refl

  handle_connection-ok :
      (msg : PeerMessage) (c' : Connection)
      → read_message mp c.reader ≡ (ok msg, r)
      → handle_message mp msg (record c { reader = r }) ≡ (true, c')
      → handle_connection mp (suc fuel) c ≡ handle_connection mp fuel c'
  unfolding handle_connection
  handle_connection-ok msg c' h k =
      let k' = ap (λ s. handle_message mp msg (record c { reader = s })) (ap (λ p. p.1) h) ∙ k in
      rw (ap (λ p. p.0) h, ap (λ p. p.0) k', handle_connection)
        (ap (λ p. handle_connection mp fuel p.1) k')

  handle_connection-stop :
      (msg : PeerMessage) (c' : Connection)
      → read_message mp c.reader ≡ (ok msg, r)
      → handle_message mp msg (record c { reader = r }) ≡ (false, c')
      → handle_connection mp (suc fuel) c ≡ some (ok tt, c')
  unfolding handle_connection
  handle_connection-stop msg c' h k =
      let k' = ap (λ s. handle_message mp msg (record c { reader = s })) (ap (λ p. p.1) h) ∙ k in
      rw (ap (λ p. p.0) h, handle_connection, ap (λ p. p.0) k') (ap (λ p. some (ok tt, p.1)) k')

-- The handler of a connection ends when the fuel exceeds the number of bytes that the peer sends,
-- whatever they are, whatever the replies meet and whenever the channel closes.
pub handle_connection_total :
    (mp : MsgPack) (fuel : ℕ) (c : Connection)
    → length c.reader.bytes < fuel
    → (r : Result (Unit {0}) ProtocolError × Connection) × (handle_connection mp fuel c ≡ some r)
handle_connection_total mp zero c h = ground arith
handle_connection_total mp (suc fuel) c h =
    let r : Reader = (read_message mp c.reader).1 in
    elim (Result-cases (read_message mp c.reader).0) [
      | inl (msg, e) ↦
          let next : Connection = (handle_message mp msg (record c { reader = r })).1 in
          elim (Bool-cases (handle_message mp msg (record c { reader = r })).0) [
            | inl go ↦
                let shorter : length next.reader.bytes < fuel =
                  rw (handle_message-reader mp msg (record c { reader = r }))
                    (omega (arith, read_message_progress mp c.reader msg e, h)) in
                let (result, ends) = handle_connection_total mp fuel next shorter in
                (
                  result,
                  handle_connection-ok mp fuel c r msg next (ap (λ a. (a, r)) e)
                        (ap (λ a. (a, next)) go)
                      ∙ ends,
                )
            | inr stop ↦ (
              (ok tt, next),
              handle_connection-stop mp fuel c r msg next (ap (λ a. (a, r)) e)
                  (ap (λ a. (a, next)) stop),
            )
          ]
      | inr (x, e) ↦ (
        (err x, record c { reader = r }),
        handle_connection-err mp fuel c r x (ap (λ a. (a, r)) e),
      )
    ]

-- What the handler sends back for a message, and what it forwards.
unfoldable pub replies : List PeerMessage → List PeerMessage
replies [] = []
replies (chat id _ _ _ _ ∷ ms) = ack id ∷ replies ms
replies (ping ∷ ms) = pong ∷ replies ms
replies (_ ∷ ms) = replies ms

unfoldable pub is_forwarded : PeerMessage → Bool
is_forwarded (chat _ _ _ _ _) = true
is_forwarded (ack _) = true
is_forwarded _ = false

-- A connection on which nothing fails.
abbrev pub flawless : Reader → List ℕ → List PeerMessage → Connection
flawless reader written forwarded = record {
  reader = reader;
  faults = [];
  written = written;
  forwarded = forwarded;
  room = none;
}

handle_message-flawless :
    (mp : MsgPack) (m : PeerMessage) (ms : List PeerMessage) (r : Reader) (out : List ℕ)
    (before : List PeerMessage)
    → (out' : List ℕ) × (before' : List PeerMessage) × (handle_message mp m (flawless r out before)
        ≡ (true, flawless r out' before'))
      × (write_messages mp out (replies (m ∷ ms)) ≡ write_messages mp out' (replies ms))
      × (before ++ keep is_forwarded (m ∷ ms) ≡ before' ++ keep is_forwarded ms)
unfolding handle_message forward reply replies write_messages keep is_forwarded next_fault
    later_faults
handle_message-flawless mp (chat id k n t s) ms r out before =
    (_, _, refl, refl, sym (append_assoc before _ _))
handle_message-flawless mp (ack id) ms r out before =
    (_, _, refl, refl, sym (append_assoc before _ _))
handle_message-flawless mp ping ms r out before = (_, _, refl, refl, refl)
handle_message-flawless mp pong ms r out before = (_, _, refl, refl, refl)

written-cons :
    (mp : MsgPack) (m : PeerMessage) (ms : List PeerMessage)
    → written mp (m ∷ ms) ≡ (write_message mp none [] m).1 ++ written mp ms
unfolding written
written-cons mp m ms = refl

serve :
    (mp : MsgPack) (ms : List PeerMessage) (fuel : ℕ) (e : IoError) (out : List ℕ)
    (before : List PeerMessage)
    → All (Fits mp) ms
    → length ms < fuel
    → handle_connection mp fuel (flawless (reading (written mp ms) e) out before)
      ≡ some (
        err (prefix_error e),
        flawless
            (reading [] e)
            (write_messages mp out (replies ms))
            (before ++ keep is_forwarded ms),
      )
serve mp ms zero e out before f h = ground arith
serve mp [] (suc fuel) e out before f h =
    unfold written keep replies write_messages in
    rw (append-nil before) (
      handle_connection-err mp fuel (flawless (reading [] e) out before) (reading [] e)
        (prefix_error e) (read_message-nil mp e))
serve mp (m ∷ ms) (suc fuel) e out before f h =
    let (bytes, write, read) = write_message-Fits mp m f.0 in
    let (out', before', handled, wrote, kept) =
      handle_message-flawless mp m ms (reading (written mp ms) e) out before in
    let received =
      handle_connection-ok mp fuel (flawless (reading (bytes ++ written mp ms) e) out before)
        (reading (written mp ms) e) m (flawless (reading (written mp ms) e) out' before')
        (read (written mp ms) e) handled in
    rw (wrote, kept, written-cons mp m ms, write [])
      (received ∙ serve mp ms fuel e out' before' f.1 (omega (arith, h)))

-- On a connection where nothing fails, a peer that writes messages and closes gets an acknowledgement
-- for each chat message and a pong for each ping, in order; the chat messages and acknowledgements
-- are forwarded in order; and the handler ends with a closed connection.
pub handle_connection_lem :
    (mp : MsgPack) (ms : List PeerMessage) (fuel : ℕ)
    → All (Fits mp) ms
    → length ms < fuel
    → handle_connection mp fuel (flawless (closing (write_messages mp [] ms)) [] [])
      ≡ some (
        err connection_closed,
        flawless (closing []) (write_messages mp [] (replies ms)) (keep is_forwarded ms),
      )
handle_connection_lem mp ms fuel f h =
    rw (write_messages-written mp [] ms f)
      (unfold prefix_error in serve mp ms fuel unexpected_eof [] [] f h)
