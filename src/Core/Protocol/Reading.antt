-- ===== src/Core/Protocol/Reading.antt =====
-- What `read_message` does on any stream: how much it takes, and how it fails.
use family_com.Prelude.{
  ℕ, ◌+◌, ◌≤◌, ◌<◌, ◌≡◌, refl, List, [], ◌++◌, Result, ok, err, arith, length, length-drop, take,
  drop, leb, ltb, if◌then◌else◌,
}
use family_com.Core.Protocol.{
  PeerMessage, prefix_error, IoError, MsgPack, Reader, max_frame_size, from_be_bytes, decode,
  read_message, read_exact, read_payload, read_sized, closing, connection_closed, frame_too_large,
  io,
}
use family_com.Core.Protocol.Frames.{reading, read_exact-append}

-- A stream that ends within the first four bytes, after none or after one to three of them, is
-- reported as a closed connection.
pub read_message-closing :
    (mp : MsgPack) (bytes : List ℕ)
    → length bytes < 4
    → read_message mp (closing bytes) ≡ (err connection_closed, closing [])
unfolding read_message read_exact
read_message-closing mp bytes h = ground arith

read_payload_lem :
    (mp : MsgPack) (body : List ℕ) (e : IoError) (size : ℕ)
    → read_payload mp (reading body e) size ≡ (
        if leb size (length body)
        then (decode mp (take size body), reading (drop size body) e)
        else (err (io e), reading [] e))
unfolding read_payload read_exact
read_payload_lem mp body e size = ground arith

-- After a whole prefix: a size over the limit is refused before any byte of the payload is taken;
-- otherwise the payload is decoded if it arrives whole, and an end of the stream within it is an I/O
-- error.
pub read_message-prefix :
    (mp : MsgPack) (head body : List ℕ) (e : IoError)
    → length head ≡ 4
    → read_message mp (reading (head ++ body) e) ≡ (
        if ltb max_frame_size (from_be_bytes head)
        then (err (frame_too_large (from_be_bytes head)), reading body e)
        else if leb (from_be_bytes head) (length body)
        then (
          decode mp (take (from_be_bytes head) body),
          reading (drop (from_be_bytes head) body) e,
        )
        else (err (io e), reading [] e))
unfolding read_message
read_message-prefix mp head body e h =
    let four : read_exact (reading (head ++ body) e) 4 ≡ (ok head, reading body e) =
      rw h at (read_exact-append head body e) in
    rw (four, read_payload_lem mp body e (from_be_bytes head)) refl

read_exact_bound : (r : Reader) (n : ℕ) → length r.bytes ≤ n + length (read_exact r n).1.bytes
unfolding read_exact
read_exact_bound r n = ground (arith, length-drop n r.bytes)

read_payload_bound :
    (mp : MsgPack) (r : Reader) (n : ℕ) → length r.bytes ≤ n + length (read_payload mp r n).1.bytes
unfolding read_payload
read_payload_bound mp r n = read_exact_bound r n

read_sized_bound :
    (mp : MsgPack) (p : Result (List ℕ) IoError × Reader)
    → length p.1.bytes ≤ max_frame_size + length (read_sized mp p).1.bytes
unfolding read_sized
read_sized_bound mp (err e, r) = omega arith
read_sized_bound mp (ok len_buf, r) =
    ground (arith, read_payload_bound mp r (from_be_bytes len_buf))

-- One read takes at most four bytes and a payload of the permitted size from the stream, whatever
-- arrives.
pub read_message_bound :
    (mp : MsgPack) (r : Reader)
    → length r.bytes ≤ 4 + max_frame_size + length (read_message mp r).1.bytes
unfolding read_message
read_message_bound mp r = omega (arith, read_exact_bound r 4, read_sized_bound mp (read_exact r 4))

read_exact_progress :
    (r : Reader) (n : ℕ) (xs : List ℕ)
    → (read_exact r n).0 ≡ ok xs
    → n + length (read_exact r n).1.bytes ≡ length r.bytes
unfolding read_exact
read_exact_progress r n xs e = ground (arith, length-drop n r.bytes)

read_exact_shorter : (r : Reader) (n : ℕ) → length (read_exact r n).1.bytes ≤ length r.bytes
unfolding read_exact
read_exact_shorter r n = ground (arith, length-drop n r.bytes)

read_sized_progress :
    (mp : MsgPack) (p : Result (List ℕ) IoError × Reader) (m : PeerMessage)
    → (read_sized mp p).0 ≡ ok m
    → (xs : List ℕ) × (p.0 ≡ ok xs) × (length (read_sized mp p).1.bytes ≤ length p.1.bytes)
unfolding read_sized read_payload
read_sized_progress mp (err e, r) m h = ground arith
read_sized_progress mp (ok len_buf, r) m h =
    (len_buf, refl, ground (arith, read_exact_shorter r (from_be_bytes len_buf)))

-- A read that gives a message takes at least its four bytes of length.
pub read_message_progress :
    (mp : MsgPack) (r : Reader) (m : PeerMessage)
    → (read_message mp r).0 ≡ ok m
    → 4 + length (read_message mp r).1.bytes ≤ length r.bytes
unfolding read_message
read_message_progress mp r m h =
    let (xs, e, le) = read_sized_progress mp (read_exact r 4) m h in
    omega (arith, read_exact_progress r 4 xs e, le)

pub read_message-nil :
    (mp : MsgPack) (e : IoError)
    → read_message mp (reading [] e) ≡ (err (prefix_error e), reading [] e)
unfolding read_message read_exact read_sized
read_message-nil mp e = refl
