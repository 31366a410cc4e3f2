-- ===== src/Core/Protocol/Frames.antt =====
-- Frames that are written are read back, alone and in sequence.
use family_com.Prelude.{
  ℕ, suc, ◌%◌, ◌≤◌, ◌<◌, ◌≡◌, refl, ap, List, [], ◌∷◌, ◌++◌, ltb, false, ◌∙◌, zero, map, sym,
  append_assoc, append-nil, none, Result, ok, arith, length, length-append, take-append,
  drop-append, All,
}
use family_com.Core.Protocol.{
  PeerMessage, ProtocolError, IoError, unexpected_eof, MsgPack, Reader, max_frame_size, u32_mod,
  to_be_bytes, from_be_bytes, frame, encode, decode, write_message, read_message, read_exact,
  read_payload, closing,
}

-- Four bytes hold every 32-bit length.
from_be_bytes-to_be_bytes : (n : ℕ) → n < u32_mod → from_be_bytes (to_be_bytes n) ≡ n
unfolding from_be_bytes to_be_bytes
from_be_bytes-to_be_bytes n h = omega arith

abbrev pub reading : List ℕ → IoError → Reader
reading bytes ending = record { bytes = bytes; ending = ending }

pub read_exact-append :
    (xs ys : List ℕ) (e : IoError)
    → read_exact (reading (xs ++ ys) e) (length xs) ≡ (ok xs, reading ys e)
unfolding read_exact
read_exact-append xs ys e =
    ground (arith, length-append xs ys, take-append xs ys, drop-append xs ys)

read_payload-append :
    (mp : MsgPack) (payload rest : List ℕ) (e : IoError)
    → read_payload mp (reading (payload ++ rest) e) (length payload)
      ≡ (decode mp payload, reading rest e)
unfolding read_payload
read_payload-append mp payload rest e = rw (read_exact-append payload rest e) refl

-- The length prefix of a frame, read from its first four bytes.
pub read_exact-frame :
    (payload rest : List ℕ) (e : IoError)
    → read_exact (reading (frame payload ++ rest) e) 4
      ≡ (ok (to_be_bytes (length payload % u32_mod)), reading (payload ++ rest) e)
unfolding frame
read_exact-frame payload rest e = rw append_assoc (
    unfold to_be_bytes in
    read_exact-append (to_be_bytes (length payload % u32_mod)) (payload ++ rest) e)

pub read_message-frame :
    (mp : MsgPack) (payload rest : List ℕ) (e : IoError)
    → length payload ≤ max_frame_size
    → read_message mp (reading (frame payload ++ rest) e) ≡ (decode mp payload, reading rest e)
unfolding read_message
read_message-frame mp payload rest e h =
    let size : from_be_bytes (to_be_bytes (length payload % u32_mod)) ≡ length payload =
      from_be_bytes-to_be_bytes (length payload % u32_mod) (omega arith) ∙ omega arith in
    let small : ltb max_frame_size (length payload) ≡ false = ground arith in
    rw (read_exact-frame payload rest e, size, small) (read_payload-append mp payload rest e)

-- A message that was framed, in at most the permitted size, is read from the front of any stream, and
-- the bytes after it are left for the next read.
pub read_message-encode :
    (mp : MsgPack) (m : PeerMessage) (payload rest : List ℕ) (e : IoError)
    → mp.to_vec_named m ≡ ok payload
    → length payload ≤ max_frame_size
    → (bytes : List ℕ) × (encode mp m ≡ ok bytes)
      × (read_message mp (reading (bytes ++ rest) e) ≡ (ok m, reading rest e))
unfolding encode decode
read_message-encode mp m payload rest e w h = (
  frame payload,
  rw w refl,
  read_message-frame mp payload rest e h ∙ rw (mp.read_back m payload w) refl,
)

-- `write_message` for each message, on a writer that does not fail.
unfoldable pub write_messages : MsgPack → List ℕ → List PeerMessage → List ℕ
write_messages mp out [] = out
write_messages mp out (m ∷ ms) = write_messages mp (write_message mp none out m).1 ms

-- As many reads as the number says, each with its result.
unfoldable pub read_messages :
    MsgPack → ℕ → Reader → List (Result PeerMessage ProtocolError) × Reader
read_messages mp zero r = ([], r)
read_messages mp (suc n) r =
    let (m, r') = read_message mp r in let (ms, r'') = read_messages mp n r' in (m ∷ ms, r'')

-- The message is written without error, in a frame of permitted size.
abbrev pub Fits : MsgPack → PeerMessage → Type 0
Fits mp m =
    (payload : List ℕ) × (mp.to_vec_named m ≡ ok payload) × (length payload ≤ max_frame_size)

pub write_message-Fits :
    (mp : MsgPack) (m : PeerMessage)
    → Fits mp m
    → (bytes : List ℕ) × ((out : List ℕ) → write_message mp none out m ≡ (ok tt, out ++ bytes))
      × ((rest : List ℕ) (e : IoError)
          → read_message mp (reading (bytes ++ rest) e) ≡ (ok m, reading rest e))
write_message-Fits mp m (payload, w, h) = (
  frame payload,
  λ out. unfold write_message encode in rw (w, write_message, encode) refl,
  λ rest e.
      read_message-frame mp payload rest e h ∙ unfold decode in rw (mp.read_back m payload w) refl,
)

-- The frames, one after the other.
unfoldable pub written : (mp : MsgPack) → List PeerMessage → List ℕ
written mp [] = []
written mp (m ∷ ms) = (write_message mp none [] m).1 ++ written mp ms

pub write_messages-written :
    (mp : MsgPack) (out : List ℕ) (ms : List PeerMessage)
    → All (Fits mp) ms
    → write_messages mp out ms ≡ out ++ written mp ms
unfolding write_messages written
write_messages-written mp out [] f = sym (append-nil out)
write_messages-written mp out (m ∷ ms) f =
    let (bytes, write, _) = write_message-Fits mp m f.0 in
    ap (λ (r : Result (Unit {0}) ProtocolError × List ℕ). write_messages mp r.1 ms) (write out)
    ∙ write_messages-written mp (out ++ bytes) ms f.1
    ∙ append_assoc out bytes (written mp ms)
    ∙ ap (λ (r : Result (Unit {0}) ProtocolError × List ℕ). out ++ (r.1 ++ written mp ms))
        (sym (write []))

read_messages-written :
    (mp : MsgPack) (ms : List PeerMessage) (rest : List ℕ) (e : IoError)
    → All (Fits mp) ms
    → read_messages mp (length ms) (reading (written mp ms ++ rest) e)
      ≡ (map (λ m. ok m) ms, reading rest e)
unfolding read_messages written
read_messages-written mp [] rest e f = refl
read_messages-written mp (m ∷ ms) rest e f =
    let (bytes, write, read) = write_message-Fits mp m f.0 in
    rw
      (
        write [],
        append_assoc bytes (written mp ms) rest,
        read (written mp ms ++ rest) e,
        read_messages-written mp ms rest e f.1,
      )
      refl

-- Messages that fit their frames, written one after the other, are read one after the other, in the
-- same order, and nothing is left.
pub read_messages-write_messages :
    (mp : MsgPack) (ms : List PeerMessage)
    → All (Fits mp) ms
    → read_messages mp (length ms) (closing (write_messages mp [] ms))
      ≡ (map (λ m. ok m) ms, closing [])
read_messages-write_messages mp ms f =
    rw (write_messages-written mp [] ms f, ← append-nil (written mp ms))
      (read_messages-written mp ms [] unexpected_eof f)
