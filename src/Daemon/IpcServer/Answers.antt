-- ===== src/Daemon/IpcServer/Answers.antt =====
-- The loop sends and forwards what the turns alone say.
use family_com.Prelude.{
  ◌≡◌, refl, ap, ◌∙◌, String, Bool, true, false, List, [], ◌∷◌, ◌++◌, Option, none, some, Result,
  ok, err, ◌==◌, ◌||◌, map, arith, Result-cases, inl, inr, append_assoc, append-nil,
}
use mathlib.Core.List.{map-append}
use text.Mathlib.TextLemmas.{nil-append}
use family_com.Core.Ipc.{
  ClientRequest, ServerMessage, IpcError, IpcJson, decode_request, encode_response,
}
use family_com.Daemon.IpcServer.{
  Ready, read_line, read_failed, response, event, lagged, closed, Turn, IpcClient, Outcome,
  invalid_request, write_response, clear_line, handle_request, handle_line, handle_turn,
  handle_ipc_client,
}
use family_com.Daemon.IpcServer.Expected.{
  goes_on, is_subscribe, line_answer, line_request, subscribes, answers, asks, subscribed_after,
  told, asked, is_encoded, line_of, all, between,
}

all-append :
    {A : Type 0} (p : A → Bool) (xs ys : List A)
    → all p (xs ++ ys) ≡ true
    → (all p xs ≡ true) × (all p ys ≡ true)
all-append p [] ys h = (refl, h)
all-append p (x ∷ xs) ys h =
    let both : (p x ≡ true) × (all p (xs ++ ys) ≡ true) = ground arith in
    let (fst, snd) = all-append p xs ys both.1 in (ground arith, snd)

abbrev turn_of : Ready → Option String → Bool → Turn
turn_of ready fault gone = record { ready = ready; fault = fault; daemon_gone = gone }

goes_on-read_line :
    (text : String) (fault : Option String) (gone : Bool)
    → goes_on (turn_of (read_line text) fault gone) ≡ true
    → ((text == "") ≡ false) × (gone ≡ false) × (fault ≡ none)
goes_on-read_line text none gone g = (ground arith, ground arith, refl)
goes_on-read_line text (some e) gone g = ground arith

module _ (requests : IpcJson ClientRequest) (responses : IpcJson ServerMessage) where
  write_response-is_encoded :
      (fault : Option String) (msg : ServerMessage) (c : IpcClient)
      → fault ≡ none
      → all (is_encoded responses) (msg ∷ []) ≡ true
      → write_response responses fault msg c
        ≡ (none, record c { written = c.written ++ line_of responses msg ∷ [] })
  unfolding write_response
  write_response-is_encoded none msg c f h = elim (Result-cases (encode_response responses msg)) [
    | inl (line, e) ↦ rw (e, line_of) refl
    | inr (e, k) ↦ ground arith
  ]
  write_response-is_encoded (some e) msg c f h = cc

  -- What follows a line that was read.
  decoded-goes_on :
      (turn : Turn) (text : String) (r : Result ClientRequest IpcError) (b : Bool)
      (lines : List String) (rs : List ClientRequest)
      → turn.daemon_gone ≡ false
      → turn.fault ≡ none
      → all (is_encoded responses) (line_answer r) ≡ true
      → (let c : IpcClient = record {
        line_buf = text;
        subscribed = b;
        written = lines;
        forwarded = rs;
      } in
          clear_line (elim r [
            | err e ↦ write_response responses turn.fault (invalid_request e) c
            | ok request ↦ handle_request responses turn request c
          ])
          ≡ (
            none,
            between
                (is_subscribe r || b)
                (lines ++ map (line_of responses) (line_answer r))
                (rs ++ line_request r),
          ))
  unfolding clear_line handle_request write_response
  decoded-goes_on turn text (err e) b lines rs g f h =
      rw (write_response-is_encoded turn.fault (invalid_request e) _ f h, append-nil rs) refl
  decoded-goes_on turn text (ok ClientRequest.subscribe) b lines rs g f h =
      rw (write_response-is_encoded turn.fault ServerMessage.done _ f h, append-nil rs) refl
  decoded-goes_on turn text (ok ClientRequest.list_peers) b lines rs g f h =
      rw (g, append-nil lines) refl
  decoded-goes_on turn text (ok (ClientRequest.get_messages _ _ _)) b lines rs g f h =
      rw (g, append-nil lines) refl
  decoded-goes_on turn text (ok (ClientRequest.send_message _ _)) b lines rs g f h =
      rw (g, append-nil lines) refl
  decoded-goes_on turn text (ok ClientRequest.get_config) b lines rs g f h =
      rw (g, append-nil lines) refl
  decoded-goes_on turn text (ok (ClientRequest.set_display_name _)) b lines rs g f h =
      rw (g, append-nil lines) refl

  -- One turn that goes on.
  handle_turn-goes_on :
      (ready : Ready) (fault : Option String) (gone b : Bool) (lines : List String)
      (rs : List ClientRequest)
      → goes_on (turn_of ready fault gone) ≡ true
      → all (is_encoded responses) (answers requests (turn_of ready fault gone) b) ≡ true
      → handle_turn requests responses (turn_of ready fault gone) (between b lines rs) ≡ (
        none,
        between
            (subscribes requests (turn_of ready fault gone) b)
            (lines ++ map (line_of responses) (answers requests (turn_of ready fault gone) b))
            (rs ++ asks requests (turn_of ready fault gone)),
      )
  unfolding handle_turn
  handle_turn-goes_on (read_line text) fault gone b lines rs g h =
      let (full, there, fine) = goes_on-read_line text fault gone g in
      rw full (
        ap
          (λ s.
            handle_line requests responses (turn_of (read_line text) fault gone)
              (record { line_buf = s; subscribed = b; written = lines; forwarded = rs }))
          (nil-append text)
        ∙ unfold handle_line in
          decoded-goes_on (turn_of (read_line text) fault gone) text (decode_request requests text)
            b lines rs there fine h)
  handle_turn-goes_on (read_failed e) fault gone b lines rs g h = cc
  handle_turn-goes_on (response msg) none gone b lines rs g h =
      rw (write_response-is_encoded none msg _ refl h, append-nil rs) refl
  handle_turn-goes_on (response msg) (some e) gone b lines rs g h = cc
  handle_turn-goes_on (event msg) none gone true lines rs g h =
      rw (write_response-is_encoded none msg _ refl h, append-nil rs) refl
  handle_turn-goes_on (event msg) none gone false lines rs g h =
      rw (append-nil lines, append-nil rs) refl
  handle_turn-goes_on (event msg) (some e) gone b lines rs g h = cc
  handle_turn-goes_on (lagged n) fault gone b lines rs g h =
      rw (append-nil lines, append-nil rs) refl
  handle_turn-goes_on closed fault gone b lines rs g h = cc

  -- As long as nothing ends the loop and every message can be encoded, the client is sent the answers
  -- to its lines, the responses, and the events that come after it subscribed, each on a line and in
  -- the order of the turns; the daemon is asked its other requests, in order.
  pub handle_ipc_client-told :
      (turns : List Turn) (b : Bool) (lines : List String) (rs : List ClientRequest)
      → all goes_on turns ≡ true
      → all (is_encoded responses) (told requests turns b) ≡ true
      → handle_ipc_client requests responses turns (between b lines rs) ≡ (
        none,
        between
            (subscribed_after requests turns b)
            (lines ++ map (line_of responses) (told requests turns b))
            (rs ++ asked requests turns),
      )
  unfolding handle_ipc_client
  handle_ipc_client-told [] b lines rs g h = rw (append-nil lines, append-nil rs) refl
  handle_ipc_client-told (turn ∷ turns) b lines rs g h =
      let (now, later) = all-append (is_encoded responses) (answers requests turn b) _ h in
      let (turn_goes, rest_goes) = all-append goes_on (turn ∷ []) turns g in
      let rest : Outcome → Outcome = λ o. elim o.0 [
        | some r ↦ (some r, o.1)
        | none ↦ handle_ipc_client requests responses turns o.1
      ] in
      ap rest
        (handle_turn-goes_on turn.ready turn.fault turn.daemon_gone b lines rs (ground arith) now)
      ∙ handle_ipc_client-told turns (subscribes requests turn b) _ _ rest_goes later
      ∙ rw
          (
            map-append (line_of responses) (answers requests turn b)
                (told requests turns (subscribes requests turn b)),
            append_assoc lines (map (line_of responses) (answers requests turn b))
                (map (line_of responses) (told requests turns (subscribes requests turn b))),
            append_assoc rs (asks requests turn) (asked requests turns),
          )
          refl
