-- ===== src/System/Terminal.antt =====
-- A terminal client and the handler of its connection in the daemon: the lines that ipc_client.rs
-- writes are read by ipc_server.rs, and the other way round.
use mathlib.Core.Path.{ap₂}
use text.Mathlib.Text.{◌==◌}
use family_com.Prelude.{
  ℕ, ◌≡◌, refl, ap, ◌∙◌, String, Bool, true, false, ◌||◌, List, [], ◌∷◌, ◌++◌, map, none, ok, arith,
  if◌then◌else◌, Result-cases, inl, inr,
}
use family_com.Core.Ipc.{
  ClientRequest, ServerMessage, IpcJson, encode_request, decode_request, encode_response,
  decode_response,
}
use family_com.Core.Ipc.Lines.{decode_line-encode_line}
use family_com.Daemon.IpcServer.{
  read_line, response, event, lagged, Ready, Turn, handle_ipc_client, connected_client,
}
use family_com.Daemon.IpcServer.Expected
use family_com.Daemon.IpcServer.Expected.{
  line_answer, line_request, goes_on, told, asked, subscribed_after, is_encoded, line_of, all,
  between,
}
use family_com.Daemon.IpcServer.Answers.{handle_ipc_client-told}
use family_com.Tui.IpcClient.{recv}

-- What happens on the connection: the client sends a request, the daemon answers one or has an event
-- for its subscribers, or some events were missed.
pub data Step : Type 0 where
  sends : ClientRequest → Step
  answers : ServerMessage → Step
  tells : ServerMessage → Step
  misses : ℕ → Step

-- The turns of the handler, the client writing `line r` for a request `r`.
abbrev pub ready_of : (ClientRequest → String) → Step → Ready
ready_of line (sends r) = read_line (line r)
ready_of line (answers m) = response m
ready_of line (tells m) = event m
ready_of line (misses n) = lagged n

abbrev pub turns_of : (ClientRequest → String) → List Step → List Turn
turns_of line = map (λ s. record { ready = ready_of line s; fault = none; daemon_gone = false })

abbrev pub is_subscribe : ClientRequest → Bool
is_subscribe ClientRequest.subscribe = true
is_subscribe _ = false

-- What the client is to hear, being subscribed or not.
abbrev pub heard : List Step → Bool → List ServerMessage
heard [] b = []
heard (sends r ∷ steps) b =
    if is_subscribe r then ServerMessage.done ∷ heard steps true else heard steps b
heard (answers m ∷ steps) b = m ∷ heard steps b
heard (tells m ∷ steps) b = if b then m ∷ heard steps b else heard steps b
heard (misses n ∷ steps) b = heard steps b

-- The requests that are for the main loop.
abbrev pub wanted : List Step → List ClientRequest
wanted [] = []
wanted (sends r ∷ steps) = if is_subscribe r then wanted steps else r ∷ wanted steps
wanted (_ ∷ steps) = wanted steps

module _ (requests : IpcJson ClientRequest) (responses : IpcJson ServerMessage)
    (line : ClientRequest → String)
    (encodes : (r : ClientRequest) → encode_request requests r ≡ ok (line r)) where
  decodes : (r : ClientRequest) → decode_request requests (line r) ≡ ok r
  decodes r =
      unfold decode_request in
      (decode_line-encode_line requests r (line r) (unfold encode_request in encodes r)).0

  full : (r : ClientRequest) → (line r == "") ≡ false
  full r = (decode_line-encode_line requests r (line r) (unfold encode_request in encodes r)).1

  turns_of-goes_on : (steps : List Step) → all goes_on (turns_of line steps) ≡ true
  turns_of-goes_on [] = refl
  turns_of-goes_on (sends r ∷ steps) = rw (full r, turns_of-goes_on steps) refl
  turns_of-goes_on (answers m ∷ steps) = turns_of-goes_on steps
  turns_of-goes_on (tells m ∷ steps) = turns_of-goes_on steps
  turns_of-goes_on (misses n ∷ steps) = turns_of-goes_on steps

  request_heard :
      (r : ClientRequest) (steps : List Step) (b : Bool)
      → ((c : Bool) → told requests (turns_of line steps) c ≡ heard steps c)
      → line_answer (ok r)
          ++ told requests (turns_of line steps) (Expected.is_subscribe (ok r) || b)
        ≡ heard (sends r ∷ steps) b
  request_heard ClientRequest.subscribe steps b ih = ap (λ ms. ServerMessage.done ∷ ms) (ih true)
  request_heard ClientRequest.list_peers steps b ih = ih b
  request_heard (ClientRequest.get_messages _ _ _) steps b ih = ih b
  request_heard (ClientRequest.send_message _ _) steps b ih = ih b
  request_heard ClientRequest.get_config steps b ih = ih b
  request_heard (ClientRequest.set_display_name _) steps b ih = ih b

  told-heard :
      (steps : List Step) (b : Bool) → told requests (turns_of line steps) b ≡ heard steps b
  told-heard [] b = refl
  told-heard (sends r ∷ steps) b = rw (decodes r) (request_heard r steps b (told-heard steps))
  told-heard (answers m ∷ steps) b = ap (λ ms. m ∷ ms) (told-heard steps b)
  told-heard (tells m ∷ steps) true = ap (λ ms. m ∷ ms) (told-heard steps true)
  told-heard (tells m ∷ steps) false = told-heard steps false
  told-heard (misses n ∷ steps) b = told-heard steps b

  request_wanted :
      (r : ClientRequest) (steps : List Step)
      → asked requests (turns_of line steps) ≡ wanted steps
      → line_request (ok r) ++ asked requests (turns_of line steps) ≡ wanted (sends r ∷ steps)
  request_wanted ClientRequest.subscribe steps ih = ih
  request_wanted ClientRequest.list_peers steps ih = rw ih refl
  request_wanted (ClientRequest.get_messages _ _ _) steps ih = rw ih refl
  request_wanted (ClientRequest.send_message _ _) steps ih = rw ih refl
  request_wanted ClientRequest.get_config steps ih = rw ih refl
  request_wanted (ClientRequest.set_display_name _) steps ih = rw ih refl

  asked-wanted : (steps : List Step) → asked requests (turns_of line steps) ≡ wanted steps
  asked-wanted [] = refl
  asked-wanted (sends r ∷ steps) = rw (decodes r) (request_wanted r steps (asked-wanted steps))
  asked-wanted (answers m ∷ steps) = asked-wanted steps
  asked-wanted (tells m ∷ steps) = asked-wanted steps
  asked-wanted (misses n ∷ steps) = asked-wanted steps

  -- What the client reads of a line that the daemon wrote.
  recv-line_of :
      (m : ServerMessage)
      → is_encoded responses m ≡ true
      → recv responses (ok (line_of responses m)) ≡ ok m
  recv-line_of m h = elim (Result-cases (encode_response responses m)) [
    | inl (l, e) ↦
        let (back, filled) = decode_line-encode_line responses m l (unfold encode_response in e) in
        let same : line_of responses m ≡ l = rw (e, line_of) refl in
        rw same (unfold recv decode_response in rw (filled, back) refl)
    | inr (c, e) ↦ ground arith
  ]

  recv_lines :
      (ms : List ServerMessage)
      → all (is_encoded responses) ms ≡ true
      → map (λ l. recv responses (ok l)) (map (line_of responses) ms) ≡ map (λ m. ok m) ms
  recv_lines [] h = refl
  recv_lines (m ∷ ms) h =
      ap₂ (λ x xs. x ∷ xs) (recv-line_of m (ground arith)) (recv_lines ms (ground arith))

  -- A client that writes requests and a handler that reads them, on a connection where nothing fails
  -- and every message can be written. Whatever is sent, answered, told and missed, in whatever order:
  -- the client reads back from the lines of the handler an acknowledgement of each subscription, each
  -- answer, and each event since it subscribed, in order and nothing else; and the main loop is asked
  -- the other requests, in order.
  pub recv-handle_ipc_client :
      (steps : List Step)
      → all (is_encoded responses) (heard steps false) ≡ true
      → (b : Bool) × (lines : List String) × (handle_ipc_client requests responses
            (turns_of line steps)
            connected_client
          ≡ (none, between b lines (wanted steps)))
        × (map (λ l. recv responses (ok l)) lines ≡ map (λ m. ok m) (heard steps false))
  recv-handle_ipc_client steps h =
      let same = told-heard steps false in
      (
        subscribed_after requests (turns_of line steps) false,
        map (line_of responses) (heard steps false),
        handle_ipc_client-told requests responses (turns_of line steps) false [] []
              (turns_of-goes_on steps) (rw same h)
            ∙ ap₂
                (λ ms rs. (
                  none,
                  between (subscribed_after requests (turns_of line steps) false)
                      (map (line_of responses) ms) rs,
                ))
                same (asked-wanted steps),
        recv_lines (heard steps false) h,
      )
