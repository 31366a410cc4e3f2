-- ===== src/Tests/Lines.antt =====
-- Codecs for a few requests and responses.
use Prim.Native.String.{◌++◌ as ◌<>◌}
use family_com.Core.Types.{Timestamp}
use family_com.Tests.Engines.{trim-write_texts, write_texts, read_texts, read_texts-write_texts}
use family_com.Tests.Samples.{alice}
use family_com.Tests.Codecs.{unary, char_count-unary}
use family_com.Prelude.{
  pos, negsuc, List, Option, none, some, char_count, ◌≡◌, refl, String, [], ◌∷◌, Result, ok, err,
  if◌then◌else◌, ◌==◌, trim, trim_start, trim_end, cons_trimmed, is_whitespace, ok_inj,
}
use family_com.Core.Ipc.{ClientRequest, ServerMessage, IpcJson, encode_request}

-- A request as a list of texts, in the marked form of `write_texts`.
before_texts : Option Timestamp → List String
before_texts none = []
before_texts (some (pos n)) = unary n ∷ []
before_texts (some (negsuc n)) = "-" ∷ unary n ∷ []

unfoldable pub request_texts : ClientRequest → List String
unfolding before_texts unary
request_texts ClientRequest.list_peers = "list_peers" ∷ []
request_texts (ClientRequest.get_messages k n before) =
    "get_messages" ∷ k ∷ unary n ∷ before_texts before
request_texts (ClientRequest.send_message k content) = "send_message" ∷ k ∷ content ∷ []
request_texts ClientRequest.get_config = "get_config" ∷ []
request_texts (ClientRequest.set_display_name name) = "set_display_name" ∷ name ∷ []
request_texts ClientRequest.subscribe = "subscribe" ∷ []

unfoldable pub texts_request : List String → Result ClientRequest String
texts_request (tag ∷ []) =
    if tag == "list_peers"
    then ok ClientRequest.list_peers
    else if tag == "get_config"
    then ok ClientRequest.get_config
    else if tag == "subscribe"
    then ok ClientRequest.subscribe
    else err "unknown request"
texts_request (tag ∷ name ∷ []) = ok (ClientRequest.set_display_name name)
texts_request (tag ∷ k ∷ a ∷ []) =
    if tag == "send_message"
    then ok (ClientRequest.send_message k a)
    else ok (ClientRequest.get_messages k (char_count a) none)
texts_request (tag ∷ k ∷ a ∷ b ∷ []) =
    ok (ClientRequest.get_messages k (char_count a) (some (pos (char_count b))))
texts_request (tag ∷ k ∷ a ∷ sign ∷ b ∷ []) =
    ok (ClientRequest.get_messages k (char_count a) (some (negsuc (char_count b))))
texts_request _ = err "unknown request"

texts_request-request_texts : (r : ClientRequest) → texts_request (request_texts r) ≡ ok r
unfolding texts_request request_texts
texts_request-request_texts (ClientRequest.get_messages k n none) = rw (char_count-unary n) refl
texts_request-request_texts (ClientRequest.get_messages k n (some (pos t))) =
    rw (char_count-unary n, char_count-unary t) refl
texts_request-request_texts (ClientRequest.get_messages k n (some (negsuc t))) =
    rw (char_count-unary n, char_count-unary t) refl
texts_request-request_texts ClientRequest.list_peers = refl
texts_request-request_texts ClientRequest.get_config = refl
texts_request-request_texts ClientRequest.subscribe = refl
texts_request-request_texts (ClientRequest.send_message k content) = refl
texts_request-request_texts (ClientRequest.set_display_name name) = refl

pub request_trimmed :
    (r : ClientRequest) (s : String)
    → Path (Result String String) (ok (write_texts (request_texts r))) (ok s)
    → trim s ≡ s
request_trimmed r s h = rw (← ok_inj _ s h) (trim-write_texts (request_texts r))

pub request_read_back :
    (r : ClientRequest) (s : String)
    → Path (Result String String) (ok (write_texts (request_texts r))) (ok s)
    → texts_request (read_texts s) ≡ ok r
request_read_back r s h =
    rw (← ok_inj _ s h)
      (rw (read_texts-write_texts (request_texts r)) (texts_request-request_texts r))

abbrev pub requests : IpcJson ClientRequest
requests = record {
  to_string = λ r. ok (write_texts (request_texts r));
  from_str = λ s. texts_request (read_texts s);
  trimmed = request_trimmed;
  read_back = request_read_back;
}

-- The line of a request.
abbrev pub request_line : ClientRequest → String
request_line r = write_texts (request_texts r) <> "\n"

pub request_line-encodes : (r : ClientRequest) → encode_request requests r ≡ ok (request_line r)
unfolding encode_request
request_line-encodes r = refl

unfoldable pub write_response : ServerMessage → Result String String
write_response ServerMessage.done = ok "ok"
write_response (ServerMessage.peer_list []) = ok "no_peers"
write_response _ = err "unsupported"

unfoldable pub read_response : String → Result ServerMessage String
read_response s =
    if s == "ok"
    then ok ServerMessage.done
    else if s == "no_peers"
    then ok (ServerMessage.peer_list [])
    else if s == "config"
    then ok (ServerMessage.config "Bob" "bob")
    else if s == "peers"
    then ok (ServerMessage.peer_list (alice ∷ []))
    else err "unsupported"

pub write_response-trimmed : (r : ServerMessage) (s : String) → write_response r ≡ ok s → trim s ≡ s
unfolding write_response trim trim_start trim_end cons_trimmed is_whitespace
write_response-trimmed ServerMessage.done s h = rw (← ok_inj _ s h) refl
write_response-trimmed (ServerMessage.peer_list []) s h = rw (← ok_inj _ s h) refl
write_response-trimmed (ServerMessage.peer_list (_ ∷ _)) s h = cc
write_response-trimmed (ServerMessage.messages _) s h = cc
write_response-trimmed (ServerMessage.message_sent _) s h = cc
write_response-trimmed (ServerMessage.new_message _) s h = cc
write_response-trimmed (ServerMessage.peer_online _) s h = cc
write_response-trimmed (ServerMessage.peer_offline _) s h = cc
write_response-trimmed (ServerMessage.message_delivered _) s h = cc
write_response-trimmed (ServerMessage.config _ _) s h = cc
write_response-trimmed (ServerMessage.error _ _) s h = cc

pub read_response-write_response :
    (r : ServerMessage) (s : String) → write_response r ≡ ok s → read_response s ≡ ok r
unfolding write_response read_response
read_response-write_response ServerMessage.done s h = rw (← ok_inj _ s h) refl
read_response-write_response (ServerMessage.peer_list []) s h = rw (← ok_inj _ s h) refl
read_response-write_response (ServerMessage.peer_list (_ ∷ _)) s h = cc
read_response-write_response (ServerMessage.messages _) s h = cc
read_response-write_response (ServerMessage.message_sent _) s h = cc
read_response-write_response (ServerMessage.new_message _) s h = cc
read_response-write_response (ServerMessage.peer_online _) s h = cc
read_response-write_response (ServerMessage.peer_offline _) s h = cc
read_response-write_response (ServerMessage.message_delivered _) s h = cc
read_response-write_response (ServerMessage.config _ _) s h = cc
read_response-write_response (ServerMessage.error _ _) s h = cc

abbrev pub responses : IpcJson ServerMessage
responses = record {
  to_string = write_response;
  from_str = read_response;
  trimmed = write_response-trimmed;
  read_back = read_response-write_response;
}
