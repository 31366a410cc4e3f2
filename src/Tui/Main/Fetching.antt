-- ===== src/Tui/Main/Fetching.antt =====
-- What it is that the history of the selected peer has been asked for, and that sending keeps it.
use family_com.Prelude.{
  ◌≡◌, refl, ap, ◌∙◌, String, Bool, true, ◌||◌, List, [], ◌∷◌, ◌++◌, Option, none, some, Result, ok,
  arith, any, ◌==◌, eq_refl, eq_iff, Bool-cases, Option-cases, inl, inr, is_blank, trim,
}
use family_com.Core.Types.{PeerId}
use family_com.Core.Ipc.{ClientRequest, ServerMessage, IpcJson, encode_request}
use family_com.Tui.App.{TuiApp, selected_peer, selected_peer_id, take_input}
use family_com.Tui.IpcClient.{IpcClientError, send}
use family_com.Tui.Main.{
  Session, Turn, show_sent, after_send, send_to_peer, handle_send_message,
  fetch_selected_peer_messages, same_peer,
}

any-append : (p : String → Bool) (xs ys : List String) → any p (xs ++ ys) ≡ any p xs || any p ys
unfolding any
any-append p [] ys = refl
any-append p (x ∷ xs) ys = ground (arith, any-append p xs ys)

status-selected :
    (app : TuiApp) (text : String)
    → selected_peer_id (record app { status = text }) ≡ selected_peer_id app
unfolding selected_peer_id selected_peer
status-selected app text = refl

any-last : (l : String) (lines : List String) → any (λ x. x == l) (lines ++ l ∷ []) ≡ true
unfolding any
any-last l [] = rw (eq_refl l) refl
any-last l (x ∷ xs) = ground (arith, any-last l xs)

pub same_peer-eq : (a b : Option PeerId) → same_peer a b ≡ true → a ≡ b
unfolding same_peer
same_peer-eq none none h = refl
same_peer-eq (some a) (some b) h = ap some ((eq_iff a b).0 h)
same_peer-eq none (some b) h = cc
same_peer-eq (some a) none h = cc

-- Every request can be written as a line: what serde_json does for texts and numbers.
module _ (requests : IpcJson ClientRequest) (responses : IpcJson ServerMessage)
    (line : ClientRequest → String)
    (encodes : (r : ClientRequest) → encode_request requests r ≡ ok (line r)) where
  -- The request for the history of the selected peer, if there is one, is among the lines.
  abbrev pub Asked : Option PeerId → List String → Type 0
  Asked none lines = Unit
  Asked (some k) lines = any (λ l. l == line (ClientRequest.get_messages k 100 none)) lines ≡ true

  abbrev pub IsFetched : Session → Type 0
  IsFetched s = Asked (selected_peer_id s.app) s.written

  Asked-more :
      (k : Option PeerId) (lines more : List String) → Asked k lines → Asked k (lines ++ more)
  Asked-more none lines more h = tt
  Asked-more (some k) lines more h =
      rw (any-append (λ l. l == line (ClientRequest.get_messages k 100 none)) lines more, h) refl

  pub send_lem :
      (lines : List String) (r : ClientRequest)
      → send requests none lines r ≡ (ok tt, lines ++ line r ∷ [])
  unfolding send
  send_lem lines r = rw (encodes r, send) refl

  pub Asked-last :
      (k : PeerId) (lines : List String)
      → any
          (λ l. l == line (ClientRequest.get_messages k 100 none))
          (lines ++ line (ClientRequest.get_messages k 100 none) ∷ [])
        ≡ true
  Asked-last k lines = any-last (line (ClientRequest.get_messages k 100 none)) lines

  status-IsFetched :
      (s : Session) (text : String)
      → IsFetched s
      → IsFetched (record s { app = record s.app { status = text } })
  status-IsFetched s text h = rw (status-selected s.app text) h

  pub shown-IsFetched :
      (text : String) (s s' : Session)
      → IsFetched s
      → ◌≡◌ {A = Option Session}
          (some (record s { app = record s.app { status = text } }))
          (some s')
      → IsFetched s'
  shown-IsFetched text s s' h e =
      let same : record s { app = record s.app { status = text } } ≡ s' = ground arith in
      rw (← same) (status-IsFetched s text h)

  pub fetch-IsFetched :
      (s : Session) → IsFetched (fetch_selected_peer_messages requests responses none s)
  unfolding fetch_selected_peer_messages
  fetch-IsFetched s = elim (Option-cases (selected_peer_id s.app)) [
    | inl e ↦
        let same : fetch_selected_peer_messages requests responses none s ≡ s =
          rw (e, fetch_selected_peer_messages) refl in
        rw same (rw e tt)
    | inr (k, e) ↦
        let asked : fetch_selected_peer_messages requests responses none s ≡ record s {
          written = s.written ++ line (ClientRequest.get_messages k 100 none) ∷ [];
        } =
          rw (e, fetch_selected_peer_messages)
            (ap (λ (o : Result (Unit {0}) IpcClientError × List String). record s { written = o.1 })
              (send_lem s.written (ClientRequest.get_messages k 100 none))) in
        rw asked (rw e (Asked-last k s.written))
  ]

  pub send_to_peer_lem :
      (turn : Turn) (k : PeerId) (content : String) (s : Session)
      → turn.fault ≡ none
      → send_to_peer requests responses turn k content s ≡ record {
        app = show_sent turn k content s.app;
        written = s.written ++ line (ClientRequest.send_message k content) ∷ [];
      }
  unfolding send_to_peer after_send
  send_to_peer_lem turn k content s f = ap (after_send (show_sent turn k content s.app)) (
      ap (λ fault. send requests fault s.written (ClientRequest.send_message k content)) f
      ∙ send_lem s.written (ClientRequest.send_message k content))

  show_sent-selected :
      (turn : Turn) (k : PeerId) (content : String) (app : TuiApp)
      → selected_peer_id (show_sent turn k content app) ≡ selected_peer_id app
  unfolding show_sent take_input selected_peer_id selected_peer
  show_sent-selected turn k content app = refl

  pub handle_send_message-IsFetched :
      (turn : Turn) (s : Session)
      → turn.fault ≡ none
      → IsFetched s
      → IsFetched (handle_send_message requests responses turn s)
  unfolding handle_send_message
  handle_send_message-IsFetched turn s f h = elim (Bool-cases (is_blank (trim s.app.input))) [
    | inl blank ↦ rw blank h
    | inr full ↦ elim (Option-cases (selected_peer_id s.app)) [
      | inl e ↦ rw (full, e, handle_send_message) (status-IsFetched s _ h)
      | inr (k, e) ↦
          rw (full, e, handle_send_message)
            (rw (send_to_peer_lem turn k (trim s.app.input) s f) (
              rw (show_sent-selected turn k (trim s.app.input) s.app)
                (Asked-more (selected_peer_id s.app) s.written _ h)))
    ]
  ]
