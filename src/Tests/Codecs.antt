-- ===== src/Tests/Codecs.antt =====
-- Codecs for configurations and for the messages of a few texts.
use Prim.Native.Char.{char}
use family_com.Prelude.{
  ℕ, pos, negsuc, suc, zero, ◌≡◌, refl, ap, ◌∙◌, String, List, [], ◌∷◌, Option, none, some, Result,
  ok, err, ◌>>=◌, eqb, if◌then◌else◌, ◌==◌, eq_iff, arith, char_count, bind-eq-ok, ok_inj, sym,
}
use family_com.Core.Config.{AppConfig, Toml}
use family_com.Core.Protocol.{PeerMessage, chat, ack, ping, pong, MsgPack}
use family_com.Tests.Engines.{write_texts, read_texts, read_texts-write_texts}

unfoldable pub unary : ℕ → String
unary zero = String.[]
unary (suc n) = String.◌∷◌ (char 49 tt) (unary n)

pub char_count-unary : (n : ℕ) → char_count (unary n) ≡ n
unfolding unary char_count
char_count-unary zero = refl
char_count-unary (suc n) = ap suc (char_count-unary n)

text_of_option : Option String → String
text_of_option none = String.[]
text_of_option (some s) = String.◌∷◌ (char 43 tt) s

option_of_text : String → Option String
option_of_text String.[] = none
option_of_text (String.◌∷◌ _ s) = some s

option_of_text-text_of_option : (o : Option String) → option_of_text (text_of_option o) ≡ o
unfolding option_of_text text_of_option
option_of_text-text_of_option none = refl
option_of_text-text_of_option (some s) = refl

unfoldable pub texts_of_config : AppConfig → List String
unfolding unary text_of_option
texts_of_config c =
    c.peer_id
    ∷ c.display_name
    ∷ unary c.tcp_port
    ∷ text_of_option c.terminal_command
    ∷ text_of_option c.network_interface
    ∷ []

unfoldable pub config_of_texts : List String → Result AppConfig String
unfolding option_of_text
config_of_texts (a ∷ b ∷ c ∷ d ∷ e ∷ []) = ok (record {
  peer_id = a;
  display_name = b;
  tcp_port = char_count c;
  terminal_command = option_of_text d;
  network_interface = option_of_text e;
})
config_of_texts _ = err "missing field"

pub config_of_texts-texts_of_config :
    (c : AppConfig) → config_of_texts (read_texts (write_texts (texts_of_config c))) ≡ ok c
config_of_texts-texts_of_config c = rw (read_texts-write_texts (texts_of_config c)) (
    unfold config_of_texts texts_of_config in
    rw
      (
        char_count-unary c.tcp_port,
        option_of_text-text_of_option c.terminal_command,
        option_of_text-text_of_option c.network_interface,
      )
      refl)

abbrev pub toml : Toml
toml = record {
  to_string = λ c. ok (write_texts (texts_of_config c));
  from_str = λ s. config_of_texts (read_texts s);
  read_back = λ c s h.
      ap (λ t. config_of_texts (read_texts t)) (sym (ok_inj (write_texts (texts_of_config c)) s h))
      ∙ config_of_texts-texts_of_config c;
}

-- The numbers of a few texts.
number_of : String → Result ℕ String
number_of s =
    if s == "m1"
    then ok 1
    else if s == "alice"
    then ok 2
    else if s == "Alice"
    then ok 3
    else if s == "hello"
    then ok 4
    else err "unknown text"

text_of : ℕ → Result String String
text_of n =
    if eqb n 1
    then ok "m1"
    else if eqb n 2
    then ok "alice"
    else if eqb n 3
    then ok "Alice"
    else if eqb n 4
    then ok "hello"
    else err "unknown number"

text_of-number_of : (s : String) (n : ℕ) → number_of s ≡ ok n → text_of n ≡ ok s
unfolding number_of text_of
text_of-number_of s n h =
    ground (arith, eq_iff s "m1", eq_iff s "alice", eq_iff s "Alice", eq_iff s "hello")

unfoldable pub pack : PeerMessage → Result (List ℕ) String
unfolding number_of
pack (chat id k n t (pos ts)) = do
  a ← number_of id
  b ← number_of k
  c ← number_of n
  d ← number_of t
  ok (129 ∷ a ∷ b ∷ c ∷ d ∷ ts ∷ [])
pack (chat id k n t (negsuc ts)) = err "before the epoch"
pack (ack k) = do a ← number_of k; ok (130 ∷ a ∷ [])
pack ping = ok (131 ∷ [])
pack pong = ok (132 ∷ [])

unfoldable pub unpack : List ℕ → Result PeerMessage String
unfolding text_of
unpack (tag ∷ a ∷ b ∷ c ∷ d ∷ ts ∷ []) = do
  id ← text_of a
  k ← text_of b
  n ← text_of c
  t ← text_of d
  ok (chat id k n t (pos ts))
unpack (tag ∷ a ∷ []) = do k ← text_of a; ok (ack k)
unpack (tag ∷ []) = if eqb tag 131 then ok ping else ok pong
unpack _ = err "unknown message"

pub unpack-pack : (m : PeerMessage) (bytes : List ℕ) → pack m ≡ ok bytes → unpack bytes ≡ ok m
unfolding pack
unpack-pack (chat id k n t (pos ts)) bytes h =
    let (a, ea, ha) = bind-eq-ok (number_of id) _ bytes h in
    let (b, eb, hb) = bind-eq-ok (number_of k) _ bytes ha in
    let (c, ec, hc) = bind-eq-ok (number_of n) _ bytes hb in
    let (d, ed, hd) = bind-eq-ok (number_of t) _ bytes hc in
    rw (← ok_inj _ bytes hd) (
      unpack-chat id k n t ts a b c d (text_of-number_of id a ea) (text_of-number_of k b eb)
        (text_of-number_of n c ec) (text_of-number_of t d ed))
  where
    unpack-chat :
        (id k n t : String) (ts a b c d : ℕ)
        → text_of a ≡ ok id
        → text_of b ≡ ok k
        → text_of c ≡ ok n
        → text_of d ≡ ok t
        → unpack (129 ∷ a ∷ b ∷ c ∷ d ∷ ts ∷ []) ≡ ok (chat id k n t (pos ts))
    unpack-chat id k n t ts a b c d ea eb ec ed = unfold unpack in rw (ea, eb, ec, ed) refl
unpack-pack (chat id k n t (negsuc ts)) bytes h = cc
unpack-pack (ack k) bytes h =
    let (a, e, h') = bind-eq-ok (number_of k) _ bytes h in
    rw (← ok_inj _ bytes h') (unfold unpack in rw (text_of-number_of k a e) refl)
unpack-pack ping bytes h = rw (← ok_inj _ bytes h) (unfold unpack in refl)
unpack-pack pong bytes h = rw (← ok_inj _ bytes h) (unfold unpack in refl)

abbrev pub msg_pack : MsgPack
msg_pack = record { to_vec_named = pack; from_slice = unpack; read_back = unpack-pack }
