-- ===== src/Daemon/Tray/Terminals.antt =====
-- Which terminal is opened.
use family_com.Prelude.{
  ℕ, ◌≡◌, refl, ap, ◌∙◌, inl, inr, String, Bool, false, List, [], ◌∷◌, ◌++◌, Option, none, some,
  Result, ok, err, arith, map, any, is_ok, Result-cases, Bool-cases, if◌then◌else◌, ◌==◌,
}
use family_com.Daemon.Tray.{
  no_terminal, Spawn, terminals, try_terminals, try_fallbacks, try_linux_terminals,
}

-- The programs with their arguments in the order of preference: that of the variable, if it is set and
-- not empty, and then those of the list.
abbrev pub attempts : Option String → String → List (String × List String)
attempts term command = preferred term ++ fallbacks
  where
    fallbacks : List (String × List String)
    fallbacks = map (λ (t : String × List String). (t.0, t.1 ++ command ∷ [])) terminals

    preferred : Option String → List (String × List String)
    preferred none = []
    preferred (some name) = if name == "" then [] else (name, "-e" ∷ command ∷ []) ∷ []

abbrev pub starts : Spawn → String × List String → Bool
starts spawn attempt = is_ok (spawn attempt.0 attempt.1)

-- The first attempt that starts a process, or the last error.
unfoldable pub first_started : Spawn → String → List (String × List String) → Result ℕ String
first_started spawn last_error [] = err last_error
first_started spawn last_error (attempt ∷ rest) = elim (spawn attempt.0 attempt.1) [
  | ok child ↦ ok child
  | err e ↦ first_started spawn e rest
]

try_terminals-first_started :
    (spawn : Spawn) (command e : String) (ts : List (String × List String))
    → try_terminals spawn command e ts
      ≡ first_started spawn e (map (λ (t : String × List String). (t.0, t.1 ++ command ∷ [])) ts)
unfolding try_terminals first_started
try_terminals-first_started spawn command e [] = refl
try_terminals-first_started spawn command e ((t, args) ∷ rest) =
    elim (Result-cases (spawn t (args ++ command ∷ []))) [
      | inl (_, q) ↦ rw (q, try_terminals, first_started) refl
      | inr (e', q) ↦
          rw (q, try_terminals, first_started) (try_terminals-first_started spawn command e' rest)
    ]

-- Where the variable is not set, or empty, or its program does not start, it is the list that decides.
try_linux_terminals-first_started :
    (spawn : Spawn) (term : Option String) (command : String)
    → try_linux_terminals spawn term command
      ≡ first_started spawn no_terminal (attempts term command)
unfolding try_linux_terminals try_fallbacks
try_linux_terminals-first_started spawn none command =
    try_terminals-first_started spawn command no_terminal terminals
try_linux_terminals-first_started spawn (some name) command = elim (Bool-cases (name == "")) [
  | inl e ↦
      rw (e, try_linux_terminals) (try_terminals-first_started spawn command no_terminal terminals)
  | inr e ↦ elim (Result-cases (spawn name ("-e" ∷ command ∷ []))) [
    | inl (child, q) ↦ unfold first_started in rw (e, q) refl
    | inr (e', q) ↦
        let fallbacks = attempts none command in
        let same : first_started spawn no_terminal fallbacks ≡ first_started spawn e' fallbacks =
          unfold first_started in refl in
        unfold first_started in
        rw (e, q) (try_terminals-first_started spawn command no_terminal terminals ∙ same)
  ]
]

first_started-append :
    (spawn : Spawn) (e : String) (before after : List (String × List String))
    (a : String × List String) (child : ℕ)
    → any (starts spawn) before ≡ false
    → spawn a.0 a.1 ≡ ok child
    → first_started spawn e (before ++ a ∷ after) ≡ ok child
unfolding first_started any
first_started-append spawn e [] after a child h q = rw (q, first_started) refl
first_started-append spawn e (b ∷ before) after a child h q = elim (Result-cases (spawn b.0 b.1)) [
  | inl (_, s) ↦ ground (arith, s)
  | inr (e', s) ↦
      rw (s, first_started)
        (first_started-append spawn e' before after a child (ground (arith, s)) q)
]

is_ok-first_started :
    (spawn : Spawn) (e : String) (l : List (String × List String))
    → is_ok (first_started spawn e l) ≡ any (starts spawn) l
unfolding first_started any
is_ok-first_started spawn e [] = refl
is_ok-first_started spawn e (b ∷ l) = elim (Result-cases (spawn b.0 b.1)) [
  | inl (_, s) ↦ rw (s, first_started) refl
  | inr (e', s) ↦ rw (s, first_started) (is_ok-first_started spawn e' l)
]

-- If none before the last starts a process, the outcome is that of the last.
first_started-last :
    (spawn : Spawn) (e : String) (before : List (String × List String)) (a : String × List String)
    → any (starts spawn) before ≡ false
    → first_started spawn e (before ++ a ∷ []) ≡ spawn a.0 a.1
unfolding first_started any
first_started-last spawn e [] a h = ground arith
first_started-last spawn e (b ∷ before) a h = elim (Result-cases (spawn b.0 b.1)) [
  | inl (_, s) ↦ ground (arith, s)
  | inr (e', s) ↦ rw (s, first_started) (first_started-last spawn e' before a (ground (arith, s)))
]

-- A process is started exactly if one of the attempts starts one; it is that of the first attempt that
-- does; and where none before the last does, the outcome is that of the last, its error included.
pub try_linux_terminals_lem :
    (spawn : Spawn) (term : Option String) (command : String)
    → (is_ok (try_linux_terminals spawn term command) ≡ any (starts spawn) (attempts term command))
      × ((before after : List (String × List String)) (a : String × List String) (child : ℕ)
          → attempts term command ≡ before ++ a ∷ after
          → any (starts spawn) before ≡ false
          → spawn a.0 a.1 ≡ ok child
          → try_linux_terminals spawn term command ≡ ok child)
      × ((before : List (String × List String)) (a : String × List String)
          → attempts term command ≡ before ++ a ∷ []
          → any (starts spawn) before ≡ false
          → try_linux_terminals spawn term command ≡ spawn a.0 a.1)
try_linux_terminals_lem spawn term command =
    let decided = try_linux_terminals-first_started spawn term command in
    (
      ap is_ok decided ∙ is_ok-first_started spawn no_terminal (attempts term command),
      (λ before after a child order h q.
          decided
          ∙ ap (first_started spawn no_terminal) order
          ∙ first_started-append spawn no_terminal before after a child h q),
      λ before a order h.
          decided
          ∙ ap (first_started spawn no_terminal) order
          ∙ first_started-last spawn no_terminal before a h,
    )
