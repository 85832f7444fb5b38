-- ===== src/Client/Delivery.antt =====
-- A command on its way from `netevent command` to the daemon, and the answer on its way back.
use netevent.Prelude.{
  ℕ, suc, ◌≡◌, ◌≢◌, refl, sym, ap, subst, ◌∙◌, Bool, true, false, List, [], ◌∷◌, ◌++◌, Option, none,
  some, Bytes, ◌==◌, if◌then◌else◌, arith,
}
use netevent.Io.{Chunk, got, error, delivered}
use netevent.Text.Number.{join, join_onto}
use netevent.Text.Lexer.{c_string, parse_client_command}
use netevent.Text.Lexer.Words.{
  ArePlain, spaced, join_onto_more, join_onto-spaced, parse_client_command-join,
}
use netevent.Device.Transfer.Spec.{concat}
use netevent.Socket.{State, fine, closed_socket, connect_unix, shutdown}
use netevent.Create.Start.{is_abstract, address_name}
use netevent.Daemon.State.{Env}
use netevent.Daemon.Commands.Dispatch.{client_commands, run_text}
use netevent.Client.{
  at_end, copy, status, System, Request, answered, answer_end, send_command, cmd_command,
  after_connect, after_shutdown,
}

-- The reads up to the end of the file, without an error.
abbrev pub Whole : List Chunk → Type 0
Whole [] = ⊥
Whole (error e ∷ cs) = ⊥
Whole (got [] ∷ cs) = Unit {0}
Whole (got (c ∷ b) ∷ cs) = Whole cs

copy-Whole :
    (takes : ℕ → Bool) (n : ℕ) (cs : List Chunk)
    → ((i : ℕ) → takes i ≡ true)
    → Whole cs
    → (concat (copy takes n cs).written ≡ delivered cs) × ((copy takes n cs).ended ≡ at_end)
unfolding copy delivered
copy-Whole takes n [] t w = absurd w
copy-Whole takes n (error e ∷ cs) t w = absurd w
copy-Whole takes n (got [] ∷ cs) t w = (refl, refl)
copy-Whole takes n (got (c ∷ b) ∷ cs) t w =
    let (p, q) = copy-Whole takes (suc n) cs t w in rw (t n) (ap (λ (l : Bytes). c ∷ (b ++ l)) p, q)

-- Arguments of a process hold no NUL.
abbrev pub NoNul : Bytes → Type 0
NoNul [] = Unit {0}
NoNul (c ∷ s) = (c ≢ 0) × NoNul s

abbrev pub NoNuls : List Bytes → Type 0
NoNuls [] = Unit {0}
NoNuls (a ∷ args) = NoNul a × NoNuls args

c_string-NoNul : (s : Bytes) → NoNul s → c_string s ≡ s
unfolding c_string
c_string-NoNul [] h = refl
c_string-NoNul (c ∷ s) h =
    let other : c == 0 ≡ false = ground (arith, h.0) in rw other (ap (◌∷◌ c) (c_string-NoNul s h.1))

append-NoNul : (a b : Bytes) → NoNul a → NoNul b → NoNul (a ++ b)
append-NoNul [] b ha hb = hb
append-NoNul (c ∷ a) b ha hb = (ha.0, append-NoNul a b ha.1 hb)

join_onto-NoNul :
    (s : Bytes) (args : List Bytes) → NoNul s → NoNuls args → NoNul (join_onto b' ' s args)
unfolding join_onto
join_onto-NoNul s [] h hs = h
join_onto-NoNul [] (a ∷ args) h hs = join_onto-NoNul a args hs.0 hs.1
join_onto-NoNul (c ∷ s) (a ∷ args) h hs = subst NoNul (sym (join_onto_more c s a args)) (
    join_onto-NoNul ((c ∷ s) ++ (b' ' ∷ a)) args
      (append-NoNul (c ∷ s) (b' ' ∷ a) h (omega arith, hs.0)) hs.1)

join-NoNul : (args : List Bytes) → NoNuls args → NoNul (join b' ' args)
unfolding join
join-NoNul args h = join_onto-NoNul [] args tt h

-- A text that is not empty is sent.
send_command-answered :
    (y : System) (name line rest : Bytes) (x : ℕ) (s : State)
    → line ≡ x ∷ rest
    → connect_unix
        (is_abstract name)
        (address_name name)
        y.buffer
        y.socket_fd
        y.connects
        (record { socket = closed_socket; calls = [] })
      ≡ fine s
    → y.sends ≡ true
    → y.shuts_down ≡ true
    → send_command y name line ≡ answered y (some line)
unfolding send_command shutdown
send_command-answered y name line rest x s e c sends shuts =
    ap (send_command y name) e
    ∙ ap (after_connect y (x ∷ rest)) c
    ∙ ap
        (λ (b : Bool).
          after_shutdown y (if b then some (x ∷ rest) else none) (shutdown y.shuts_down s))
        sends
    ∙ ap (λ (b : Bool). after_shutdown y (some (x ∷ rest)) (shutdown b s)) shuts
    ∙ ap (λ (l : Bytes). answered y (some l)) (sym e)

answered-Whole :
    (y : System) (sent : Option Bytes)
    → ((i : ℕ) → y.takes i ≡ true)
    → Whole y.reads
    → (concat (answered y sent).answer ≡ delivered y.reads) × ((answered y sent).ended ≡ status 0)
unfolding answered answer_end
answered-Whole y sent t w = let (p, q) = copy-Whole y.takes 0 y.reads t w in (p, ap answer_end q)

line_starts :
    (x : ℕ) (a : Bytes) (args : List Bytes)
    → ArePlain args
    → join b' ' ((x ∷ a) ∷ args) ≡ x ∷ (a ++ spaced args)
unfolding join join_onto
line_starts x a args p = join_onto-spaced (x ∷ a) args (λ e. cc) p

-- A command with plain arguments, given to `netevent command`, is written as one line; the daemon
-- that reads it runs exactly the command of these arguments; and what it answers up to the end of
-- its answer is written out unchanged, with the status 0. The socket connects, takes the command
-- and is shut down, and the output takes what is written. The name of the socket is not empty.
pub cmd_command-run_text :
    (y : System) (env : Env) (n fd : ℕ) (c : ℕ) (name a : Bytes) (args : List Bytes) (s : State)
    → ArePlain (a ∷ args)
    → NoNuls (a ∷ args)
    → connect_unix
        (is_abstract (c ∷ name))
        (address_name (c ∷ name))
        y.buffer
        y.socket_fd
        y.connects
        (record { socket = closed_socket; calls = [] })
      ≡ fine s
    → y.sends ≡ true
    → y.shuts_down ≡ true
    → ((i : ℕ) → y.takes i ≡ true)
    → Whole y.reads
    → let r = cmd_command y ((c ∷ name) ∷ a ∷ args) in
      (line : Bytes) × (r.sent ≡ some line)
      × (run_text env (suc n) (some fd) line
          ≡ client_commands env (run_text env n) (some fd) ((a ∷ args) ∷ []))
      × (concat r.answer ≡ delivered y.reads)
      × (r.ended ≡ status 0)
unfolding cmd_command answered run_text
cmd_command-run_text y env n fd c name [] args s plain nuls connects sends shuts takes whole =
    absurd (plain.0.0 refl)
cmd_command-run_text y env n fd c name (x ∷ a) args s plain nuls connects sends shuts takes whole =
    let line : Bytes = join b' ' ((x ∷ a) ∷ args) in
    let sent : cmd_command y ((c ∷ name) ∷ (x ∷ a) ∷ args) ≡ answered y (some line) =
      send_command-answered y (c ∷ name) line (a ++ spaced args) x s (line_starts x a args plain.1)
        connects sends shuts in
    let (p, q) = answered-Whole y (some line) takes whole in
    (
      line,
      ap (λ (r : Request). r.sent) sent,
      ap (λ (l : Bytes). client_commands env (run_text env n) (some fd) (parse_client_command l))
            (c_string-NoNul line (join-NoNul ((x ∷ a) ∷ args) nuls))
          ∙ ap (client_commands env (run_text env n) (some fd))
              (parse_client_command-join (x ∷ a) args plain),
      ap (λ (r : Request). concat r.answer) sent ∙ p,
      ap (λ (r : Request). r.ended) sent ∙ q,
    )
