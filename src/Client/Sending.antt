-- ===== src/Client/Sending.antt =====
-- What SendMessages sends of what is typed.
use mathlib.Core.List.{append_assoc, append-nil}
use multi_threaded_tcp_chat.Base.{
  ℕ, zero, suc, ◌+◌, ◌≡◌, ◌≢◌, refl, ap, sym, ◌∙◌, Bool, true, false, not, Option, none, some,
  Option-cases, List, [], ◌∷◌, ◌++◌, if◌then◌else◌, All, keep, ◌==◌, nat_eq, text_eq, arith,
  Bool-cases, inl, inr,
}
use multi_threaded_tcp_chat.Base.Eq.{text_beq, text_beq_iff}
use multi_threaded_tcp_chat.Base.Text.{Text, text}
use multi_threaded_tcp_chat.Sockets.{ConnectAnswers, initialize_winsock, create_client_socket}
use multi_threaded_tcp_chat.Client.{
  login, cut_line, getline, Client, send_tests, send_returned, print_message, is_command, write,
  send_step,
}

-- A text without a line feed.
abbrev pub IsLine : Text → Type 0
IsLine = All (λ (c : ℕ). (c == 10) ≡ false)

-- Some lines, each with a line feed behind it, and more behind them.
abbrev pub lines_then : List Text → Text → Text
lines_then [] r = r
lines_then (w ∷ ws) r = w ++ 10 ∷ lines_then ws r

-- Some lines and then "#exit", each with a line feed behind it, and more behind them.
abbrev pub script : List Text → Text → Text
script [] r = text "#exit" ++ 10 ∷ r
script (w ∷ ws) r = w ++ 10 ∷ script ws r

-- SendMessages makes so many steps, its calls of `send` succeed, and the other threads make none.
unfoldable pub send_steps : ℕ → Client → Client
send_steps zero c = c
send_steps (suc n) c = send_steps n (send_step true c)

pub same_steps : {m n : ℕ} (c : Client) → m ≡ n → send_steps m c ≡ send_steps n c
same_steps c e = ap (λ (k : ℕ). send_steps k c) e

pub send_steps-add : (m n : ℕ) (c : Client) → send_steps (m + n) c ≡ send_steps n (send_steps m c)
unfolding send_steps
send_steps-add zero n c = same_steps {m = 0 + n} {n = n} c (omega arith)
send_steps-add (suc m) n c =
    same_steps {m = suc m + n} {n = suc (m + n)} c (omega arith)
    ∙ send_steps-add m n (send_step true c)

cut_line-line :
    (w r : Text) → IsLine w → cut_line (w ++ 10 ∷ r) ≡ record { line = w; left = r; ended = false }
unfolding cut_line
cut_line-line [] r h = refl
cut_line-line (x ∷ w) r (first, h) = rw (first, cut_line-line w r h) refl

pub cut_line-last :
    (w : Text) → IsLine w → cut_line w ≡ record { line = w; left = []; ended = true }
unfolding cut_line
cut_line-last [] h = refl
cut_line-last (x ∷ w) (first, h) = rw (first, cut_line-last w h) refl

-- SendMessages before a round, with so much still to be typed.
abbrev pub typing : Text → Client → Client
typing t c = record c {
  sender = send_tests;
  running = true;
  cin = record { rest = t; at_end = false };
}

-- What a round does with a line that does not end the loop.
abbrev told : Text → Client → Client
told w c =
    if w == []
    then record c { input = w }
    else if is_command w
    then record c { input = w; sent = c.sent ++ w ∷ [] }
    else record c {
      input = w;
      sent = c.sent ++ w ∷ [];
      printed = c.printed ++ (text "You: " ++ w ++ text "\n", 15) ∷ [];
    }

line_round :
    (w r : Text) (c : Client)
    → IsLine w
    → (w == text "#exit") ≡ false
    → (n : ℕ) × (send_steps n (typing (w ++ 10 ∷ r) c) ≡ typing r (told w c))
unfolding send_steps send_step getline write print_message
line_round w r c line other = elim (Bool-cases (w == [])) [
  | inl empty ↦ (3, rw (cut_line-line w r line, empty) refl)
  | inr full ↦ (
    4,
    elim (Bool-cases (is_command w)) [
      | inl command ↦ rw (cut_line-line w r line, full, other, command) refl
      | inr plain ↦ rw (cut_line-line w r line, full, other, plain) refl
    ],
  )
]

abbrev pub is_full : Text → Bool
is_full w = not (w == [])

sent-told :
    (w : Text) (ws : List Text) (c : Client)
    → (told w c).sent ++ keep is_full ws ≡ c.sent ++ keep is_full (w ∷ ws)
sent-told w ws c = elim (Bool-cases (w == [])) [
  | inl empty ↦ rw empty refl
  | inr full ↦ elim (Bool-cases (is_command w)) [
    | inl command ↦ rw (full, command) (append_assoc c.sent (w ∷ []) (keep is_full ws))
    | inr plain ↦ rw (full, plain) (append_assoc c.sent (w ∷ []) (keep is_full ws))
  ]
]

exit_round :
    (r : Text) (c : Client)
    → send_steps 4 (typing (text "#exit" ++ 10 ∷ r) c) ≡ record c {
      sender = send_returned;
      running = false;
      cin = record { rest = r; at_end = false };
      input = text "#exit";
      sent = c.sent ++ text "#exit" ∷ [];
    }
unfolding send_steps send_step getline write print_message text cut_line text_beq
exit_round r c = refl

abbrev IsOther : Text → Type 0
IsOther w = (w == text "#exit") ≡ false

pub others-IsOther : (vs : List Text) → All (λ (w : Text). w ≢ text "#exit") vs → All IsOther vs
others-IsOther [] h = tt
others-IsOther (v ∷ vs) (h, hs) =
    (ground (arith, h, text_beq_iff v (text "#exit")), others-IsOther vs hs)

-- After these lines the client has sent those that are not empty, and reads on.
pub lines_rounds :
    (ws : List Text) (r : Text) (c : Client)
    → All IsLine ws
    → All IsOther ws
    → (n : ℕ) × (d : Client) × (send_steps n (typing (lines_then ws r) c) ≡ typing r d)
      × (d.sent ≡ c.sent ++ keep is_full ws)
unfolding send_steps
lines_rounds [] r c lines others = (0, c, refl, sym (append-nil c.sent))
lines_rounds (w ∷ ws) r c (line, lines) (other, others) =
    let (m, first) = line_round w (lines_then ws r) c line other in
    let (n, d, rest, all) = lines_rounds ws r (told w c) lines others in
    (
      m + n,
      d,
      send_steps-add m n (typing (lines_then (w ∷ ws) r) c) ∙ ap (send_steps n) first ∙ rest,
      all ∙ sent-told w ws c,
    )

-- What is left once "#exit" has been sent.
record HasLeft (c : Client) (lines : List Text) (r : Text) (d : Client) : Type 0 where
  pub returned : d.sender ≡ send_returned
  pub stopped : d.running ≡ false
  pub sent : d.sent ≡ c.sent ++ keep is_full lines ++ text "#exit" ∷ []
  pub unread : d.cin.rest ≡ r

script_rounds :
    (ws : List Text) (r : Text) (c : Client)
    → All IsLine ws
    → All IsOther ws
    → (n : ℕ) × HasLeft c ws r (send_steps n (typing (script ws r) c))
script_rounds [] r c lines others = (
  4,
  rw (exit_round r c) (record {
    returned = refl;
    stopped = refl;
    sent = sym (append_assoc c.sent [] (text "#exit" ∷ []));
    unread = refl;
  }),
)
script_rounds (w ∷ ws) r c (line, lines) (other, others) =
    let (m, first) = line_round w (script ws r) c line other in
    let (n, rest) = script_rounds ws r (told w c) lines others in
    (
      m + n,
      rw (send_steps-add m n (typing (script (w ∷ ws) r) c), first)
          (record {
            returned = rest.returned;
            stopped = rest.stopped;
            sent = rest.sent ∙ ap (λ (l : List Text). l ++ text "#exit" ∷ []) (sent-told w ws c);
            unread = rest.unread;
          }),
    )

-- The name under which a client logs in that types this one.
abbrev pub name_for : Text → Text
name_for name = if name == [] then text "Anonymous" else name

pub login-line :
    (answers : ConnectAnswers) (name t : Text) (c : Client)
    → IsLine name
    → login 0 answers (name ++ 10 ∷ t) ≡ some c
    → (c ≡ typing t c) × (c.sent ≡ name_for name ∷ []) × (c.input ≡ [])
unfolding login getline initialize_winsock
login-line answers name t c line h = elim (Option-cases (create_client_socket answers).result) [
  | inl e ↦ absurd (cc (rw e at h))
  | inr (s, e) ↦
      let made =
        ap (λ (o : Option Client). elim o [ none ↦ c | some d ↦ d ])
          (rw (e, cut_line-line name t line) at h) in
      rw (sym made) (refl, refl, refl)
]

-- A client that gets its connection, types a name, some lines, of which none is "#exit", and then
-- "#exit", while the other threads make no step and `send` succeeds: SendMessages comes to its end, the
-- client has sent the name ("Anonymous" for an empty one), then exactly the lines that are not empty,
-- in their order, and last "#exit", and nothing behind "#exit" has been read.
pub session_sends :
    (answers : ConnectAnswers) (name : Text) (ws : List Text) (r : Text) (c : Client)
    → IsLine name
    → All IsLine ws
    → All (λ (w : Text). w ≢ text "#exit") ws
    → login 0 answers (name ++ 10 ∷ script ws r) ≡ some c
    → (n : ℕ) × ((send_steps n c).sender ≡ send_returned)
      × ((send_steps n c).running ≡ false)
      × ((send_steps n c).sent ≡ name_for name ∷ keep is_full ws ++ text "#exit" ∷ [])
      × ((send_steps n c).cin.rest ≡ r)
session_sends answers name ws r c line lines others h =
    let (ready, greeted, _) = login-line answers name (script ws r) c line h in
    let (n, left) = script_rounds ws r c lines (others-IsOther ws others) in
    let same = ap (send_steps n) ready in
    (
      n,
      ap (λ (d : Client). d.sender) same ∙ left.returned,
      ap (λ (d : Client). d.running) same ∙ left.stopped,
      ap (λ (d : Client). d.sent) same
          ∙ left.sent
          ∙ ap (λ (l : List Text). l ++ keep is_full ws ++ text "#exit" ∷ []) greeted,
      ap (λ (d : Client). d.cin.rest) same ∙ left.unread,
    )
