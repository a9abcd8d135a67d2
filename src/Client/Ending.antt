-- ===== src/Client/Ending.antt =====
-- What SendMessages does when what is typed ends before "#exit".
use mathlib.Core.List.{append_assoc, append-nil}
use mathlib.Core.Bool.{false≢true}
use multi_threaded_tcp_chat.Base.{
  All, keep, ℕ, zero, suc, ◌+◌, ◌*◌, ◌≡◌, ◌≢◌, refl, ap, sym, ◌∙◌, Bool, true, false, some, List,
  [], ◌∷◌, ◌++◌, if◌then◌else◌, ◌==◌, nat_eq, text_eq, arith, Bool-cases, inl, inr,
}
use multi_threaded_tcp_chat.Base.Eq.{text_beq, text_beq_iff}
use multi_threaded_tcp_chat.Base.Text.{Text, text}
use multi_threaded_tcp_chat.Sockets.{ConnectAnswers}
use multi_threaded_tcp_chat.Client.{
  login, cut_line, getline, Client, Sender, send_tests, send_reads, send_checks, send_writes,
  send_returned, print_message, is_command, write, send_step,
}
use multi_threaded_tcp_chat.Client.Sending.{
  lines_then, is_full, lines_rounds, others-IsOther, IsLine, send_steps, same_steps, send_steps-add,
  cut_line-last, typing, login-line, name_for,
}

-- So many copies.
abbrev pub copies : ℕ → Text → List Text
copies zero w = []
copies (suc n) w = w ∷ copies n w

-- SendMessages before a round, once the end was met and with this line read last.
abbrev stuck : Text → Client → Client
stuck w c = record c {
  sender = send_tests;
  running = true;
  input = w;
  cin = record { rest = []; at_end = true };
}

abbrev again : Text → Client → Client
again w c = if is_command w then record c { sent = c.sent ++ w ∷ [] } else record c {
  sent = c.sent ++ w ∷ [];
  printed = c.printed ++ (text "You: " ++ w ++ text "\n", 15) ∷ [];
}

stuck_round :
    (w : Text) (c : Client)
    → (w == []) ≡ false
    → (w == text "#exit") ≡ false
    → send_steps 4 (stuck w c) ≡ stuck w (again w c)
unfolding send_steps send_step getline write print_message
stuck_round w c full other = elim (Bool-cases (is_command w)) [
  | inl command ↦ rw (full, other, command) refl
  | inr plain ↦ rw (full, other, plain) refl
]

last_round :
    (w : Text) (c : Client)
    → IsLine w
    → (w == []) ≡ false
    → (w == text "#exit") ≡ false
    → send_steps 4 (typing w c) ≡ stuck w (again w c)
unfolding send_steps send_step getline write print_message
last_round w c line full other = elim (Bool-cases (is_command w)) [
  | inl command ↦ rw (cut_line-last w line, full, other, command) refl
  | inr plain ↦ rw (cut_line-last w line, full, other, plain) refl
]

-- What is true after `k` rounds that all sent the same line.
record Repeats (w : Text) (k : ℕ) (c d : Client) : Type 0 where
  pub sent : d.sent ≡ c.sent ++ copies k w
  pub goes_on : d.sender ≡ send_tests
  pub running : d.running ≡ true

sent-again : (w : Text) (c : Client) → (again w c).sent ≡ c.sent ++ w ∷ []
sent-again w c = elim (Bool-cases (is_command w)) [
  | inl command ↦ rw command refl
  | inr plain ↦ rw plain refl
]

copies-sent :
    (w : Text) (k : ℕ) (c : Client) → (again w c).sent ++ copies k w ≡ c.sent ++ copies (suc k) w
copies-sent w k c =
    ap (λ (l : List Text). l ++ copies k w) (sent-again w c)
    ∙ append_assoc c.sent (w ∷ []) (copies k w)

first_of : (c : Client) (k : ℕ) → send_steps (suc k * 4) c ≡ send_steps (k * 4) (send_steps 4 c)
first_of c k =
    same_steps {m = suc k * 4} {n = 4 + k * 4} c (omega arith) ∙ send_steps-add 4 (k * 4) c

stuck_rounds :
    (w : Text) (k : ℕ) (c : Client)
    → (w == []) ≡ false
    → (w == text "#exit") ≡ false
    → Repeats w k c (send_steps (k * 4) (stuck w c))
unfolding send_steps
stuck_rounds w zero c full other = record {
  sent = sym (append-nil c.sent);
  goes_on = refl;
  running = refl;
}
stuck_rounds w (suc k) c full other =
    let rest = stuck_rounds w k (again w c) full other in
    rw (first_of (stuck w c) k ∙ ap (send_steps (k * 4)) (stuck_round w c full other)) (record {
      sent = rest.sent ∙ copies-sent w k c;
      goes_on = rest.goes_on;
      running = rest.running;
    })

last_rounds :
    (w : Text) (k : ℕ) (c : Client)
    → IsLine w
    → (w == []) ≡ false
    → (w == text "#exit") ≡ false
    → Repeats w (suc k) c (send_steps (suc k * 4) (typing w c))
last_rounds w k c line full other =
    let rest = stuck_rounds w k (again w c) full other in
    rw (first_of (typing w c) k ∙ ap (send_steps (k * 4)) (last_round w c line full other))
      (record {
        sent = rest.sent ∙ copies-sent w k c;
        goes_on = rest.goes_on;
        running = rest.running;
      })

-- SendMessages at this place where nothing is left to be read and `input` is empty.
abbrev idle : Sender → Bool → Client → Client
idle place at_end c = record c {
  sender = place;
  running = true;
  input = [];
  cin = record { rest = []; at_end = at_end };
}

abbrev is_in_loop : Sender → Bool
is_in_loop send_tests = true
is_in_loop send_reads = true
is_in_loop send_checks = true
is_in_loop send_writes = false
is_in_loop send_returned = false

idle_steps :
    (n : ℕ) (place : Sender) (at_end : Bool) (c : Client)
    → is_in_loop place ≡ true
    → (q : Sender) × (e : Bool) × (is_in_loop q ≡ true)
      × (send_steps n (idle place at_end c) ≡ idle q e c)
unfolding send_steps send_step getline cut_line text_beq
idle_steps zero place at_end c h = (place, at_end, h, refl)
idle_steps (suc n) send_tests at_end c h = idle_steps n send_reads at_end c refl
idle_steps (suc n) send_reads true c h = idle_steps n send_checks true c refl
idle_steps (suc n) send_reads false c h = idle_steps n send_checks true c refl
idle_steps (suc n) send_checks at_end c h = idle_steps n send_tests at_end c refl
idle_steps (suc n) send_writes at_end c h = absurd (cc)
idle_steps (suc n) send_returned at_end c h = absurd (cc)

-- SendMessages is in its loop and has sent what `c` had.
record IsWaiting (c d : Client) : Type 0 where
  pub sent : d.sent ≡ c.sent
  pub running : d.running ≡ true
  pub in_loop : d.sender ≢ send_returned

idle_steps-IsWaiting :
    (n : ℕ) (place : Sender) (at_end : Bool) (c : Client)
    → is_in_loop place ≡ true
    → IsWaiting c (send_steps n (idle place at_end c))
idle_steps-IsWaiting n place at_end c h =
    let (q, e, within, stays) = idle_steps n place at_end c h in
    rw stays (record {
      sent = refl;
      running = refl;
      in_loop = λ left. false≢true (sym (ap is_in_loop left) ∙ within);
    })

-- The same, with any line read last, where nothing more is typed.
empty_steps : (n : ℕ) (c : Client) → IsWaiting c (send_steps n (typing [] c))
unfolding send_steps send_step getline cut_line text_beq
empty_steps zero c = record { sent = refl; running = refl; in_loop = λ left. absurd (cc) }
empty_steps (suc zero) c = record { sent = refl; running = refl; in_loop = λ left. absurd (cc) }
empty_steps (suc (suc n)) c = idle_steps-IsWaiting n send_checks true c refl

-- A client whose input is a name, some lines, of which none is "#exit", and a last line that has no line
-- feed and is not "#exit" either, while the other threads make no step and `send` succeeds: after some
-- steps it has sent the name ("Anonymous" for an empty one) and the lines that are not empty, in
-- their order, and from then on: if the last line is not empty, SendMessages sends it again and
-- again, k + 1 times in k + 1 rounds for every k, since at the end std::getline leaves its text as it
-- is; and if it is empty, SendMessages sends nothing more and still never leaves its loop.
pub end_of_input :
    (answers : ConnectAnswers) (name w : Text) (ws : List Text) (c : Client)
    → IsLine name
    → All IsLine ws
    → All (λ (v : Text). v ≢ text "#exit") ws
    → IsLine w
    → w ≢ text "#exit"
    → login 0 answers (name ++ 10 ∷ lines_then ws w) ≡ some c
    → (m : ℕ) × ((send_steps m c).sent ≡ name_for name ∷ keep is_full ws)
      × (w ≢ []
          → (k : ℕ)
          → ((send_steps (m + suc k * 4) c).sent
              ≡ (name_for name ∷ keep is_full ws) ++ copies (suc k) w)
            × ((send_steps (m + suc k * 4) c).running ≡ true))
      × (w ≡ []
          → (n : ℕ)
          → ((send_steps (m + n) c).sent ≡ name_for name ∷ keep is_full ws)
            × ((send_steps (m + n) c).running ≡ true)
            × ((send_steps (m + n) c).sender ≢ send_returned))
end_of_input answers name w ws c named lines others line other h =
    let (ready, greeted, blank) = login-line answers name (lines_then ws w) c named h in
    let (m, d, there, all) = lines_rounds ws w c lines (others-IsOther ws others) in
    let reached : send_steps m c ≡ typing w d = ap (send_steps m) ready ∙ there in
    let so_far : d.sent ≡ name_for name ∷ keep is_full ws =
      all ∙ ap (λ (l : List Text). l ++ keep is_full ws) greeted in
    let on : (n : ℕ) → send_steps (m + n) c ≡ send_steps n (typing w d) =
      λ n. send_steps-add m n c ∙ ap (send_steps n) reached in
    (
      m,
      ap (λ (e : Client). e.sent) reached ∙ so_far,
      λ full k.
          let r =
            last_rounds w k d line (ground (arith, full, text_beq_iff w []))
              (ground (arith, other, text_beq_iff w (text "#exit"))) in
          (
            ap (λ (e : Client). e.sent) (on (suc k * 4))
                ∙ r.sent
                ∙ ap (λ (l : List Text). l ++ copies (suc k) w) so_far,
            ap (λ (e : Client). e.running) (on (suc k * 4)) ∙ r.running,
          ),
      λ empty n.
          let same = on n ∙ ap (λ (t : Text). send_steps n (typing t d)) empty in
          let r = empty_steps n d in
          (
            ap (λ (e : Client). e.sent) same ∙ r.sent ∙ so_far,
            ap (λ (e : Client). e.running) same ∙ r.running,
            λ left. r.in_loop (sym (ap (λ (e : Client). e.sender) same) ∙ left),
          ),
    )
