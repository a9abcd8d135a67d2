-- ===== src/Client/Threads.antt =====
-- The threads of client.cpp together: main, which sends, the thread that receives, and Ctrl+C.
use multi_threaded_tcp_chat.Base.{
  ℕ, ◌+◌, ◌-◌, ◌≤◌, ◌≡◌, refl, Bool, true, false, List, [], ◌∷◌, length, length-append, nat_eq,
  text_eq, arith,
}
use multi_threaded_tcp_chat.Base.Text.{Text, text}
use multi_threaded_tcp_chat.Client.{
  Client, Sender, Receiver, recv_tests, recv_waits, recv_returned, send_tests, send_reads,
  send_checks, send_writes, send_returned, print_message, write, send_step, receive, receive_step,
  console_handler,
}

-- One step of SendMessages, with the answer of `send`, or of ReceiveMessages, with what recv gives, or a
-- signal of the console.
pub data Event : Type 0 where
  sends : Bool → Event
  receives : Text → Event
  signals : Bool → Event

unfoldable pub apply : Event → Client → Client
apply (sends succeeded) c = send_step succeeded c
apply (receives message) c = receive_step message c
apply (signals interrupt) c = (console_handler interrupt c).1

unfoldable pub apply_all : List Event → Client → Client
apply_all [] c = c
apply_all (e ∷ es) c = apply_all es (apply e c)

-- Whether an event is a step of SendMessages, a step of ReceiveMessages, or an interrupt, as 0 or 1.
abbrev pub is_send : Event → ℕ
is_send (sends _) = 1
is_send _ = 0

abbrev pub is_receive : Event → ℕ
is_receive (receives _) = 1
is_receive _ = 0

abbrev pub is_interrupt : Event → ℕ
is_interrupt (signals true) = 1
is_interrupt _ = 0

abbrev pub number : (Event → ℕ) → List Event → ℕ
number which [] = 0
number which (e ∷ es) = which e + number which es

-- The line that SendMessages is still about to send.
abbrev pub pending : Sender → ℕ
pending send_writes = 1
pending _ = 0

-- How many of its own steps keep a thread from the end of its loop, when it is to stop.
abbrev sender_rank : Sender → ℕ
sender_rank send_tests = 1
sender_rank send_reads = 2
sender_rank send_checks = 1
sender_rank send_writes = 2
sender_rank send_returned = 0

abbrev receiver_rank : Receiver → ℕ
receiver_rank recv_tests = 1
receiver_rank recv_waits = 2
receiver_rank recv_returned = 0

-- What steps do to a client that is to stop, with so many steps of each thread and interrupts.
record Stops (own theirs extra : ℕ) (c d : Client) : Type 0 where
  pub stopped : d.running ≡ false
  pub few : length d.sent + pending d.sender ≤ length c.sent + pending c.sender + extra
  pub nearer : sender_rank d.sender ≤ sender_rank c.sender - own
  pub closer : receiver_rank d.receiver ≤ receiver_rank c.receiver - theirs

send_step-Stops : (ok : Bool) (c : Client) → c.running ≡ false → Stops 1 0 0 c (send_step ok c)
unfolding send_step write print_message
send_step-Stops ok c h = record {
  stopped = ground (arith, h);
  few = ground (arith, h, length-append c.sent (c.input ∷ []));
  nearer = ground (arith, h);
  closer = ground (arith, h);
}

receive_step-Stops : (m : Text) (c : Client) → c.running ≡ false → Stops 0 1 0 c (receive_step m c)
unfolding receive_step receive print_message
receive_step-Stops m c h = record {
  stopped = ground (arith, h);
  few = ground (arith, h);
  nearer = ground (arith, h);
  closer = ground (arith, h);
}

apply-Stops :
    (e : Event) (c : Client)
    → c.running ≡ false
    → Stops (is_send e) (is_receive e) (is_interrupt e) c (apply e c)
unfolding apply console_handler
apply-Stops (sends ok) c h = send_step-Stops ok c h
apply-Stops (receives m) c h = receive_step-Stops m c h
apply-Stops (signals true) c h = record {
  stopped = refl;
  few = ground (arith, length-append c.sent (text "#exit" ∷ []));
  nearer = omega arith;
  closer = omega arith;
}
apply-Stops (signals false) c h = record {
  stopped = h;
  few = omega arith;
  nearer = omega arith;
  closer = omega arith;
}

Stops-then :
    {a b i a' b' i' : ℕ} {c d e : Client}
    → Stops a b i c d
    → Stops a' b' i' d e
    → Stops (a + a') (b + b') (i + i') c e
Stops-then v w = record {
  stopped = w.stopped;
  few = omega (arith, v.few, w.few);
  nearer = omega (arith, v.nearer, w.nearer);
  closer = omega (arith, v.closer, w.closer);
}

apply_all-Stops :
    (es : List Event) (c : Client)
    → c.running ≡ false
    → Stops (number is_send es) (number is_receive es) (number is_interrupt es) c (apply_all es c)
unfolding apply_all
apply_all-Stops [] c h = record {
  stopped = h;
  few = omega arith;
  nearer = omega arith;
  closer = omega arith;
}
apply_all-Stops (e ∷ es) c h =
    let v = apply-Stops e c h in Stops-then v (apply_all-Stops es (apply e c) v.stopped)

-- Once `g_running` is false, and whatever the threads then do in whatever order, with whatever answers:
-- it stays false, SendMessages sends at most one more line (the one it had already read and checked),
-- beside one "#exit" for each interrupt, SendMessages has returned after two of its own steps, and
-- ReceiveMessages after two of its own.
pub stops_soon :
    (es : List Event) (c : Client)
    → c.running ≡ false
    → ((apply_all es c).running ≡ false)
      × (length (apply_all es c).sent ≤ length c.sent + pending c.sender + number is_interrupt es)
      × (pending c.sender ≤ 1)
      × (2 ≤ number is_send es → (apply_all es c).sender ≡ send_returned)
      × (2 ≤ number is_receive es → (apply_all es c).receiver ≡ recv_returned)
stops_soon es c h =
    let v = apply_all-Stops es c h in
    (
      v.stopped,
      omega (arith, v.few),
      at_most_one c.sender,
      λ two. left c.sender (apply_all es c).sender v.nearer two,
      λ two. gone c.receiver (apply_all es c).receiver v.closer two,
    )
  where
    at_most_one : (p : Sender) → pending p ≤ 1
    at_most_one p = ground arith

    left :
        (p q : Sender)
        → sender_rank q ≤ sender_rank p - number is_send es
        → 2 ≤ number is_send es
        → q ≡ send_returned
    left p q near two = ground (arith, near, two)

    gone :
        (p q : Receiver)
        → receiver_rank q ≤ receiver_rank p - number is_receive es
        → 2 ≤ number is_receive es
        → q ≡ recv_returned
    gone p q near two = ground (arith, near, two)
