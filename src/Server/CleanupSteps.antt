-- ===== src/Server/CleanupSteps.antt =====
-- What each step at the end of main of server.cpp keeps, once the server is destroyed.
use multi_threaded_tcp_chat.Base.{
  ◌-◌, ◌≡◌, ◌≢◌, refl, ap, sym, ◌∙◌, Bool, true, false, not, List, [], ◌∷◌, ◌++◌, arith, inl, inr,
  ◌⊎◌, Bool-cases, nat_eq,
}
use multi_threaded_tcp_chat.IocpServer.{Task}
use multi_threaded_tcp_chat.Server.Teardown.{
  Part, iocp_server, Stage, looping, closing_server, no_server, no_message_store, no_chat_rooms,
  no_connection_manager, no_thread_pool, is_alive, Work, taken, handling, Ending, use_part, is_idle,
  main_step, test_running, Step, main_goes_on, main_enqueues, takes_task, calls_handler,
  handler_uses, handler_returns, interrupts, tests_server, calls_stop, stop_goes_on, stop_returns,
  accept_goes_on, io_worker_goes_on, io_worker_returns,
}

pub not_empty {ℓ} : {A : Type ℓ} (xs : List A) (y : A) (ys : List A) → xs ++ y ∷ ys ≢ []
not_empty [] y ys = cc
not_empty (x ∷ xs) y ys = cc

-- Some task has not yet been run as far as its lambda.
abbrev pub any_taken : List Work → Bool
any_taken [] = false
any_taken (taken t ∷ ws) = true
any_taken (handling t ∷ ws) = any_taken ws

abbrev pub owes : List Task → List Work → Bool
owes [] works = any_taken works
owes (t ∷ ts) works = true

any_taken_without :
    (xs ys : List Work) (t : Task) → any_taken (xs ++ handling t ∷ ys) ≡ any_taken (xs ++ ys)
any_taken_without [] ys t = refl
any_taken_without (taken u ∷ xs) ys t = refl
any_taken_without (handling u ∷ xs) ys t = any_taken_without xs ys t

owes_without :
    (tasks : List Task) (xs ys : List Work) (t : Task)
    → owes tasks (xs ++ handling t ∷ ys) ≡ owes tasks (xs ++ ys)
owes_without [] xs ys t = any_taken_without xs ys t
owes_without (u ∷ us) xs ys t = refl

owes_more :
    (tasks more : List Task) (works : List Work)
    → owes tasks works ≡ true
    → owes (tasks ++ more) works ≡ true
owes_more [] [] works h = h
owes_more [] (t ∷ ts) works h = refl
owes_more (t ∷ ts) more works h = refl

-- The server is gone, and a task has still to run its lambda or something that was gone has been used.
pub record IsLate (e : Ending) : Type 0 where
  pub past : is_alive iocp_server e.stage ≡ false
  pub late : (owes e.tasks e.works ≡ true) ⊎ (e.faults ≢ [])
  pub unjoined : e.stage ≡ no_thread_pool → e.faults ≢ []

fault-is_idle :
    (tasks : List Task) (works : List Work) (faults : List Part)
    → is_idle tasks works ≡ true
    → (owes tasks works ≡ true) ⊎ (faults ≢ [])
    → faults ≢ []
unfolding is_idle
fault-is_idle [] [] faults idle (inl h) = absurd (cc)
fault-is_idle [] (w ∷ ws) faults idle (inl h) = absurd (cc)
fault-is_idle (t ∷ ts) works faults idle (inl h) = absurd (cc)
fault-is_idle tasks works faults idle (inr f) = f

main_step-IsLate : (s : Stage) (e : Ending) → e.stage ≡ s → IsLate e → IsLate (main_step s e)
unfolding main_step is_alive
main_step-IsLate looping e h v = absurd (ground (arith, v.past, h))
main_step-IsLate closing_server e h v = absurd (ground (arith, v.past, h))
main_step-IsLate no_server e h v = record {
  past = refl;
  late = v.late;
  unjoined = λ k. absurd (cc);
}
main_step-IsLate no_message_store e h v = record {
  past = refl;
  late = v.late;
  unjoined = λ k. absurd (cc);
}
main_step-IsLate no_chat_rooms e h v = record {
  past = refl;
  late = v.late;
  unjoined = λ k. absurd (cc);
}
main_step-IsLate no_connection_manager e h v = elim (Bool-cases (is_idle e.tasks e.works)) [
  | inr busy ↦ rw busy v
  | inl idle ↦ rw idle (
      let used = fault-is_idle e.tasks e.works e.faults idle v.late in
      record { past = refl; late = inr used; unjoined = λ k. used })
]
main_step-IsLate no_thread_pool e h v = v

-- Whoever uses the server now uses what is gone.
pub faults-use_part :
    (e : Ending) (p : Part) → is_alive p e.stage ≡ false → (use_part p e).faults ≢ []
unfolding use_part
faults-use_part e p gone = rw (use_part, gone) (not_empty e.faults p [])

stage-use_part : (e : Ending) (p : Part) → (use_part p e).stage ≡ e.stage
unfolding use_part
stage-use_part e p = ground arith

faulty : (e : Ending) → is_alive iocp_server e.stage ≡ false → IsLate (use_part iocp_server e)
faulty e gone =
    let used = faults-use_part e iocp_server gone in
    record {
      past = ap (is_alive iocp_server) (stage-use_part e iocp_server) ∙ gone;
      late = inr used;
      unjoined = λ h. used;
    }

use_part-IsLate : (p : Part) (e : Ending) → IsLate e → IsLate (use_part p e)
unfolding use_part
use_part-IsLate p e v = elim (Bool-cases (is_alive p e.stage)) [
  | inl alive ↦ rw (alive, use_part) v
  | inr gone ↦
      let used = not_empty e.faults p [] in
      rw (gone, use_part) (record { past = v.past; late = inr used; unjoined = λ h. used })
]

-- What is done to the tasks keeps it if it takes no lambda away that is still to run.
with_tasks-IsLate :
    (tasks : List Task) (works : List Work) (e : Ending)
    → (owes e.tasks e.works ≡ true → owes tasks works ≡ true)
    → IsLate e
    → IsLate (record e { tasks = tasks; works = works })
with_tasks-IsLate tasks works e keeps v = record {
  past = v.past;
  late = by_cases v.late;
  unjoined = v.unjoined;
}
  where
    by_cases :
        (owes e.tasks e.works ≡ true) ⊎ (e.faults ≢ [])
        → (owes tasks works ≡ true) ⊎ (e.faults ≢ [])
    by_cases (inl h) = inl (keeps h)
    by_cases (inr f) = inr f

owes_taken :
    (tasks : List Task) (t : Task) (works : List Work) → owes tasks (taken t ∷ works) ≡ true
owes_taken [] t works = refl
owes_taken (u ∷ us) t works = refl

pub Step-IsLate : {d e : Ending} → Step d e → IsLate d → IsLate e
unfolding is_alive
Step-IsLate (main_goes_on d) v = main_step-IsLate d.stage d refl v
Step-IsLate (main_enqueues d more h) v = absurd (ground (arith, v.past, h))
Step-IsLate (takes_task d t rest h) v =
    with_tasks-IsLate rest (taken t ∷ d.works) d (λ k. owes_taken rest t d.works) v
Step-IsLate (calls_handler d xs ys t h) v =
    faulty (record d { works = xs ++ handling t ∷ ys }) v.past
Step-IsLate (handler_uses d xs ys t ps qs p more h k) v =
    use_part-IsLate p _
      (with_tasks-IsLate (d.tasks ++ more) d.works d (owes_more d.tasks more d.works) v)
Step-IsLate (handler_returns d xs ys t h) v =
    with_tasks-IsLate d.tasks (xs ++ ys) d
      (λ k. sym (owes_without d.tasks xs ys t) ∙ ap (owes d.tasks) (sym h) ∙ k) v
Step-IsLate (interrupts d) v = record { past = v.past; late = v.late; unjoined = v.unjoined }
Step-IsLate (tests_server d xs ys h) v = record {
  past = v.past;
  late = v.late;
  unjoined = v.unjoined;
}
Step-IsLate (calls_stop d xs ys h) v =
    faulty (record d { running = false; handlers = xs ++ (test_running d ++ ys) }) v.past
Step-IsLate (stop_goes_on d xs ys h) v = faulty d v.past
Step-IsLate (stop_returns d xs ys h k) v = faulty (record d { handlers = xs ++ ys }) v.past
Step-IsLate (accept_goes_on d more returns h) v =
    faulty (record d { tasks = d.tasks ++ more; accepting = not returns }) v.past
Step-IsLate (io_worker_goes_on d more h) v = faulty (record d { tasks = d.tasks ++ more }) v.past
Step-IsLate (io_worker_returns d h) v = faulty (record d { io_workers = d.io_workers - 1 }) v.past
