-- ===== src/Threading/Joining.antt =====
-- Which operations of the class Thread wait for the thread.
use mathlib.Core.List.{append-nil}
use multi_threaded_tcp_chat.Base.{
  ℕ, ◌≡◌, refl, ap, sym, ◌∙◌, Option, none, some, [], ◌∷◌, ◌++◌, nat_eq, to_list, arith,
  Option-cases, inl, inr,
}
use multi_threaded_tcp_chat.Base.Map.{lookup, insert, lookup-insert_self}
use multi_threaded_tcp_chat.Threading.{Thread, Threads, detach, join, destroy}
use multi_threaded_tcp_chat.Threading.Owners.{handle_of}

join_idle :
    (this : ℕ) (t : Thread) (s : Threads)
    → lookup this s.objects ≡ some t
    → t.handle ≡ none
    → join this s ≡ s
unfolding join
join_idle this t s here idle = rw (here, idle, join) refl

join_busy :
    (this handle : ℕ) (t : Thread) (s : Threads)
    → lookup this s.objects ≡ some t
    → t.handle ≡ some handle
    → join this s ≡ record s {
      objects = insert this (record t { handle = none }) s.objects;
      waited = s.waited ++ handle ∷ [];
      closed = s.closed ++ handle ∷ [];
    }
unfolding join
join_busy this handle t s here busy = rw (here, busy, join) refl

-- The destructor and `detach` wait for no thread, and `join` waits for the thread of an object that has
-- a handle; all of them close that handle, and so a second call of `join` changes nothing.
pub join_waits :
    (this : ℕ) (s : Threads)
    → ((destroy this s).waited ≡ s.waited)
      × ((detach this s).waited ≡ s.waited)
      × ((t : Thread)
          → lookup this s.objects ≡ some t
          → ((join this s).waited ≡ s.waited ++ handle_of t)
            × ((join this s).closed ≡ s.closed ++ handle_of t)
            × ((destroy this s).closed ≡ s.closed ++ handle_of t)
            × (join this (join this s) ≡ join this s))
unfolding detach destroy
join_waits this s = (
  ground arith,
  ground arith,
  λ t here. elim (Option-cases t.handle) [
    | inl idle ↦
        let same = join_idle this t s here idle in
        (
          ap (λ (d : Threads). d.waited) same
              ∙ sym (append-nil s.waited)
              ∙ ap (λ (h : Option ℕ). s.waited ++ to_list h) (sym idle),
          ap (λ (d : Threads). d.closed) same
              ∙ sym (append-nil s.closed)
              ∙ ap (λ (h : Option ℕ). s.closed ++ to_list h) (sym idle),
          rw (here, destroy) refl,
          ap (join this) same,
        )
    | inr (handle, busy) ↦
        let done = join_busy this handle t s here busy in
        (
          ap (λ (d : Threads). d.waited) done
              ∙ ap (λ (h : Option ℕ). s.waited ++ to_list h) (sym busy),
          ap (λ (d : Threads). d.closed) done
              ∙ ap (λ (h : Option ℕ). s.closed ++ to_list h) (sym busy),
          rw (here, destroy) refl,
          join_idle this (record t { handle = none }) (join this s)
              (ap (λ (d : Threads). lookup this d.objects) done
                ∙ lookup-insert_self this (record t { handle = none }) s.objects)
              refl,
        )
  ],
)
