-- ===== src/Threading/Owners.antt =====
-- What each operation of the class Thread does to the account of the handles.
use multi_threaded_tcp_chat.Base.{
  ℕ, ◌+◌, ◌≡◌, ap, ◌∙◌, false, Option, none, some, List, ◌++◌, ◌==◌, nat_eq, to_list, arith,
  Option-cases, Bool-cases, inl, inr,
}
use multi_threaded_tcp_chat.Base.Map.{
  lookup, insert, lookup-insert, Distinct, insert-Distinct, erase-Distinct,
}
use multi_threaded_tcp_chat.Base.Counting.{
  count, count-append, gather, count-erase, count-insert_new, count-insert_old,
}
use multi_threaded_tcp_chat.Threading.{
  Thread, Threads, empty_thread, joinable, detach, join, destroy, make_from, assign,
}

abbrev pub handle_of : Thread → List ℕ
handle_of t = to_list t.handle

pub record IsOwned (s : Threads) : Type 0 where
  pub balance : (k : ℕ) → count k s.begun ≡ count k s.closed + count k (gather handle_of s.objects)
  pub distinct : Distinct s.objects

pub put_new-IsOwned :
    (this : ℕ) (t : Thread) (s : Threads)
    → lookup this s.objects ≡ none
    → IsOwned s
    → IsOwned (record s { objects = insert this t s.objects; begun = s.begun ++ handle_of t })
put_new-IsOwned this t s fresh v = record {
  balance = λ k. omega (
    arith,
    v.balance k,
    count-insert_new handle_of k this t s.objects fresh,
    count-append k s.begun (handle_of t),
  );
  distinct = insert-Distinct this t s.objects v.distinct;
}

-- The object gives up its handle, which is closed.
let_go-IsOwned :
    (this : ℕ) (t : Thread) (s : Threads)
    → lookup this s.objects ≡ some t
    → IsOwned s
    → IsOwned (record s {
      objects = insert this (record t { handle = none }) s.objects;
      closed = s.closed ++ handle_of t;
    })
let_go-IsOwned this t s here v = record {
  balance = λ k. omega (
    arith,
    v.balance k,
    count-insert_old handle_of k this t (record t { handle = none }) s.objects here,
    count-append k s.closed (handle_of t),
  );
  distinct = insert-Distinct this (record t { handle = none }) s.objects v.distinct;
}

pub destroy-IsOwned : (this : ℕ) (s : Threads) → IsOwned s → IsOwned (destroy this s)
unfolding destroy
destroy-IsOwned this s v = elim (Option-cases (lookup this s.objects)) [
  | inl e ↦ rw (e, destroy) v
  | inr (t, e) ↦
      rw (e, destroy)
        (record {
          balance = λ k. omega (
            arith,
            v.balance k,
            count-erase handle_of k this t s.objects v.distinct e,
            count-append k s.closed (handle_of t),
          );
          distinct = erase-Distinct this s.objects v.distinct;
        })
]

pub detach-IsOwned : (this : ℕ) (s : Threads) → IsOwned s → IsOwned (detach this s)
unfolding detach
detach-IsOwned this s v = elim (Option-cases (lookup this s.objects)) [
  | inl e ↦ rw (e, detach) v
  | inr (t, e) ↦ elim (Option-cases t.handle) [
    | inl idle ↦ rw (e, idle, detach) v
    | inr (handle, busy) ↦
        let w = let_go-IsOwned this t s e v in rw (e, busy, detach) (rw busy at w)
  ]
]

pub join-IsOwned : (this : ℕ) (s : Threads) → IsOwned s → IsOwned (join this s)
unfolding join
join-IsOwned this s v = elim (Option-cases (lookup this s.objects)) [
  | inl e ↦ rw (e, join) v
  | inr (t, e) ↦ elim (Option-cases t.handle) [
    | inl idle ↦ rw (e, idle, join) v
    | inr (handle, busy) ↦
        let w = rw busy at (let_go-IsOwned this t s e v) in
        rw (e, busy, join) (record { balance = w.balance; distinct = w.distinct })
  ]
]

-- The handle of `other` goes to `this`, which has none.
moved-IsOwned :
    (this other : ℕ) (t : Thread) (s : Threads)
    → ((k : ℕ)
        → count k (gather handle_of (insert this t s.objects))
          ≡ count k (gather handle_of s.objects) + count k (handle_of t))
    → (this == other) ≡ false
    → lookup other s.objects ≡ some t
    → IsOwned s
    → IsOwned (record s { objects = insert other empty_thread (insert this t s.objects) })
moved-IsOwned this other t s grows apart e v =
    let with_this = insert this t s.objects in
    let there : lookup other with_this ≡ some t =
      lookup-insert this other t s.objects ∙ rw apart e in
    record {
      balance = λ k. omega (
        arith,
        v.balance k,
        grows k,
        count-insert_old handle_of k other t empty_thread with_this there,
      );
      distinct =
          insert-Distinct other empty_thread with_this
            (insert-Distinct this t s.objects v.distinct);
    }

not_there :
    (this other : ℕ) (t : Thread) (s : Threads)
    → lookup this s.objects ≡ none
    → lookup other s.objects ≡ some t
    → (this == other) ≡ false
not_there this other t s fresh e =
    ground (arith, fresh, e, λ (same : this ≡ other). ap (λ (i : ℕ). lookup i s.objects) same)

pub make_from-IsOwned :
    (this other : ℕ) (s : Threads)
    → lookup this s.objects ≡ none
    → IsOwned s
    → IsOwned (make_from this other s)
unfolding make_from
make_from-IsOwned this other s fresh v = elim (Option-cases (lookup other s.objects)) [
  | inl e ↦ rw (e, make_from) v
  | inr (t, e) ↦
      rw (e, make_from)
        (moved-IsOwned this other t s (λ k. count-insert_new handle_of k this t s.objects fresh)
          (not_there this other t s fresh e) e v)
]

pub assign-IsOwned : (this other : ℕ) (s : Threads) → IsOwned s → IsOwned (assign this other s)
unfolding assign joinable
assign-IsOwned this other s v = elim (Bool-cases (this == other)) [
  | inl same ↦ rw (same, assign) v
  | inr apart ↦ elim (Option-cases (lookup this s.objects)) [
    | inl e ↦ rw (apart, e, assign) v
    | inr (mine, e) ↦ elim (Option-cases (lookup other s.objects)) [
      | inl f ↦ rw (apart, e, f, assign) v
      | inr (t, f) ↦ elim (Option-cases mine.handle) [
        | inr (handle, busy) ↦
            rw (apart, e, f, busy, assign) (record { balance = v.balance; distinct = v.distinct })
        | inl idle ↦
            rw (apart, e, f, idle, assign)
              (moved-IsOwned this other t s
                (λ k. omega (
                  arith,
                  count-insert_old handle_of k this mine t s.objects e,
                  ap (λ (h : Option ℕ). count k (to_list h)) idle,
                ))
                apart f v)
      ]
    ]
  ]
]
