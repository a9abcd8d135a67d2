-- ===== src/ConnectionManager/Window.antt =====
-- A sliding window: a queue of the recent events, which drops its old ones before each test, against
-- the log of all events.
use multi_threaded_tcp_chat.Base.{
  ℕ, ◌+◌, ◌-◌, ◌≤◌, ◌<◌, ◌≡◌, refl, ap, sym, ◌∙◌, List, [], ◌∷◌, ◌++◌, arith, ltb, leb, ltb→lt,
  if◌then◌else◌, length, All, All-append, ◌&&◌, Bool-cases, inl, inr,
}
use mathlib.Core.List.{append_assoc}
use multi_threaded_tcp_chat.ConnectionManager.{drop_old}

-- How many of the times lie in the closed interval from `a` to `b`.
abbrev pub count_within : ℕ → ℕ → List ℕ → ℕ
count_within a b [] = 0
count_within a b (t ∷ ts) = (if leb a t && leb t b then 1 else 0) + count_within a b ts

count_within-append :
    (a b : ℕ) (xs ys : List ℕ)
    → count_within a b (xs ++ ys) ≡ count_within a b xs + count_within a b ys
count_within-append a b [] ys = omega arith
count_within-append a b (x ∷ xs) ys = omega (arith, count_within-append a b xs ys)

count_within-le : (a b : ℕ) (xs : List ℕ) → count_within a b xs ≤ length xs
count_within-le a b [] = omega arith
count_within-le a b (x ∷ xs) = ground (arith, count_within-le a b xs)

count_within_below : (a b : ℕ) (xs : List ℕ) → All (λ x. x < a) xs → count_within a b xs ≡ 0
count_within_below a b [] h = refl
count_within_below a b (x ∷ xs) h = ground (arith, h.0, count_within_below a b xs h.1)

All-mono : (k l : ℕ) (xs : List ℕ) → k ≤ l → All (λ x. x < k) xs → All (λ x. x < l) xs
All-mono k l [] h p = tt
All-mono k l (x ∷ xs) h p = (omega (arith, p.0), All-mono k l xs h p.1)

-- What `drop_old` drops is a prefix of times before the cut.
drop_old-split :
    (cut : ℕ) (ts : List ℕ)
    → (dropped : List ℕ) × (ts ≡ dropped ++ drop_old cut ts) × All (λ x. x < cut) dropped
unfolding drop_old
drop_old-split cut [] = ([], refl, tt)
drop_old-split cut (t ∷ ts) = elim (Bool-cases (ltb t cut)) [
  | inl h ↦
      let (dropped, e, below) = drop_old-split cut ts in
      (t ∷ dropped, rw h (ap (◌∷◌ t) e), (ltb→lt t cut h, below))
  | inr h ↦ ([], rw h refl, tt)
]

-- The queue `ts` at time `now` is the end of the log; what has left it is older than the span, and
-- no span of time holds more events than the limit.
pub record IsWindow (span limit : ℕ) (log ts : List ℕ) (now : ℕ) : Type 0 where
  pub older : List ℕ
  pub log_eq : log ≡ older ++ ts
  pub gone : All (λ x. x < now - span) older
  pub bounded : (a : ℕ) → count_within a (a + span) log ≤ limit

pub IsWindow-init : (span limit : ℕ) → IsWindow span limit [] [] 0
IsWindow-init span limit = record {
  older = [];
  log_eq = refl;
  gone = tt;
  bounded = λ a. omega arith;
}

module _ {span limit : ℕ} {log ts : List ℕ} {before : ℕ}
    (w : IsWindow span limit log ts before) where
  -- Dropping the old events at a later time.
  pub IsWindow-drop :
      (now : ℕ) → before ≤ now → IsWindow span limit log (drop_old (now - span) ts) now
  IsWindow-drop now h =
      let (dropped, e, below) = drop_old-split (now - span) ts in
      record {
        older = w.older ++ dropped;
        log_eq =
            w.log_eq ∙ ap (λ (l : List ℕ). w.older ++ l) e ∙ sym (append_assoc w.older dropped _);
        gone =
            All-append (λ x. x < now - span) w.older dropped
              (All-mono (before - span) (now - span) w.older (omega arith) w.gone) below;
        bounded = w.bounded;
      }

  pub IsWindow-later : (now : ℕ) → before ≤ now → IsWindow span limit log ts now
  IsWindow-later now h = record {
    older = w.older;
    log_eq = w.log_eq;
    gone = All-mono (before - span) (now - span) w.older (omega arith) w.gone;
    bounded = w.bounded;
  }

  -- Adding an event when the queue has room.
  pub IsWindow-add :
      length ts < limit
      → (now : ℕ) → before ≤ now
      → IsWindow span limit (log ++ now ∷ []) (ts ++ now ∷ []) now
  IsWindow-add room now h = record {
    older = w.older;
    log_eq = ap (λ (l : List ℕ). l ++ now ∷ []) w.log_eq ∙ append_assoc w.older ts (now ∷ []);
    gone = All-mono (before - span) (now - span) w.older (omega arith) w.gone;
    bounded = λ a. elim (Bool-cases (leb a now && leb now (a + span))) [
      | inr outside ↦ omega (
        arith,
        count_within-append a (a + span) log (now ∷ []),
        ap {B = ℕ} (λ b. if b then 1 else 0) outside,
        w.bounded a,
      )
      | inl inside ↦ omega (
        arith,
        count_within-append a (a + span) log (now ∷ []),
        ap (count_within a (a + span)) w.log_eq,
        count_within-append a (a + span) w.older ts,
        count_within_below a (a + span) w.older
            (All-mono (before - span) a w.older (ground arith) w.gone),
        count_within-le a (a + span) ts,
        ap {B = ℕ} (λ b. if b then 1 else 0) inside,
      )
    ];
  }
