-- ===== src/MessageStore/Cached.antt =====
-- The cache against the whole history: what a room keeps is the end of what was stored for it.
use mathlib.Core.List.{append-nil}
use multi_threaded_tcp_chat.Base.{
  ℕ, zero, suc, ◌+◌, ◌-◌, ◌≤◌, ◌<◌, ◌≡◌, refl, ap, sym, ◌∙◌, Bool, not, List, [], ◌∷◌, ◌++◌, arith,
  text_eq, text_beq, ltb, if◌then◌else◌, length, length-append, length-drop, drop, keep,
  keep-append, get_elem?, min, some, Option-cases, Bool-cases, inl, inr,
}
use multi_threaded_tcp_chat.Base.Eq.{text_beq_iff}
use multi_threaded_tcp_chat.Base.Text.{Text}
use multi_threaded_tcp_chat.Base.Map.{
  lookup, lookup_or, lookup_or-none, lookup_or-some, lookup_or-insert, lookup_or-erase,
}
use multi_threaded_tcp_chat.MessageStore.{
  ChatMessage, Cache, trim, store_cached, copy_range, get_recent, clear,
}

-- The last `n` elements.
abbrev pub last_n {ℓ} : {A : Type ℓ} → ℕ → List A → List A
last_n n xs = drop (length xs - n) xs

module _ {ℓ} {A : Type ℓ} where
  drop_at : (xs : List A) {i j : ℕ} → i ≡ j → drop i xs ≡ drop j xs
  drop_at xs e = ap (λ k. drop k xs) e

  drop_nil : (n : ℕ) → drop {A = A} n [] ≡ []
  drop_nil zero = refl
  drop_nil (suc n) = refl

  drop_step :
      (i : ℕ) (xs : List A)
      → i < length xs
      → (a : A) × (get_elem? xs i ≡ some a) × (drop i xs ≡ a ∷ drop (suc i) xs)
  drop_step i [] h = absurd (omega arith)
  drop_step zero (x ∷ xs) h = (x, refl, refl)
  drop_step (suc i) (x ∷ xs) h = drop_step i xs (omega arith)

  drop_all : (n : ℕ) (xs : List A) → length xs ≤ n → drop n xs ≡ []
  drop_all zero [] h = refl
  drop_all zero (x ∷ xs) h = absurd (omega arith)
  drop_all (suc n) [] h = refl
  drop_all (suc n) (x ∷ xs) h = drop_all n xs (omega arith)

  drop-drop : (m n : ℕ) (xs : List A) → drop m (drop n xs) ≡ drop (n + m) xs
  drop-drop m zero xs = drop_at xs (omega arith)
  drop-drop m (suc n) [] = drop_nil m ∙ sym (drop_nil (suc n + m))
  drop-drop m (suc n) (x ∷ xs) =
      drop-drop m n xs ∙ drop_at (x ∷ xs) {i = suc (n + m)} {j = suc n + m} (omega arith)

  drop-append : (n : ℕ) (xs ys : List A) → n ≤ length xs → drop n (xs ++ ys) ≡ drop n xs ++ ys
  drop-append zero xs ys h = refl
  drop-append (suc n) [] ys h = absurd (omega arith)
  drop-append (suc n) (x ∷ xs) ys h = drop-append n xs ys (omega arith)

  last_n-last_n : (m n : ℕ) (xs : List A) → last_n m (last_n n xs) ≡ last_n (min m n) xs
  last_n-last_n m n xs =
      drop-drop _ _ xs ∙ drop_at xs (omega (arith, length-drop (length xs - n) xs))

last_n-append :
    (n : ℕ) (xs : List ChatMessage) (m : ChatMessage)
    → last_n n (last_n n xs ++ m ∷ []) ≡ last_n n (xs ++ m ∷ [])
last_n-append n xs m =
    let d = length xs - n in
    rw (← drop-append d xs (m ∷ []) (omega arith)) (
      drop-drop _ d (xs ++ m ∷ [])
      ∙ drop_at (xs ++ m ∷ [])
          (omega (arith, length-drop d (xs ++ m ∷ []), length-append xs (m ∷ []))))

trim-last_n : (limit : ℕ) (xs : List ChatMessage) → trim limit xs ≡ last_n limit xs
unfolding trim
trim-last_n limit [] = sym (drop_nil (0 - limit))
trim-last_n limit (x ∷ xs) = elim (Bool-cases (ltb limit (length (x ∷ xs)))) [
  | inl over ↦ rw over (
      trim-last_n limit xs
      ∙ drop_at (x ∷ xs) {i = suc (length xs - limit)} {j = length (x ∷ xs) - limit}
          (ground (arith, over)))
  | inr fits ↦
      rw fits (drop_at (x ∷ xs) {i = 0} {j = length (x ∷ xs) - limit} (ground (arith, fits)))
]

copy_range-drop :
    (rounds i : ℕ) (xs : List ChatMessage)
    → i + rounds ≡ length xs
    → copy_range rounds i xs ≡ drop i xs
unfolding copy_range
copy_range-drop zero i xs h = sym (drop_all i xs (omega arith))
copy_range-drop (suc rounds) i xs h =
    let (a, here, rest) = drop_step i xs (omega arith) in
    rw (copy_range, here, rest) (ap (◌∷◌ a) (copy_range-drop rounds (suc i) xs (omega arith)))

-- What GetRecent copies out of a room that is there.
get_recent-last_n :
    (room : Text) (count : ℕ) (cache : Cache)
    → get_recent room count cache ≡ last_n count (lookup_or [] room cache)
unfolding get_recent
get_recent-last_n room count cache = elim (Option-cases (lookup room cache)) [
  | inl e ↦ rw (lookup_or-none [] room cache e) (rw (e, get_recent) (sym (drop_nil (0 - count))))
  | inr (ms, e) ↦ rw (lookup_or-some [] room cache e) (
      rw (e, get_recent)
        (elim (Bool-cases (ltb count (length ms))) [
          | inl more ↦ rw more (copy_range-drop _ (length ms - count) ms (omega arith))
          | inr fits ↦ rw fits (
              copy_range-drop _ 0 ms (omega arith)
              ∙ drop_at ms {i = 0} {j = length ms - count} (ground (arith, fits)))
        ]))
]

-- The calls that change the cache.
pub data Call : Type 0 where
  store : ChatMessage → Call
  clears : Text → Call

unfoldable pub apply : ℕ → Call → Cache → Cache
apply limit (store msg) cache = store_cached limit msg cache
apply limit (clears room) cache = clear room cache

unfoldable pub run : ℕ → List Call → Cache → Cache
run limit [] cache = cache
run limit (c ∷ cs) cache = run limit cs (apply limit c cache)

-- The specification: the list of everything that was stored and not cleared.
abbrev pub about : Text → ChatMessage → Bool
about room msg = text_beq msg.room room

abbrev pub remember : Call → List ChatMessage → List ChatMessage
remember (store msg) history = history ++ msg ∷ []
remember (clears room) history =
    if text_beq room [] then [] else keep (λ m. not (about room m)) history

abbrev pub remember_all : List Call → List ChatMessage → List ChatMessage
remember_all [] history = history
remember_all (c ∷ cs) history = remember_all cs (remember c history)

-- A cache holds the end of a history.
abbrev Holds : ℕ → Cache → List ChatMessage → Type 0
Holds limit cache history =
    (room : Text) → lookup_or [] room cache ≡ last_n limit (keep (about room) history)

store_cached-Holds :
    (limit : ℕ) (msg : ChatMessage) (cache : Cache) (history : List ChatMessage)
    → Holds limit cache history
    → Holds limit (store_cached limit msg cache) (history ++ msg ∷ [])
unfolding store_cached
store_cached-Holds limit msg cache history h room =
    let old = lookup_or [] msg.room cache in
    rw (lookup_or-insert [] msg.room room (trim limit (old ++ msg ∷ [])) cache) (
      rw (keep-append (about room) history (msg ∷ [])) (elim (Bool-cases (text_beq msg.room room)) [
        | inl same ↦ rw same (
            trim-last_n limit (old ++ msg ∷ [])
            ∙ ap (λ (l : List ChatMessage). last_n limit (l ++ msg ∷ []))
                (h msg.room
                  ∙ ap (λ (r : Text). last_n limit (keep (about r) history))
                      ((text_beq_iff msg.room room).0 same))
            ∙ last_n-append limit (keep (about room) history) msg)
        | inr other ↦ rw (other, append-nil) (h room)
      ]))

keep_cleared :
    (room other : Text) (history : List ChatMessage)
    → keep (about other) (keep (λ m. not (about room m)) history)
      ≡ (if text_beq room other then [] else keep (about other) history)
keep_cleared room other [] = ground arith
keep_cleared room other (m ∷ history) = ground (
  arith,
  keep_cleared room other history,
  text_beq_iff m.room room,
  text_beq_iff m.room other,
  text_beq_iff room other,
)

clear-Holds :
    (limit : ℕ) (room : Text) (cache : Cache) (history : List ChatMessage)
    → Holds limit cache history
    → Holds limit (clear room cache) (remember (clears room) history)
unfolding clear lookup
clear-Holds limit room cache history h other = elim (Bool-cases (text_beq room [])) [
  | inl all ↦ rw all (sym (drop_nil (0 - limit)))
  | inr one ↦ rw one (
      rw (keep_cleared room other history) (
        rw (lookup_or-erase [] room other cache) (elim (Bool-cases (text_beq room other)) [
          | inl same ↦ rw same (sym (drop_nil (0 - limit)))
          | inr ne ↦ rw ne (h other)
        ])))
]

run-Holds :
    (limit : ℕ) (cs : List Call) (cache : Cache) (history : List ChatMessage)
    → Holds limit cache history
    → Holds limit (run limit cs cache) (remember_all cs history)
unfolding run apply
run-Holds limit [] cache history h = h
run-Holds limit (store msg ∷ cs) cache history h =
    run-Holds limit cs (store_cached limit msg cache) (history ++ msg ∷ [])
      (store_cached-Holds limit msg cache history h)
run-Holds limit (clears room ∷ cs) cache history h =
    run-Holds limit cs (clear room cache) (remember (clears room) history)
      (clear-Holds limit room cache history h)

-- Whatever was stored and cleared since the start, GetRecent gives the last messages of the room in
-- the whole history, oldest first: as many as are asked for, as the cache may hold, or as there are,
-- whichever is least.
pub get_recent-remember :
    (limit : ℕ) (cs : List Call) (room : Text) (count : ℕ)
    → get_recent room count (run limit cs [])
      ≡ last_n (min count limit) (keep (about room) (remember_all cs []))
unfolding lookup
get_recent-remember limit cs room count =
    get_recent-last_n room count (run limit cs [])
    ∙ ap (last_n count) (run-Holds limit cs [] [] (λ r. sym (drop_nil (0 - limit))) room)
    ∙ last_n-last_n count limit (keep (about room) (remember_all cs []))
