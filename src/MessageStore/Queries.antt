-- ===== src/MessageStore/Queries.antt =====
-- GetBySender, Search and GetTotalCount against what they mean: the first matches among the
-- messages in the cache, in the order in which the rooms are iterated.
use mathlib.Core.List.{append-nil, append_assoc}
use multi_threaded_tcp_chat.Base.{
  true, ◌↔◌, ℕ, zero, suc, ◌-◌, ◌≤◌, ◌<◌, ◌≡◌, refl, ap, sym, ◌∙◌, Bool, List, [], ◌∷◌, ◌++◌, arith,
  ◌==◌, text_eq, nat_eq, text_beq, leb, if◌then◌else◌, length, length-append, take, keep,
  keep-append, map, Option, some, none, Bool-cases, inl, inr,
}
use multi_threaded_tcp_chat.MessageStore.Find.{found_in_iff}
use multi_threaded_tcp_chat.Base.Text.{Text}
use multi_threaded_tcp_chat.Base.Map.{lookup, lookup_or}
use multi_threaded_tcp_chat.MessageStore.{
  ChatMessage, Cache, to_lower, matches, search_in_room, search_in_rooms, search_messages,
  sender_in_room, sender_in_rooms, get_by_sender, get_total_count,
}

-- All messages in the cache.
abbrev pub all_messages : Cache → List ChatMessage
all_messages [] = []
all_messages ((_, messages) ∷ rooms) = messages ++ all_messages rooms

pub get_total_count-length : (cache : Cache) → get_total_count cache ≡ length (all_messages cache)
unfolding get_total_count
get_total_count-length [] = refl
get_total_count-length ((_, messages) ∷ rooms) =
    omega (arith, get_total_count-length rooms, length-append messages (all_messages rooms))

module _ {ℓ} {A : Type ℓ} where
  take_all : (n : ℕ) (xs : List A) → length xs ≤ n → take n xs ≡ xs
  take_all zero [] h = refl
  take_all zero (x ∷ xs) h = absurd (omega arith)
  take_all (suc n) [] h = refl
  take_all (suc n) (x ∷ xs) h = ap (◌∷◌ x) (take_all n xs (omega arith))

  take-append_full : (n : ℕ) (xs ys : List A) → length xs ≡ n → take n (xs ++ ys) ≡ xs
  take-append_full zero [] ys h = refl
  take-append_full zero (x ∷ xs) ys h = absurd (omega arith)
  take-append_full (suc n) [] ys h = absurd (omega arith)
  take-append_full (suc n) (x ∷ xs) ys h = ap (◌∷◌ x) (take-append_full n xs ys (omega arith))

  length-take_le : (n : ℕ) (xs : List A) → length (take n xs) ≤ n
  length-take_le zero xs = omega arith
  length-take_le (suc n) [] = omega arith
  length-take_le (suc n) (x ∷ xs) = omega (arith, length-take_le n xs)

  -- Taking from a list that begins with what was taken.
  take_again : (n : ℕ) (xs ys : List A) → take n (take n xs ++ ys) ≡ take n (xs ++ ys)
  take_again zero xs ys = refl
  take_again (suc n) [] ys = refl
  take_again (suc n) (x ∷ xs) ys = ap (◌∷◌ x) (take_again n xs ys)

-- Going on from the first matches of one part to those of the next.
take_on :
    (limit : ℕ) (p : ChatMessage → Bool) (found result xs ys : List ChatMessage)
    → found ≡ take limit (result ++ keep p xs)
    → take limit (found ++ keep p ys) ≡ take limit (result ++ keep p (xs ++ ys))
take_on limit p found result xs ys e =
    rw (e, keep-append p xs ys)
      (take_again limit (result ++ keep p xs) (keep p ys)
        ∙ ap (take limit) (append_assoc result (keep p xs) (keep p ys)))

-- A search that has found no more than it may goes on to the first matches.
search_in_room-take :
    (limit : ℕ) (query : Text) (msgs result : List ChatMessage)
    → length result ≤ limit
    → search_in_room limit query msgs result ≡ take limit (result ++ keep (matches query) msgs)
unfolding search_in_room
search_in_room-take limit query [] result h = rw append-nil (sym (take_all limit result h))
search_in_room-take limit query (msg ∷ msgs) result h =
    elim (Bool-cases (leb limit (length result))) [
      | inl full ↦ rw full (sym (take-append_full limit result _ (ground (arith, full, h))))
      | inr room ↦ rw room (elim (Bool-cases (matches query msg)) [
        | inl hit ↦ rw hit (
            search_in_room-take limit query msgs (result ++ msg ∷ [])
              (ground (arith, room, length-append result (msg ∷ [])))
            ∙ ap (take limit) (append_assoc result (msg ∷ []) _))
        | inr miss ↦ rw miss (search_in_room-take limit query msgs result h)
      ])
    ]

search_in_rooms-take :
    (limit : ℕ) (query : Text) (cache : Cache) (result : List ChatMessage)
    → length result ≤ limit
    → search_in_rooms limit query cache result
      ≡ take limit (result ++ keep (matches query) (all_messages cache))
unfolding search_in_rooms
search_in_rooms-take limit query [] result h = rw append-nil (sym (take_all limit result h))
search_in_rooms-take limit query ((_, messages) ∷ rooms) result h =
    let found = search_in_room limit query messages result in
    let e = search_in_room-take limit query messages result h in
    let on = take_on limit (matches query) found result messages (all_messages rooms) e in
    let fits : length found ≤ limit =
      omega (arith, ap length e, length-take_le limit (result ++ keep (matches query) messages)) in
    elim (Bool-cases (leb limit (length found))) [
      | inl full ↦ rw full (sym (take-append_full limit found _ (ground (arith, full, fits))) ∙ on)
      | inr more ↦ rw more (search_in_rooms-take limit query rooms found fits ∙ on)
    ]

-- What Search looks through: the messages of the room, or all if no room is named.
abbrev pub searched : Text → Cache → List ChatMessage
searched room cache = if text_beq room [] then all_messages cache else lookup_or [] room cache

search-matches :
    (query room : Text) (max_results : ℕ) (cache : Cache)
    → search_messages query room max_results cache
      ≡ take max_results (keep (matches (map to_lower query)) (searched room cache))
unfolding search_messages
search-matches query room max_results cache = elim (Bool-cases (text_beq room [])) [
  | inl every ↦
      rw every (search_in_rooms-take max_results (map to_lower query) cache [] (omega arith))
  | inr one ↦ rw one (in_named_room (lookup room cache))
]
  where
    in_named_room :
        (o : Option (List ChatMessage))
        → (elim o [
          | none ↦ []
          | some messages ↦ search_in_room max_results (map to_lower query) messages []
        ])
          ≡ take max_results
              (keep (matches (map to_lower query)) (elim o [ none ↦ [] | some v ↦ v ]))
    in_named_room none = sym (take_all max_results [] (omega arith))
    in_named_room (some messages) =
        search_in_room-take max_results (map to_lower query) messages [] (omega arith)

-- The lower-case content holds the lower-case query: it is some text, then the query, then some text.
abbrev pub Holds : Text → ChatMessage → Type 0
Holds query msg =
    (before : Text) × (after : Text) × (map to_lower msg.content
      ≡ before ++ map to_lower query ++ after)

keep-same {ℓ} :
    {A : Type ℓ} (p q : A → Bool) (xs : List A) → ((a : A) → p a ≡ q a) → keep p xs ≡ keep q xs
keep-same p q [] h = refl
keep-same p q (x ∷ xs) h = rw (h x, keep-same p q xs h) refl

matches-Holds :
    (query : Text) (msg : ChatMessage) → (matches (map to_lower query) msg ≡ true) ↔ Holds query msg
unfolding matches
matches-Holds query msg = found_in_iff (map to_lower query) (map to_lower msg.content)

same_test : (a b : Bool) → ((a ≡ true) → (b ≡ true)) → ((b ≡ true) → (a ≡ true)) → a ≡ b
same_test a b h k = ground (arith, h, k)

-- Search gives the first messages, at most as many as it may, whose content holds the query when
-- both are in lower case, out of the room that is named or of all rooms, in their order: `holds` is
-- any test that says yes exactly to the messages whose content is, in lower case, some text, then
-- the query, then some text.
pub search_messages-take :
    (query room : Text) (max_results : ℕ) (cache : Cache) (holds : ChatMessage → Bool)
    → ((msg : ChatMessage) → (holds msg ≡ true) ↔ Holds query msg)
    → search_messages query room max_results cache
      ≡ take max_results (keep holds (searched room cache))
search_messages-take query room max_results cache holds right =
    search-matches query room max_results cache
    ∙ ap (take max_results) (
        keep-same (matches (map to_lower query)) holds (searched room cache) (λ msg.
          let code = matches-Holds query msg in
          same_test _ _ (λ h. (right msg).1 (code.0 h)) (λ h. code.1 ((right msg).0 h))))

module _ (sender_id count : ℕ) where
  -- GetBySender compares the size after a push, so it gives one message even if none are asked for.
  abbrev at_least_one : ℕ
  at_least_one = suc (count - 1)

  abbrev from_sender : ChatMessage → Bool
  from_sender msg = msg.sender_id == sender_id

  sender_in_room-take :
      (msgs result : List ChatMessage)
      → length result < at_least_one
      → ((sender_in_room sender_id count msgs result).1
          ≡ take at_least_one (result ++ keep from_sender msgs))
        × ((sender_in_room sender_id count msgs result).0
            ≡ leb at_least_one (length (sender_in_room sender_id count msgs result).1))
  unfolding sender_in_room
  sender_in_room-take [] result h =
      rw append-nil (sym (take_all at_least_one result (omega arith)), ground (arith, h))
  sender_in_room-take (msg ∷ msgs) result h =
      let pushed = result ++ msg ∷ [] in
      elim (Bool-cases (msg.sender_id == sender_id)) [
        | inr other ↦ rw other (sender_in_room-take msgs result h)
        | inl own ↦ rw own (elim (Bool-cases (leb count (length pushed))) [
          | inl full ↦ rw full (
            sym (
                  take-append_full at_least_one pushed _
                    (ground (arith, full, h, length-append result (msg ∷ []))))
                ∙ ap (take at_least_one) (append_assoc result (msg ∷ []) _),
            ground (arith, full, h, length-append result (msg ∷ [])),
          )
          | inr more ↦
              let ih =
                sender_in_room-take msgs pushed
                  (ground (arith, more, h, length-append result (msg ∷ []))) in
              rw more (ih.0 ∙ ap (take at_least_one) (append_assoc result (msg ∷ []) _), ih.1)
        ])
      ]

  sender_in_rooms-take :
      (cache : Cache) (result : List ChatMessage)
      → length result < at_least_one
      → sender_in_rooms sender_id count cache result
        ≡ take at_least_one (result ++ keep from_sender (all_messages cache))
  unfolding sender_in_rooms
  sender_in_rooms-take [] result h =
      rw append-nil (sym (take_all at_least_one result (omega arith)))
  sender_in_rooms-take ((_, messages) ∷ rooms) result h =
      let r = sender_in_room sender_id count messages result in
      let (e, returned) = sender_in_room-take messages result h in
      let on = take_on at_least_one from_sender r.1 result messages (all_messages rooms) e in
      let fits : length r.1 ≤ at_least_one =
        omega
          (arith, ap length e, length-take_le at_least_one (result ++ keep from_sender messages)) in
      elim (Bool-cases r.0) [
        | inl done ↦
            rw done (
              sym (take-append_full at_least_one r.1 _ (ground (arith, returned, done, fits))) ∙ on)
        | inr more ↦
            rw more (sender_in_rooms-take rooms r.1 (ground (arith, returned, more, fits)) ∙ on)
      ]

-- GetBySender gives the first messages of the sender, in the order of the rooms: as many as are
-- asked for, but one if none are asked for.
pub get_by_sender-take :
    (sender_id count : ℕ) (cache : Cache)
    → get_by_sender sender_id count cache
      ≡ take (suc (count - 1)) (keep (λ msg. msg.sender_id == sender_id) (all_messages cache))
unfolding get_by_sender
get_by_sender-take sender_id count cache =
    sender_in_rooms-take sender_id count cache [] (omega arith)
