-- ===== src/Commands/Reading.antt =====
-- What the trimming of a message and the words of a command come to.
use multi_threaded_tcp_chat.Base.{
  ℕ, ◌≡◌, refl, ap, ◌∙◌, true, false, ◌&&◌, [], ◌∷◌, ◌++◌, arith, All, Bool-cases, inl, inr, ◌==◌,
  nat_eq, text_eq,
}
use multi_threaded_tcp_chat.Base.Eq.{text_beq_iff}
use multi_threaded_tcp_chat.Base.Text.{Text}
use multi_threaded_tcp_chat.Commands.{
  is_line_end, trim_end, is_space, skip_spaces, split_word, read_word,
}

tail_of :
    (t : Text) → (tail : Text) × All (λ c. is_line_end c ≡ true) tail × (t ≡ trim_end t ++ tail)
unfolding trim_end
tail_of [] = ([], tt, refl)
tail_of (c ∷ cs) =
    let (tail, ends, split) = tail_of cs in
    elim (Bool-cases (is_line_end c && trim_end cs == [])) [
      | inr kept ↦ rw (kept, trim_end) (tail, ends, ap (◌∷◌ c) split)
      | inl popped ↦
          rw (popped, trim_end)
            (
              c ∷ tail,
              (ground (arith, popped), ends),
              ap (◌∷◌ c) (split ∙ ap (λ (l : Text). l ++ tail) (nothing popped)),
            )
    ]
  where
    nothing : (is_line_end c && trim_end cs == []) ≡ true → trim_end cs ≡ []
    nothing popped = ground (arith, popped, text_beq_iff (trim_end cs) [])

last_of : (t front : Text) (c : ℕ) → trim_end t ≡ front ++ c ∷ [] → is_line_end c ≡ false
unfolding trim_end
last_of [] [] c e = absurd (cc)
last_of [] (y ∷ ys) c e = absurd (cc)
last_of (x ∷ xs) [] c e = ground (arith, e, text_beq_iff (trim_end xs) [])
last_of (x ∷ xs) (y ∷ ys) c e = ground (arith, e, last_of xs ys c)

-- HandleMessage goes on with the message without the '\n', '\r' and '\0' at its end: what is cut off
-- consists of them, and what is left does not end with one.
pub trim_end_lem :
    (message : Text)
    → ((tail : Text) × All (λ c. is_line_end c ≡ true) tail × (message ≡ trim_end message ++ tail))
      × ((front : Text) (c : ℕ) → trim_end message ≡ front ++ c ∷ [] → is_line_end c ≡ false)
trim_end_lem message = (tail_of message, last_of message)

skip_spaces-split :
    (t : Text) → (lead : Text) × All (λ c. is_space c ≡ true) lead × (t ≡ lead ++ skip_spaces t)
unfolding skip_spaces
skip_spaces-split [] = ([], tt, refl)
skip_spaces-split (c ∷ cs) =
    let (lead, spaces, split) = skip_spaces-split cs in
    elim (Bool-cases (is_space c)) [
      | inl space ↦ rw (space, skip_spaces) (c ∷ lead, (space, spaces), ap (◌∷◌ c) split)
      | inr other ↦ rw (other, skip_spaces) ([], tt, refl)
    ]

split_word-append :
    (t : Text)
    → (t ≡ (split_word t).0 ++ (split_word t).1) × All (λ c. is_space c ≡ false) (split_word t).0
unfolding split_word
split_word-append [] = (refl, tt)
split_word-append (c ∷ cs) =
    let (joined, no_space) = split_word-append cs in
    elim (Bool-cases (is_space c)) [
      | inl space ↦ rw (space, split_word) (refl, tt)
      | inr other ↦ rw (other, split_word) (ap (◌∷◌ c) joined, (other, no_space))
    ]

split_word-stop : (t rest : Text) (c : ℕ) → (split_word t).1 ≡ c ∷ rest → is_space c ≡ true
unfolding split_word
split_word-stop [] rest c e = absurd (cc)
split_word-stop (x ∷ xs) rest c e = ground (arith, e, split_word-stop xs rest c)

-- Reading a word of a command takes spaces, then characters that are no spaces, and leaves the rest,
-- which is empty or starts with a space; nothing is lost.
pub read_word_lem :
    (t : Text)
    → ((lead : Text) × All (λ c. is_space c ≡ true) lead
        × (t ≡ lead ++ ((read_word t).0 ++ (read_word t).1)))
      × All (λ c. is_space c ≡ false) (read_word t).0
      × ((rest : Text) (c : ℕ) → (read_word t).1 ≡ c ∷ rest → is_space c ≡ true)
unfolding read_word
read_word_lem t =
    let (lead, spaces, split) = skip_spaces-split t in
    let (joined, no_space) = split_word-append (skip_spaces t) in
    (
      (lead, spaces, split ∙ ap (λ (l : Text). lead ++ l) joined),
      no_space,
      split_word-stop (skip_spaces t),
    )
