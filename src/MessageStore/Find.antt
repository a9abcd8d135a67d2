-- ===== src/MessageStore/Find.antt =====
-- std::string::find, as Search uses it, against what it means for a text to hold another.
use multi_threaded_tcp_chat.Base.{
  ◌≡◌, ◌↔◌, refl, ap, ◌∙◌, true, [], ◌∷◌, ◌++◌, arith, Bool-cases, inl, inr, nat_eq,
}
use multi_threaded_tcp_chat.Base.Text.{Text}
use multi_threaded_tcp_chat.MessageStore.{starts_with, found_in}

starts_with-prefix : (q c : Text) → starts_with q c ≡ true → (post : Text) × (c ≡ q ++ post)
unfolding starts_with
starts_with-prefix [] c h = (c, refl)
starts_with-prefix (x ∷ q) [] h = absurd (ground (arith, h))
starts_with-prefix (x ∷ q) (y ∷ c) h =
    let (post, e) = starts_with-prefix q c (ground (arith, h)) in (post, ground (arith, h, e))

starts_with-append : (q post : Text) → starts_with q (q ++ post) ≡ true
unfolding starts_with
starts_with-append [] post = refl
starts_with-append (x ∷ q) post = ground (arith, starts_with-append q post)

found_in-splits :
    (q c : Text) → found_in q c ≡ true → (pre : Text) × (post : Text) × (c ≡ pre ++ q ++ post)
unfolding found_in
found_in-splits q [] h = let (post, e) = starts_with-prefix q [] h in ([], post, e)
found_in-splits q (x ∷ c) h = elim (Bool-cases (starts_with q (x ∷ c))) [
  | inl here ↦ let (post, e) = starts_with-prefix q (x ∷ c) here in ([], post, e)
  | inr later ↦
      let (pre, post, e) = found_in-splits q c (ground (arith, later, h)) in
      (x ∷ pre, post, ap (◌∷◌ x) e)
]

found_in_here : (q c : Text) → starts_with q c ≡ true → found_in q c ≡ true
unfolding found_in
found_in_here q [] h = h
found_in_here q (x ∷ c) h = ground (arith, h)

found_in-append : (q pre post : Text) → found_in q (pre ++ q ++ post) ≡ true
unfolding found_in
found_in-append q [] post = found_in_here q (q ++ post) (starts_with-append q post)
found_in-append q (x ∷ pre) post = ground (arith, found_in-append q pre post)

-- The test behind Search: the content holds the query exactly when it is some text, then the query,
-- then some text.
pub found_in_iff :
    (q c : Text) → (found_in q c ≡ true) ↔ ((pre : Text) × (post : Text) × (c ≡ pre ++ q ++ post))
found_in_iff q c =
    (found_in-splits q c, λ (pre, post, e). ap (found_in q) e ∙ found_in-append q pre post)
