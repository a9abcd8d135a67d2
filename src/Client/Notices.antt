-- ===== src/Client/Notices.antt =====
-- The colours that the client gives to what the server sends.
use mathlib.Core.List.{append_assoc}
use multi_threaded_tcp_chat.Base.{
  ◌≡◌, ◌⊎◌, inl, inr, refl, ap, sym, ◌∙◌, true, ◌||◌, [], ◌∷◌, ◌++◌, ◌==◌, nat_eq, arith,
  Bool-cases,
}
use multi_threaded_tcp_chat.Base.Text.{Text, text}
use multi_threaded_tcp_chat.MessageStore.{found_in}
use multi_threaded_tcp_chat.MessageStore.Find.{found_in_iff}
use multi_threaded_tcp_chat.Server.{as_line}
use multi_threaded_tcp_chat.Client.{message_color}

-- SendToClient only puts something behind the text.
as_line-extends : (m : Text) → (post : Text) × (as_line m ≡ m ++ post)
unfolding as_line
as_line-extends [] = (text "\n", refl)
as_line-extends (c ∷ []) = elim (Bool-cases (c == 10)) [
  | inl e ↦ ([], ground (arith, e))
  | inr e ↦ (text "\n", ground (arith, e))
]
as_line-extends (c ∷ d ∷ cs) = let (post, e) = as_line-extends (d ∷ cs) in (post, ap (◌∷◌ c) e)

found_in-as_line : (q pre post : Text) → found_in q (as_line (pre ++ q ++ post)) ≡ true
found_in-as_line q pre post =
    let (more, e) = as_line-extends (pre ++ q ++ post) in
    (found_in_iff q _).1 (pre, post ++ more, e ∙ append_assoc (pre ++ q) post more)

joined_yellow : (m : Text) → found_in (text "has joined") m ≡ true → message_color m ≡ 14
unfolding message_color
joined_yellow m h = rw h refl

left_yellow : (m : Text) → found_in (text "has left") m ≡ true → message_color m ≡ 14
unfolding message_color
left_yellow m h = ground (arith, h)

whisper_color :
    (m : Text)
    → found_in (text "[Whisper") m ≡ true
    → (message_color m ≡ 13) ⊎ (message_color m ≡ 14)
unfolding message_color
whisper_color m h =
    elim (Bool-cases (found_in (text "has joined") m || found_in (text "has left") m)) [
      | inl e ↦ inr (rw e refl)
      | inr e ↦ inl (rw (e, h) refl)
    ]

-- What the server sends a room when a client gives its name and when one is gone is shown in yellow,
-- whatever the name and the room are, and so is every line that says "has joined" somewhere. A
-- whisper, to the one who gets it and to the one who sent it, is magenta or yellow. In each case the
-- text comes to the client as SendToClient completes it, and in one piece.
pub notice_colors :
    (name room message : Text)
    → (message_color (as_line (name ++ text " has joined #" ++ room)) ≡ 14)
      × (message_color (as_line (name ++ text " has left the chat")) ≡ 14)
      × (message_color (as_line (name ++ text "has joined" ++ message)) ≡ 14)
      × ((message_color (as_line (text "[Whisper from " ++ name ++ text "]:" ++ message)) ≡ 13)
          ⊎ (message_color (as_line (text "[Whisper from " ++ name ++ text "]:" ++ message)) ≡ 14))
      × ((message_color (as_line (text "[Whisper to " ++ name ++ text "]:" ++ message)) ≡ 13)
          ⊎ (message_color (as_line (text "[Whisper to " ++ name ++ text "]:" ++ message)) ≡ 14))
unfolding text
notice_colors name room message = (
  joined_yellow _ (
      rw (sym joined)
        (found_in-as_line (text "has joined") (name ++ text " ") (text " #" ++ room))),
  left_yellow _
      (rw (sym left) (found_in-as_line (text "has left") (name ++ text " ") (text " the chat"))),
  joined_yellow _ (found_in-as_line (text "has joined") name message),
  whisper_color _
      (found_in-as_line (text "[Whisper") [] (text " from " ++ name ++ text "]:" ++ message)),
  whisper_color _
      (found_in-as_line (text "[Whisper") [] (text " to " ++ name ++ text "]:" ++ message)),
)
  where
    joined :
        (name ++ text " ") ++ text "has joined" ++ (text " #" ++ room)
        ≡ name ++ text " has joined #" ++ room
    joined = simp append_assoc

    left :
        (name ++ text " ") ++ text "has left" ++ text " the chat"
        ≡ name ++ text " has left the chat"
    left = simp append_assoc
