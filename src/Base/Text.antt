-- ===== src/Base/Text.antt =====
-- std::string as its list of bytes.
use Prim.Native.Char.{code}
use Prim.Native.String.{String}
use Prim.Native.Nat.{ℕ, zero, suc, ◌+◌, ◌/◌, ◌%◌}
use mathlib.Core.List.{List, [], ◌∷◌}
use multi_threaded_tcp_chat.Base.Tests.{ltb, if◌then◌else◌}

abbrev pub Text : Type 0
Text = List ℕ

-- A string literal of the source (all of them are ASCII).
unfoldable pub text : String → Text
text String.[] = []
text (String.◌∷◌ c s) = code c ∷ text s

-- std::to_string of a number that is not negative. There are at most as many rounds as the number
-- has digits, so the fuel `suc n` is never used up.
unfoldable pub decimal_digits : ℕ → ℕ → Text → Text
decimal_digits zero n acc = acc
decimal_digits (suc fuel) n acc =
    let here = (48 + n % 10) ∷ acc in
    let rest = decimal_digits fuel (n / 10) here in if ltb n 10 then here else rest

unfoldable pub to_string : ℕ → Text
unfolding decimal_digits
to_string n = decimal_digits (suc n) n []
