-- ===== src/Prelude/Texts.antt =====
-- Texts by their code points, for the string methods that the code calls on ASCII text.
use Prim.Native.Nat.{ℕ, ◌+◌}
use Prim.Native.String.{String}
use Prim.Native.Char.{code}
use mathlib.Core.Path.{◌≡◌, refl}
use mathlib.Core.Bool.{Bool, true, false, not, ◌&&◌, ◌||◌}
use mathlib.Core.List.{List, [], ◌∷◌}
use native.Mathlib.Omega.{arith}
use control_gate_backend.Prelude.Tests.{leb, ◌==◌, if◌then◌else◌}
use control_gate_backend.Prelude.Lists.{is_cons}

abbrev pub Text : Type 0
Text = List ℕ

abbrev pub codes_of : String → Text
codes_of String.[] = []
codes_of (String.◌∷◌ c s) = code c ∷ codes_of s

-- `==`
abbrev pub same_text : Text → Text → Bool
same_text [] [] = true
same_text [] (y ∷ ys) = false
same_text (x ∷ xs) [] = false
same_text (x ∷ xs) (y ∷ ys) = x == y && same_text xs ys

-- `lower()`
abbrev pub lower_code : ℕ → ℕ
lower_code c = if leb b'A' c && leb c b'Z' then c + 32 else c

abbrev pub lower : Text → Text
lower [] = []
lower (c ∷ cs) = lower_code c ∷ lower cs

-- `isspace()`
abbrev pub is_space : ℕ → Bool
is_space c = c == b' ' || (leb 9 c && leb c 13) || (leb 28 c && leb c 31)

-- `c.isalnum() or c == "_"`
abbrev pub is_word_code : ℕ → Bool
is_word_code c =
    (leb b'a' c && leb c b'z')
    || (leb b'A' c && leb c b'Z')
    || (leb b'0' c && leb c b'9')
    || c == b'_'

-- `lstrip` and `rstrip` of the characters that satisfy a test
abbrev pub strip_front : (ℕ → Bool) → Text → Text
strip_front p [] = []
strip_front p (c ∷ cs) = let rest = strip_front p cs in if p c then rest else c ∷ cs

abbrev pub strip_back : (ℕ → Bool) → Text → Text
strip_back p [] = []
strip_back p (c ∷ cs) =
    let rest = strip_back p cs in if p c && not (is_cons rest) then [] else c ∷ rest

-- `startswith`
abbrev pub starts_with : Text → Text → Bool
starts_with [] text = true
starts_with (p ∷ ps) [] = false
starts_with (p ∷ ps) (c ∷ cs) = p == c && starts_with ps cs

-- `endswith`
abbrev pub ends_with : Text → Text → Bool
ends_with suffix [] = same_text suffix []
ends_with suffix (c ∷ cs) = same_text suffix (c ∷ cs) || ends_with suffix cs

-- `part in text`
abbrev pub has_part : Text → Text → Bool
has_part part [] = same_text part []
has_part part (c ∷ cs) = starts_with part (c ∷ cs) || has_part part cs

-- `<=`, by code points
abbrev pub text_le : Text → Text → Bool
text_le [] ys = true
text_le (x ∷ xs) [] = false
text_le (x ∷ xs) (y ∷ ys) = if x == y then text_le xs ys else leb x y

pub same_text_self : (xs : Text) → same_text xs xs ≡ true
same_text_self [] = refl
same_text_self (x ∷ xs) = ground (arith, same_text_self xs)

pub same_text-true : (xs ys : Text) → same_text xs ys ≡ true → xs ≡ ys
same_text-true [] [] h = refl
same_text-true [] (y ∷ ys) h = cc
same_text-true (x ∷ xs) [] h = cc
same_text-true (x ∷ xs) (y ∷ ys) h = ground (arith, same_text-true xs ys)

pub same_text_comm : (xs ys : Text) → same_text xs ys ≡ same_text ys xs
same_text_comm [] [] = refl
same_text_comm [] (y ∷ ys) = refl
same_text_comm (x ∷ xs) [] = refl
same_text_comm (x ∷ xs) (y ∷ ys) = ground (arith, same_text_comm xs ys)
