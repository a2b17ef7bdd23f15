-- ===== src/Engine/Store/Time.antt =====
-- The column submitted_at is text in Go's time.RFC3339Nano layout (sqlite_store.go:82), and SQLite
-- orders it as text. Up to the second the layout has a fixed width, so that texts are ordered as
-- the seconds are; the fraction is written with its trailing zeros dropped, and is followed by Z.
-- The layout and the order are those of the libraries; the source chooses them.
use sei_k8s_controller.Prelude.{
  ℕ, zero, suc, ◌+◌, ◌/◌, ◌%◌, Bool, true, false, List, [], ◌∷◌, ◌++◌, ltb, ◌==◌, if◌then◌else◌,
}

-- the decimal digits of `n`, in a field of `width`, as characters
unfoldable pub digits : ℕ → ℕ → List ℕ
digits zero n = []
digits (suc width) n = digits width (n / 10) ++ (48 + n % 10) ∷ []

-- the digits of `n` without the zeros at their end
unfoldable pub trimmed : ℕ → ℕ → List ℕ
trimmed zero n = []
trimmed (suc width) n =
    let shorter = trimmed width (n / 10) in
    if n % 10 == 0 then shorter else digits width (n / 10) ++ (48 + n % 10) ∷ []

-- what follows the seconds: nothing or a point and digits, and then Z
unfoldable pub fraction_text : ℕ → List ℕ
unfolding digits trimmed
fraction_text nanos = if nanos == 0 then b'Z' ∷ [] else b'.' ∷ (trimmed 9 nanos ++ b'Z' ∷ [])

-- memcmp order of two texts
unfoldable pub lex_lt : List ℕ → List ℕ → Bool
lex_lt [] [] = false
lex_lt [] (y ∷ ys) = true
lex_lt (x ∷ xs) [] = false
lex_lt (x ∷ xs) (y ∷ ys) = if x == y then lex_lt xs ys else ltb x y

abbrev pub nanos_per_second : ℕ
nanos_per_second = 1000000000

-- the text of one instant sorts before that of another
unfoldable pub text_before : ℕ → ℕ → Bool
text_before a b =
    if a / nanos_per_second == b / nanos_per_second
    then lex_lt (fraction_text (a % nanos_per_second)) (fraction_text (b % nanos_per_second))
    else ltb (a / nanos_per_second) (b / nanos_per_second)
