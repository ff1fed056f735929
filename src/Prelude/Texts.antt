-- ===== src/Prelude/Texts.antt =====
-- Go strings as lists of bytes, with the comparison `<` of Go and the decimal text of an int.
use Prim.Native.Nat.{ℕ, zero, suc, ◌+◌, ◌%◌, ◌/◌}
use mathlib.Core.Path.{◌≡◌, refl}
use mathlib.Core.Bool.{Bool, true, false}
use mathlib.Core.List.{List, [], ◌∷◌}
use native.Mathlib.Omega.{arith}
use native.Mathlib.Decide.{ℕ_discrete}
use Prim.Native.Char.{code}
use Prim.Native.String.{String}
use gor.Prelude.Tests.{ltb, if◌then◌else◌}
use gor.Prelude.Sort.{StrictOrder, Tells}

abbrev pub Text : Type 0
Text = List ℕ

unfoldable pub Text-discrete : Discrete Text
unfolding ℕ_discrete
Text-discrete = hlevel ℕ_discrete

-- The bytes of an ASCII literal.
abbrev pub bytes : String → Text
bytes String.[] = []
bytes (String.◌∷◌ c s) = code c ∷ bytes s

-- The comparison `<` of Go strings: by bytes, a proper prefix first.
unfoldable pub text_less : Text → Text → Bool
text_less [] [] = false
text_less [] (y ∷ ys) = true
text_less (x ∷ xs) [] = false
text_less (x ∷ xs) (y ∷ ys) = if ltb x y then true else (if ltb y x then false else text_less xs ys)

text_less_irrefl : (a : Text) → text_less a a ≡ false
unfolding text_less
text_less_irrefl [] = refl
text_less_irrefl (x ∷ xs) = ground (arith, text_less_irrefl xs)

text_less_trans :
    (a b c : Text) → text_less a b ≡ true → text_less b c ≡ true → text_less a c ≡ true
unfolding text_less
text_less_trans [] [] c p q = cc
text_less_trans [] (y ∷ b) [] p q = cc
text_less_trans [] (y ∷ b) (z ∷ c) p q = refl
text_less_trans (x ∷ a) [] c p q = cc
text_less_trans (x ∷ a) (y ∷ b) [] p q = cc
text_less_trans (x ∷ a) (y ∷ b) (z ∷ c) p q = ground (arith, text_less_trans a b c)

pub text_less-StrictOrder : StrictOrder text_less
text_less-StrictOrder = record { irrefl = text_less_irrefl; trans = text_less_trans }

pub text_less_tells : Tells text_less
unfolding text_less
text_less_tells [] [] p q = refl
text_less_tells [] (y ∷ b) p q = cc
text_less_tells (x ∷ a) [] p q = cc
text_less_tells (x ∷ a) (y ∷ b) p q = ground (arith, text_less_tells a b)

pub ltb-StrictOrder : StrictOrder ltb
ltb-StrictOrder = record { irrefl = λ a. ground arith; trans = λ a b c p q. ground arith }

pub ltb_tells : Tells ltb
ltb_tells a b p q = ground arith

-- The decimal text of a number below 10 ^ fuel, in front of `rest`: strconv.Itoa.
digits_from : ℕ → ℕ → Text → Text
digits_from zero n rest = rest
digits_from (suc fuel) n rest =
    let more = digits_from fuel (n / 10) ((48 + n % 10) ∷ rest) in
    if ltb n 10 then (48 + n) ∷ rest else more

unfoldable pub itoa : ℕ → Text
unfolding digits_from
itoa n = digits_from 20 n []
