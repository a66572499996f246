-- ===== src/Base/Decimal.antt =====
-- The text of a whole number, `String(n)`, and reading it back.
use Prim.Native.Nat.{ℕ, zero, suc, ◌+◌, ◌-◌, ◌*◌, ◌/◌, ◌%◌, ◌≤◌, ◌<◌}
use Prim.Native.Char.{Char, code, char}
use Prim.Native.String.append
use Prim.Native.String.{String}
use mathlib.Core.Path.{◌≡◌, sym, refl, ap, ◌∙◌}
use mathlib.Core.Logic.{inl, inr}
use mathlib.Core.Bool.{true}
use mathlib.Core.List.{List, [], ◌∷◌, ◌++◌}
use native.Mathlib.Omega.{arith}
use surebet.Base.Tests.{ltb, Bool-cases, if◌then◌else◌}
use surebet.Base.Lists.{length, drop}
use surebet.Base.Text.{chars, of_chars, ◌^^◌}

digit : ℕ → Char
digit zero = char 48 tt
digit (suc zero) = char 49 tt
digit (suc (suc zero)) = char 50 tt
digit (suc (suc (suc zero))) = char 51 tt
digit (suc (suc (suc (suc zero)))) = char 52 tt
digit (suc (suc (suc (suc (suc zero))))) = char 53 tt
digit (suc (suc (suc (suc (suc (suc zero)))))) = char 54 tt
digit (suc (suc (suc (suc (suc (suc (suc zero))))))) = char 55 tt
digit (suc (suc (suc (suc (suc (suc (suc (suc zero)))))))) = char 56 tt
digit n = char 57 tt

code-digit : (d : ℕ) → d < 10 → code (digit d) ≡ 48 + d
unfolding digit
code-digit zero h = omega arith
code-digit (suc zero) h = omega arith
code-digit (suc (suc zero)) h = omega arith
code-digit (suc (suc (suc zero))) h = omega arith
code-digit (suc (suc (suc (suc zero)))) h = omega arith
code-digit (suc (suc (suc (suc (suc zero))))) h = omega arith
code-digit (suc (suc (suc (suc (suc (suc zero)))))) h = omega arith
code-digit (suc (suc (suc (suc (suc (suc (suc zero))))))) h = omega arith
code-digit (suc (suc (suc (suc (suc (suc (suc (suc zero)))))))) h = omega arith
code-digit (suc (suc (suc (suc (suc (suc (suc (suc (suc zero))))))))) h = omega arith
code-digit (suc (suc (suc (suc (suc (suc (suc (suc (suc (suc d)))))))))) h = absurd (omega arith)

-- The digits of a number in front of those read before, on fuel
text_from : ℕ → ℕ → List Char → List Char
unfolding digit
text_from zero n out = out
text_from (suc fuel) n out =
    let rest = text_from fuel (n / 10) (digit (n % 10) ∷ out) in
    if ltb n 10 then digit (n % 10) ∷ out else rest

unfoldable pub number_text : ℕ → String
unfolding text_from of_chars
number_text n = of_chars (text_from (suc n) n [])

value : List Char → ℕ → ℕ
value [] n = n
value (c ∷ cs) n = value cs (n * 10 + (code c - 48))

value-digit : (n : ℕ) (out : List Char) → value (digit (n % 10) ∷ out) (n / 10) ≡ value out n
unfolding value
value-digit n out = ap (value out) (omega (arith, code-digit (n % 10) (omega arith)))

value-nil : (n : ℕ) → value [] n ≡ n
unfolding value
value-nil n = refl

value-no_tens :
    (n : ℕ) (out : List Char)
    → n / 10 ≡ 0
    → value (digit (n % 10) ∷ out) 0 ≡ value (digit (n % 10) ∷ out) (n / 10)
value-no_tens n out h = ap (value (digit (n % 10) ∷ out)) (omega arith)

value-text_from :
    (fuel n : ℕ) (out : List Char) → n ≤ fuel → value (text_from (suc fuel) n out) 0 ≡ value out n
unfolding text_from
value-text_from zero n out h =
    let small : ltb n 10 ≡ true = ground arith in
    let none_before : n / 10 ≡ 0 = omega arith in
    rw small (value-no_tens n out none_before ∙ value-digit n out)
value-text_from (suc fuel) n out h = elim (Bool-cases (ltb n 10)) [
  | inl small ↦
      let none_before : n / 10 ≡ 0 = ground arith in
      rw small (value-no_tens n out none_before ∙ value-digit n out)
  | inr large ↦
      let fits : n / 10 ≤ fuel = ground arith in
      rw large (value-text_from fuel (n / 10) (digit (n % 10) ∷ out) fits ∙ value-digit n out)
]

chars-of_chars : (l : List Char) → chars (of_chars l) ≡ l
unfolding chars of_chars
chars-of_chars [] = refl
chars-of_chars (c ∷ l) = ap (λ t. c ∷ t) (chars-of_chars l)

chars-append : (s t : String) → chars (s ^^ t) ≡ chars s ++ chars t
unfolding chars
chars-append String.[] t = ap chars (append.nil t)
chars-append (String.◌∷◌ c s) t = ap chars (append.cons c s t) ∙ ap (λ l. c ∷ l) (chars-append s t)

drop-append {ℓ} : {A : Type ℓ} (xs ys : List A) → drop (length xs) (xs ++ ys) ≡ ys
drop-append [] ys = refl
drop-append (x ∷ xs) ys = drop-append xs ys

-- The number after a prefix
number_after : String → String → ℕ
number_after prefix s = value (drop (length (chars prefix)) (chars s)) 0

number_after-append : (prefix : String) (n : ℕ) → number_after prefix (prefix ^^ number_text n) ≡ n
unfolding number_after number_text
number_after-append prefix n =
    rw
      (
        chars-append prefix (of_chars (text_from (suc n) n [])),
        drop-append (chars prefix) (chars (of_chars (text_from (suc n) n []))),
        chars-of_chars (text_from (suc n) n []),
      )
      (value-text_from n n [] (omega arith) ∙ value-nil n)

-- Two numbers with the same text after a prefix are one.
pub numbered_injective :
    (prefix : String) (m n : ℕ) → prefix ^^ number_text m ≡ prefix ^^ number_text n → m ≡ n
numbered_injective prefix m n e =
    sym (number_after-append prefix m) ∙ ap (number_after prefix) e ∙ number_after-append prefix n
