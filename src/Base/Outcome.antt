-- ===== src/Base/Outcome.antt =====
-- What a call that may throw comes to: a value, or the message of the error. A method that also
-- changes its object gives the object back beside the outcome, in both cases.
use Prim.Native.String.{String}

pub data Outcome {ℓ} (A : Type ℓ) : Type ℓ where
  returned : A → Outcome A
  threw : String → Outcome A

-- A method on an object of type `S`.
abbrev pub Method {ℓ} : Type ℓ → Type ℓ → Type ℓ
Method S A = S → Outcome A × S

module _ {ℓ} {S A B : Type ℓ} where
  abbrev pub continue : (A → Method S B) → Outcome A → S → Outcome B × S
  continue f (returned a) s = f a s
  continue f (threw e) s = (threw e, s)

  infixl 10 ◌>>=◌ ◌>>◌
  abbrev pub ◌>>=◌ : Method S A → (A → Method S B) → Method S B
  ◌>>=◌ m f s = let (o, s') = m s in continue f o s'

  abbrev pub ◌>>◌ : Method S A → Method S B → Method S B
  m >> k = m >>= λ _. k

module _ {ℓ} {S A : Type ℓ} where
  abbrev pub pure : A → Method S A
  pure a s = (returned a, s)

  -- A call that changes nothing of the object.
  abbrev pub lift : Outcome A → Method S A
  lift o s = (o, s)

  abbrev pub handle : (String → Method S A) → Outcome A → S → Outcome A × S
  handle k (returned a) s = (returned a, s)
  handle k (threw e) s = k e s

  -- `try { m } catch (cause) { k }`
  abbrev pub catching : Method S A → (String → Method S A) → Method S A
  catching m k s = let (o, s') = m s in handle k o s'
