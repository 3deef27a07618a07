-- ===== src/Prelude/Exceptions.antt =====
-- Python's exceptions as values: a call returns, or raises one of the exceptions that some
-- handler of the node tells apart. `other` stands for every exception that only `except Exception`
-- catches.
use Prim.Native.String.{String}
use mathlib.Core.Path.{◌≡◌, refl}
use mathlib.Core.Logic.{◌⊎◌, inl, inr}

pub data Exn : Type 0 where
  key_error deduplication not_confirmed timeout not_enough_stake report_formatting : Exn
  value_error other : String → Exn

-- The end of a call: the value it gives back, or what it raises.
pub data Result {ℓ} (T : Type ℓ) : Type ℓ where
  raise : Exn → Result T
  ok : T → Result T

-- The statements that follow a call are not reached once it has raised.
infixl 5 ◌>>=◌
abbrev pub ◌>>=◌ {ℓ κ} :
    {S : Type ℓ} {T : Type κ} (call : Result S) (following : S → Result T) → Result T
raise e >>= following = raise e
ok value >>= following = following value

-- A chain has returned only if its first call has, and the rest of it on what that gave.
pub >>=-eq-ok {ℓ κ} :
    {S : Type ℓ} {T : Type κ} (call : Result S) (following : S → Result T) {result : T}
    → (call >>= following) ≡ ok result
    → (value : S) × (call ≡ ok value) × (following value ≡ ok result)
>>=-eq-ok (raise e) following returned = cc
>>=-eq-ok (ok value) following returned = (value, refl, returned)

pub ok-injective {ℓ} : {A : Type ℓ} {a b : A} → ok a ≡ ok b → a ≡ b
ok-injective h = cc

pub Result-cases {ℓ} :
    {A : Type ℓ} (r : Result A) → ((a : A) × (r ≡ ok a)) ⊎ ((e : Exn) × (r ≡ raise e))
Result-cases (ok a) = inl (a, refl)
Result-cases (raise e) = inr (e, refl)
