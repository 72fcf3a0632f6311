-- ===== src/Prelude/Errors.antt =====
-- What the source throws, and the chain of steps that may throw.
use Prim.Native.Nat.{ℕ}
use Prim.Native.String.{String}
use mathlib.Core.Path.{◌≡◌, refl}
use mathlib.Core.Logic.{◌⊎◌, inl, inr}
use mathlib.Core.Bool.{Bool, true, false}
use mathlib.Core.Option.{Option, none, some}

-- `error` is `new Error(code)`, `http_error` is the HttpError of services/api/src/auth.ts, and
-- `invalid_input` is what a schema's `parse` throws.
pub data Failure : Type 0 where
  error : String → Failure
  http_error : ℕ → String → Failure
  invalid_input : Failure

-- What a call of the source comes to: it throws, or it returns a value.
pub data Result {ℓ} (A : Type ℓ) : Type ℓ where
  err : Failure → Result A
  ok : A → Result A

-- A function that only throws or returns.
abbrev pub Checked : Type 0
Checked = Result (Unit {0})

-- `const value = call; …`
infixl 5 ◌>>=◌
abbrev pub ◌>>=◌ {ℓ κ} : {S : Type ℓ} {T : Type κ} → Result S → (S → Result T) → Result T
err failure >>= rest = err failure
ok value >>= rest = rest value

-- `call; …`
infixl 5 ◌>>◌
abbrev pub ◌>>◌ {κ} : {T : Type κ} → Checked → Result T → Result T
err failure >> rest = err failure
ok _ >> rest = rest

-- `if (test) throw failure;`
abbrev pub throw_if : Bool → Failure → Checked
throw_if false failure = ok tt
throw_if true failure = err failure

-- `if (!value) throw failure;`, for a value that may be undefined.
abbrev pub or_throw {ℓ} : {T : Type ℓ} → Option T → Failure → Result T
or_throw (some value) failure = ok value
or_throw none failure = err failure

abbrev pub is_ok {ℓ} : {T : Type ℓ} → Result T → Bool
is_ok (ok value) = true
is_ok (err failure) = false

-- A chain that returns has returned from its first call.
pub chain-ok {ℓ κ} :
    {S : Type ℓ} {T : Type κ} (call : Result S) (rest : S → Result T) {value : T}
    → (call >>= rest) ≡ ok value
    → (first : S) × (call ≡ ok first) × (rest first ≡ ok value)
chain-ok (err failure) rest h = cc
chain-ok (ok first) rest h = (first, refl, h)

pub ok-injective {ℓ} : {T : Type ℓ} {x y : T} → ok x ≡ ok y → x ≡ y
ok-injective h = cc

pub Result-cases {ℓ} :
    {T : Type ℓ} (call : Result T)
    → ((value : T) × (call ≡ ok value)) ⊎ ((failure : Failure) × (call ≡ err failure))
Result-cases (err failure) = inr (failure, refl)
Result-cases (ok value) = inl (value, refl)

-- A call that returns has a value.
pub is_ok-value {ℓ} :
    {T : Type ℓ} (call : Result T) → is_ok call ≡ true → (value : T) × (call ≡ ok value)
is_ok-value (err failure) h = cc
is_ok-value (ok value) h = (value, refl)
