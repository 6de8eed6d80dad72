-- ===== src/Base/Http.antt =====
-- Exceptions as values: Nest's HTTP exceptions with their messages, and errors of other calls.
use impact_wallet_server.Base.{
  ℕ, String, ◌≡◌, refl, ap, Bool, true, false, Option, none, some, ◌⊎◌, inl, inr,
}

pub data Error : Type 0 where
  bad_request not_found forbidden unauthorized conflict access_denied teapot : String → Error
  internal_server_error : String → Error
  -- `HttpException` with another status
  http_exception : ℕ → String → Error
  -- any other thrown value, with its message
  thrown : String → Error
  -- `throw undefined`
  thrown_undefined : Error

-- `get(err, 'message', err)`
abbrev pub message_of : Error → Option String
message_of (bad_request m) = some m
message_of (not_found m) = some m
message_of (forbidden m) = some m
message_of (unauthorized m) = some m
message_of (conflict m) = some m
message_of (access_denied m) = some m
message_of (teapot m) = some m
message_of (internal_server_error m) = some m
message_of (thrown m) = some m
message_of (http_exception status m) = some m
message_of thrown_undefined = none

-- an access to a field of `null` or `undefined`
abbrev pub type_error : Error
type_error = thrown "Cannot read properties of undefined"

-- What an `async` function comes to.
pub data Result {μ} (Value : Type μ) : Type μ where
  err : Error → Result Value
  ok : Value → Result Value

-- `await`: the rest of the function goes on with the value, an error passes through.
infixl 5 ◌>>=◌
abbrev pub ◌>>=◌ {μ ν} : {X : Type μ} {Y : Type ν} → Result X → (X → Result Y) → Result Y
err thrown_value >>= rest = err thrown_value
ok value >>= rest = rest value

-- `if (c) throw e;`
abbrev pub throw_if : Bool → Error → Result (Unit {0})
throw_if true e = err e
throw_if false e = ok tt

infixl 5 ◌>>◌
abbrev pub ◌>>◌ {ν} : {Y : Type ν} → Result (Unit {0}) → Result Y → Result Y
check >> rest = check >>= λ done. rest

-- `if (isNil(o)) throw e;`, and the value otherwise
abbrev pub or_throw {ℓ} : {A : Type ℓ} → Option A → Error → Result A
or_throw none e = err e
or_throw (some a) e = ok a

-- A function that returns has come past each `await`.
pub >>=-eq-ok {μ ν} :
    {X : Type μ} {Y : Type ν} (first : Result X) (rest : X → Result Y) {y : Y}
    → (first >>= rest) ≡ ok y
    → (x : X) × (first ≡ ok x) × (rest x ≡ ok y)
>>=-eq-ok (err thrown_value) rest returned = cc
>>=-eq-ok (ok value) rest returned = (value, refl, returned)

pub Result-cases {ℓ} :
    {A : Type ℓ} (r : Result A) → ((a : A) × (r ≡ ok a)) ⊎ ((e : Error) × (r ≡ err e))
Result-cases (ok a) = inl (a, refl)
Result-cases (err e) = inr (e, refl)

pub throw_if-ok : (b : Bool) (e : Error) {u : Unit {0}} → throw_if b e ≡ ok u → b ≡ false
throw_if-ok true e h = cc
throw_if-ok false e h = refl

pub ok_inj {ℓ} : {A : Type ℓ} {a b : A} → ok a ≡ ok b → a ≡ b
ok_inj h = cc

pub or_throw-ok {ℓ} :
    {A : Type ℓ} (o : Option A) (e : Error) {a : A} → or_throw o e ≡ ok a → o ≡ some a
or_throw-ok none e h = cc
or_throw-ok (some x) e h = ap some (ok_inj h)

-- Which case of a match on a result, or on an option, its value comes from.
pub match_result {ℓ κ} :
    {A : Type ℓ} {B : Type κ} (r : Result A) (failed : Error → B) (returned : A → B) {b : B}
    → (elim r [ err e ↦ failed e | ok a ↦ returned a ]) ≡ b
    → ((e : Error) × (r ≡ err e) × (failed e ≡ b)) ⊎ ((a : A) × (r ≡ ok a) × (returned a ≡ b))
match_result (err e) failed returned h = inl (e, refl, h)
match_result (ok a) failed returned h = inr (a, refl, h)

pub match_option {ℓ κ} :
    {A : Type ℓ} {B : Type κ} (o : Option A) (missing : B) (present : A → B) {b : B}
    → (elim o [ none ↦ missing | some a ↦ present a ]) ≡ b
    → ((o ≡ none) × (missing ≡ b)) ⊎ ((a : A) × (o ≡ some a) × (present a ≡ b))
match_option none missing present h = inl (refl, h)
match_option (some a) missing present h = inr (a, refl, h)
