-- ===== src/Prelude/Results.antt =====
-- Code that may throw: a result, or the message of the error.
use mathlib.Core.Path.{◌≡◌, refl}
use mathlib.Core.Bool.{Bool, true, false}
use Prim.Native.String.{String}

pub data Result {ℓ} (X : Type ℓ) : Type ℓ where
  thrown : String → Result X
  ok : X → Result X

-- `if (bad) throw new Error(message)`
abbrev pub throw_if : Bool → String → Result (Unit {0})
throw_if true e = thrown e
throw_if false e = ok tt

-- what follows a call that may throw; `m >> k` drops the value
infixl 5 ◌>>=◌ ◌>>◌
abbrev pub ◌>>=◌ {ℓ₁ ℓ₂} : {X : Type ℓ₁} {Y : Type ℓ₂} → Result X → (X → Result Y) → Result Y
thrown message >>= next = thrown message
ok value >>= next = next value

abbrev pub ◌>>◌ {ℓ} : {Y : Type ℓ} → Result (Unit {0}) → Result Y → Result Y
first >> second = first >>= λ nothing. second

pub throw_if-eq-ok : (b : Bool) (e : String) {u : Unit {0}} → throw_if b e ≡ ok u → b ≡ false
throw_if-eq-ok true e h = cc
throw_if-eq-ok false e h = refl

-- a chain that succeeds went through its first call
pub bind-eq-ok {ℓ₁ ℓ₂} :
    {X : Type ℓ₁} {Y : Type ℓ₂} (call : Result X) (next : X → Result Y) {y : Y}
    → (call >>= next) ≡ ok y
    → (x : X) × (call ≡ ok x) × (next x ≡ ok y)
bind-eq-ok (thrown message) next done = cc
bind-eq-ok (ok x) next done = (x, refl, done)
