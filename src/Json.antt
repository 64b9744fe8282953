-- ===== src/Json.antt =====
-- The values that JSON.parse gives, with whole numbers only, and the tests that the code makes on them.
use open_agent_hub.Prelude.{
  String, Option, none, some, Bool, true, false, if◌then◌else◌, ℤ, str_eq, or_else, ◌≡◌, refl,
}

mutual
  pub data Json : Type 0 where
    null : Json
    boolean : Bool → Json
    number : ℤ → Json
    text : String → Json
    array : Items → Json
    object : Fields → Json

  pub data Items : Type 0 where
    no_items : Items
    item : Json → Items → Items

  pub data Fields : Type 0 where
    no_fields : Fields
    field : String → Json → Fields → Fields

-- The fields of an object, where the value is one: `isUsageObject` guards each access in the source.
abbrev pub fields : Option Json → Option Fields
fields (some (object fs)) = some fs
fields _ = none

-- `o.k`; of two fields with one name JSON.parse keeps the later
unfoldable pub member : String → Fields → Option Json
member k no_fields = none
member k (field j v rest) =
    let later = member k rest in or_else later (if str_eq j k then some v else none)

-- `typeof v === "string" ? v : undefined`
abbrev pub as_text : Option Json → Option String
as_text (some (text s)) = some s
as_text _ = none

abbrev pub is_true : Option Json → Bool
is_true (some (boolean b)) = b
is_true _ = false

abbrev pub says : Option Json → String → Bool
says (some (text s)) t = str_eq s t
says _ t = false

-- `num`, by the reading of texts as numbers
abbrev pub num : (String → Option ℤ) → Option Json → Option ℤ
num read (some (number n)) = some n
num read (some (text s)) = read s
num read _ = none

-- `a === undefined && b === undefined`
abbrev pub both_absent : Option ℤ → Option ℤ → Bool
both_absent none none = true
both_absent _ _ = false

-- `o?.k`
abbrev pub member_in : String → Option Fields → Option Json
member_in k none = none
member_in k (some fs) = member k fs

-- what follows a value that may be absent
abbrev pub and_then {ℓ₁ ℓ₂} : {A : Type ℓ₁} {B : Type ℓ₂} → Option A → (A → Option B) → Option B
and_then none f = none
and_then (some a) f = f a

pub and_then-eq-some {ℓ₁ ℓ₂} :
    {A : Type ℓ₁} {B : Type ℓ₂} (o : Option A) (f : A → Option B) {b : B}
    → and_then o f ≡ some b
    → (a : A) × (o ≡ some a) × (f a ≡ some b)
and_then-eq-some none f h = cc
and_then-eq-some (some a) f h = (a, refl, h)
