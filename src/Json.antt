-- ===== src/Json.antt =====
-- JSON values as the code receives them: the Python objects that `json.loads` builds.
use netbox_openbao.Prelude.{ℕ, String, Bool, true, false, List, [], ◌∷◌, not, ◌==◌, str_eq}

-- `negsuc n` is -(n + 1).
pub data ℤ : Type 0 where
  pos negsuc : ℕ → ℤ

-- A float: not a number, an infinity of either sign, or a decimal `digits * 10 ^ -scale`.
pub data Float : Type 0 where
  nan : Float
  infinite : Bool → Float
  decimal : ℤ → ℕ → Float

mutual
  pub data Value : Type 0 where
    null : Value
    bool : Bool → Value
    int : ℤ → Value
    float : Float → Value
    text : String → Value
    array : Items → Value
    object : Fields → Value

  pub data Items : Type 0 where
    nil : Items
    cons : Value → Items → Items

  pub data Fields : Type 0 where
    end : Fields
    field : String → Value → Fields → Fields

abbrev pub Payload : Type 0
Payload = List (String × Value)

-- `data.items()`
unfoldable pub entries : Fields → Payload
entries end = []
entries (field k v rest) = (k, v) ∷ entries rest

abbrev zero_ℤ : ℤ → Bool
zero_ℤ (pos n) = n == 0
zero_ℤ (negsuc n) = false

-- `bool(value)`
unfoldable pub truthy : Value → Bool
truthy null = false
truthy (bool b) = b
truthy (int n) = not (zero_ℤ n)
truthy (float nan) = true
truthy (float (infinite _)) = true
truthy (float (decimal digits _)) = not (zero_ℤ digits)
truthy (text s) = not (str_eq s "")
truthy (array nil) = false
truthy (array (cons _ _)) = true
truthy (object end) = false
truthy (object (field _ _ _)) = true

-- `value in (None, '')`
unfoldable pub is_blank : Value → Bool
is_blank null = true
is_blank (text s) = str_eq s ""
is_blank _ = false
