-- ===== src/Ids.antt =====
-- crates/skeg-rigging/src/ids.rs: the two id newtypes.
pub mod Hex
use skeg_rigging.Base.{
  ℕ, ◌+◌, ◌-◌, ◌/◌, ◌%◌, Bool, true, false, ◌&&◌, List, [], ◌∷◌, ltb, ◌==◌, if◌then◌else◌,
}
use skeg_rigging.Text.{Str}
use skeg_rigging.Text.Decimal.{decimal}

-- A `u64` newtype; equality and order are those of the number.
abbrev pub RecordId : Type 0
RecordId = ℕ

-- `Display` of a `RecordId`.
unfoldable pub record_text : RecordId → Str
record_text id = decimal id

-- Sixteen bytes.
pub record TenantId : Type 0 where
  pub bytes : List ℕ

abbrev pub zeros : List ℕ
zeros = 0 ∷ 0 ∷ 0 ∷ 0 ∷ 0 ∷ 0 ∷ 0 ∷ 0 ∷ 0 ∷ 0 ∷ 0 ∷ 0 ∷ 0 ∷ 0 ∷ 0 ∷ 0 ∷ []

abbrev pub anonymous : TenantId
anonymous = record { bytes = zeros }

unfoldable pub bytes_eq : List ℕ → List ℕ → Bool
bytes_eq [] [] = true
bytes_eq (a ∷ left) (b ∷ right) = a == b && bytes_eq left right
bytes_eq [] (_ ∷ _) = false
bytes_eq (_ ∷ _) [] = false

unfoldable pub is_zero : TenantId → Bool
unfolding bytes_eq
is_zero id = bytes_eq id.bytes zeros

-- A digit as `{:x}` prints it.
abbrev pub hex_digit : ℕ → ℕ
hex_digit d = if ltb d 10 then b'0' + d else b'a' + (d - 10)

-- `{b:02x}` of each byte.
unfoldable pub hex_bytes : List ℕ → Str
hex_bytes [] = []
hex_bytes (b ∷ bytes) = hex_digit (b / 16) ∷ hex_digit (b % 16) ∷ hex_bytes bytes

-- `Display` of a `TenantId`.
unfoldable pub tenant_text : TenantId → Str
unfolding hex_bytes
tenant_text id = hex_bytes id.bytes
