-- ===== src/Ids/Hex.antt =====
-- The text of a `TenantId` (crates/skeg-rigging/src/ids.rs) read back.
use skeg_rigging.Base.{
  ℕ, ◌+◌, ◌-◌, ◌*◌, ◌/◌, ◌%◌, ◌<◌, ◌≡◌, refl, ap, ◌∙◌, true, Option, none, some, List, [], ◌∷◌,
  length, All, ltb, ==_iff, arith, if◌then◌else◌,
}
use skeg_rigging.Text.{Str}
use skeg_rigging.Ids.{
  TenantId, anonymous, zeros, bytes_eq, is_zero, hex_digit, hex_bytes, tenant_text,
}

abbrev IsByte : ℕ → Type 0
IsByte b = b < 256

abbrev digit_value : ℕ → Option ℕ
digit_value c =
    if ltb c b'0'
    then none
    else if ltb c (b'0' + 10)
    then some (c - b'0')
    else if ltb c b'a'
    then none
    else if ltb c (b'a' + 6)
    then some (c - b'a' + 10)
    else none

abbrev push_byte : Option ℕ → Option ℕ → Option (List ℕ) → Option (List ℕ)
push_byte (some hi) (some lo) (some bytes) = some ((hi * 16 + lo) ∷ bytes)
push_byte _ _ _ = none

-- The bytes of a text of pairs of lower-case hexadecimal digits.
parse_hex : Str → Option (List ℕ)
parse_hex [] = some []
parse_hex (c ∷ []) = none
parse_hex (c ∷ d ∷ s) = push_byte (digit_value c) (digit_value d) (parse_hex s)

digit_value-hex_digit : (d : ℕ) → d < 16 → digit_value (hex_digit d) ≡ some d
digit_value-hex_digit d h = ground arith

parse_hex-hex_bytes : (bytes : List ℕ) → All IsByte bytes → parse_hex (hex_bytes bytes) ≡ some bytes
unfolding parse_hex hex_bytes
parse_hex-hex_bytes [] h = refl
parse_hex-hex_bytes (b ∷ bytes) h =
    rw
      (
        digit_value-hex_digit (b / 16) (omega (arith, h.0)),
        digit_value-hex_digit (b % 16) (omega arith),
        parse_hex-hex_bytes bytes h.1,
      )
      (ap (λ n. some (n ∷ bytes)) (omega arith))

length-hex_bytes : (bytes : List ℕ) → length (hex_bytes bytes) ≡ length bytes * 2
unfolding hex_bytes
length-hex_bytes [] = refl
length-hex_bytes (b ∷ bytes) = ground (arith, length-hex_bytes bytes)

-- The text of an id of sixteen bytes has 32 characters, and gives back the bytes.
parse_hex-tenant_text :
    (id : TenantId)
    → All IsByte id.bytes
    → length id.bytes ≡ 16
    → (parse_hex (tenant_text id) ≡ some id.bytes) × (length (tenant_text id) ≡ 32)
unfolding tenant_text
parse_hex-tenant_text id h size =
    (parse_hex-hex_bytes id.bytes h, length-hex_bytes id.bytes ∙ omega (arith, size))

bytes_eq-eq : (left right : List ℕ) → bytes_eq left right ≡ true → left ≡ right
unfolding bytes_eq
bytes_eq-eq [] [] h = refl
bytes_eq-eq [] (b ∷ right) h = cc
bytes_eq-eq (a ∷ left) [] h = cc
bytes_eq-eq (a ∷ left) (b ∷ right) h = ground (arith, ==_iff a b, bytes_eq-eq left right)

-- Only the anonymous id is zero.
is_zero-eq : (id : TenantId) → is_zero id ≡ true → id ≡ anonymous
unfolding is_zero
is_zero-eq id h = ap (λ bytes. record { bytes = bytes }) (bytes_eq-eq id.bytes zeros h)
