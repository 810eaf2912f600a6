-- ===== src/Text/Decimal.antt =====
-- A number as `{}` prints it.
use skeg_rigging.Base.{ℕ, zero, suc, ◌+◌, ◌/◌, ◌%◌, [], ◌∷◌, ltb, if◌then◌else◌}
use skeg_rigging.Text.{Str}

-- The digits of `n` in front of `s`; a number has fewer digits than the fuel `n + 1`.
digits_onto : ℕ → ℕ → Str → Str
digits_onto zero n s = s
digits_onto (suc fuel) n s =
    let more = digits_onto fuel (n / 10) ((b'0' + n % 10) ∷ s) in
    if ltb n 10 then (b'0' + n) ∷ s else more

unfoldable pub decimal : ℕ → Str
unfolding digits_onto
decimal n = digits_onto (suc n) n []
