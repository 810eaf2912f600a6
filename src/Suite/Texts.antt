-- ===== src/Suite/Texts.antt =====
-- The tests of crates/skeg-rigging/src/ids.rs.
use skeg_rigging.Base.{◌≡◌, refl, not, Outcome, ltb, ◌==◌}
use skeg_rigging.Ids.{RecordId, anonymous, bytes_eq, is_zero, tenant_text}
use skeg_rigging.Text.{codes}
use skeg_rigging.Suite.{◌>>=◌, assert, passed}
use skeg_rigging.Suite.Bridges.{sixteen}

abbrev tenant_id_hex_display : Outcome (Unit {0})
tenant_id_hex_display =
    assert (bytes_eq (tenant_text (sixteen 0xab)) (codes "abababababababababababababababab"))

abbrev record_id_eq_and_order : Outcome (Unit {0})
record_id_eq_and_order =
    let (one, two, seven) : RecordId × RecordId × RecordId = (1, 2, 7) in
    do _ ← assert (ltb one two); assert (seven == seven)

abbrev zero_sentinel : Outcome (Unit {0})
zero_sentinel = do _ ← assert (is_zero anonymous); assert (not (is_zero (sixteen 1)))

texts_pass :
    (tenant_id_hex_display ≡ passed) × (record_id_eq_and_order ≡ passed) × (zero_sentinel ≡ passed)
unfolding tenant_text is_zero bytes_eq
texts_pass = (refl, refl, refl)
