-- ===== src/Mock/Rejects.antt =====
-- What `insert` of crates/skeg-rigging/src/mock.rs rejects, and what an overwrite does to the
-- usage.
use Prim.Native.String.{String}
use skeg_rigging.Base.{
  ℕ, ◌<◌, ◌≡◌, ◌⊎◌, refl, sym, ap, ◌∙◌, inl, inr, true, false, Option, none, some, Result, ok, err,
  returned, length, arith, ==_iff, as_u32, as_u64, add_u64, >>=-eq-err, Bool-cases,
}
use skeg_rigging.Error.{QuotaError, exceeded}
use skeg_rigging.Quota.{Quota}
use skeg_rigging.Event.Channel.{Channels}
use skeg_rigging.Mock.{
  MockRecord, MockTenant, size, bytes_on_disk, check_cap, check_quota, write, finish, insert,
}
use skeg_rigging.Mock.Records.{has, insert-err}
use skeg_rigging.Mock.Valid.{Fits, insert-returned}
use skeg_rigging.Mock.Caps.{Under, checks}

-- A cap that the attempted value passes, with the error that reports the two.
abbrev pub Passes : String → Option ℕ → ℕ → QuotaError → Type 0
Passes dimension limit n e = (l : ℕ) × (limit ≡ some l) × (l < n) × (e ≡ exceeded dimension l n)

check_cap-Passes :
    (dimension : String) (limit : Option ℕ) (n : ℕ) (e : QuotaError)
    → check_cap dimension limit n ≡ err e
    → Passes dimension limit n e
unfolding check_cap
check_cap-Passes dimension none n e h = cc
check_cap-Passes dimension (some l) n e h = (l, refl, ground arith, ground arith)

check_cap_accepts :
    (dimension : String) (limit : Option ℕ) (n : ℕ)
    → Under n limit
    → check_cap dimension limit n ≡ ok tt
unfolding check_cap
check_cap_accepts dimension none n h = refl
check_cap_accepts dimension (some l) n h = ground arith

checks-Passes :
    (q : Quota) (records bytes : ℕ) (e : QuotaError)
    → checks q records bytes ≡ err e
    → Passes "records" q.max_records records e ⊎ Passes "bytes" q.max_bytes bytes e
checks-Passes q records bytes e h =
    elim (>>=-eq-err (check_cap "records" q.max_records records)
      (λ _. check_cap "bytes" q.max_bytes bytes) h) [
        | inl first ↦ inl (check_cap-Passes "records" q.max_records records e first)
        | inr (_, _, second) ↦ inr (check_cap-Passes "bytes" q.max_bytes bytes e second)
      ]

module _ {F : Type 0} where
  -- The values that a new record would bring the two dimensions to.
  abbrev pub next_records : MockTenant F → ℕ
  next_records t = add_u64 (as_u64 (length t.records)) 1

  abbrev pub next_bytes : MockRecord F → MockTenant F → ℕ
  next_bytes rec t = add_u64 (bytes_on_disk t) (size rec)

  finish-err :
      (checked : Result QuotaError (Unit {0})) (rec : MockRecord F) (t t' : MockTenant F)
      (cs cs' : Channels) (e : QuotaError)
      → finish checked rec t cs ≡ (err e, t', cs')
      → checked ≡ err e
  unfolding finish
  finish-err (ok _) rec t t' cs cs' e h =
      ap (λ (o : Result QuotaError (Unit {0}) × MockTenant F × Channels). o.0) h
  finish-err (err _) rec t t' cs cs' e h =
      ap (λ (o : Result QuotaError (Unit {0}) × MockTenant F × Channels). o.0) h

  check_quota-fresh :
      (rec : MockRecord F) (t : MockTenant F)
      → has rec.record_id t ≡ false
      → check_quota rec t ≡ checks t.quota (next_records t) (next_bytes rec t)
  unfolding check_quota
  check_quota-fresh rec t fresh = rw fresh

  check_quota-overwrite :
      (rec : MockRecord F) (t : MockTenant F)
      → has rec.record_id t ≡ true
      → check_quota rec t ≡ ok tt
  unfolding check_quota
  check_quota-overwrite rec t old = rw old

  check_quota-room :
      (rec : MockRecord F) (t : MockTenant F)
      → Under (next_records t) t.quota.max_records
      → Under (next_bytes rec t) t.quota.max_bytes
      → check_quota rec t ≡ ok tt
  check_quota-room rec t records bytes = elim (Bool-cases (has rec.record_id t)) [
    | inl old ↦ check_quota-overwrite rec t old
    | inr fresh ↦
        check_quota-fresh rec t fresh
        ∙ rw (
          check_cap_accepts "records" t.quota.max_records (next_records t) records,
          check_cap_accepts "bytes" t.quota.max_bytes (next_bytes rec t) bytes,
        )
  ]

  accepts_of_check :
      (rec : MockRecord F) (t : MockTenant F) (cs : Channels)
      → Fits t.dim rec
      → check_quota rec t ≡ ok tt
      → insert rec t cs ≡ returned (ok tt, (write rec t cs).0, (write rec t cs).1)
  unfolding insert finish
  accepts_of_check rec t cs fits checked =
      rw ((==_iff (as_u32 (length rec.embedding)) t.dim).1 fits, checked)

  -- A rejected write had a new id, and its error names a dimension whose cap the write would pass,
  -- with that cap and the value attempted.
  pub insert-Passes :
      (rec : MockRecord F) (t t' : MockTenant F) (cs cs' : Channels) (e : QuotaError)
      → insert rec t cs ≡ returned (err e, t', cs')
      → (has rec.record_id t ≡ false)
        × (Passes "records" t.quota.max_records (next_records t) e
            ⊎ Passes "bytes" t.quota.max_bytes (next_bytes rec t) e)
  insert-Passes rec t t' cs cs' e h =
      let (_, out) = insert-returned rec t cs (err e, t', cs') h in
      let (_, _, fresh) = insert-err rec t t' cs cs' e h in
      (
        fresh,
        checks-Passes t.quota (next_records t) (next_bytes rec t) e (
            sym (check_quota-fresh rec t fresh)
            ∙ finish-err (check_quota rec t) rec t t' cs cs' e out),
      )

  -- A write of the tenant's dimension is accepted if it overwrites, or if the caps leave room.
  pub insert_accepts :
      (rec : MockRecord F) (t : MockTenant F) (cs : Channels)
      → Fits t.dim rec
      → (has rec.record_id t ≡ true)
        ⊎ (Under (next_records t) t.quota.max_records × Under (next_bytes rec t) t.quota.max_bytes)
      → insert rec t cs ≡ returned (ok tt, (write rec t cs).0, (write rec t cs).1)
  insert_accepts rec t cs fits (inl old) =
      accepts_of_check rec t cs fits (check_quota-overwrite rec t old)
  insert_accepts rec t cs fits (inr (records, bytes)) =
      accepts_of_check rec t cs fits (check_quota-room rec t records bytes)
