-- ===== src/Error.antt =====
-- crates/skeg-rigging/src/error.rs, with the errors of accounting.rs and of the adapter's
-- tenant.rs and their conversions. Messages are not modelled; an I/O error is its kind.
use Prim.Native.String.{String}
use skeg_rigging.Base.{ℕ}

-- `std::io::ErrorKind`: the kinds that the sources name, and any other by a number.
pub data ErrorKind : Type 0 where
  not_found permission_denied already_exists invalid_data other : ErrorKind
  unlisted : ℕ → ErrorKind

-- `std::io::Error`
pub record IoError : Type 0 where
  pub kind : ErrorKind

pub data QueryError : Type 0 where
  embedding_dim_mismatch : (expected got : ℕ) → QueryError
  index_corrupted : QueryError
  io : IoError → QueryError

pub data OpenError : Type 0 where
  not_found permission_denied format : OpenError
  io : IoError → OpenError

open_from_kind : ErrorKind → IoError → OpenError
open_from_kind ErrorKind.not_found e = OpenError.not_found
open_from_kind ErrorKind.permission_denied e = OpenError.permission_denied
open_from_kind _ e = OpenError.io e

-- `impl From<std::io::Error> for OpenError`
unfoldable pub open_from_io : IoError → OpenError
unfolding open_from_kind
open_from_io e = open_from_kind e.kind e

-- `dimension` is the text `"bytes"` or `"records"`.
pub data QuotaError : Type 0 where
  exceeded : (dimension : String) (cap attempted : ℕ) → QuotaError
  io : IoError → QuotaError

-- `impl From<QuotaError> for OpenError`
unfoldable pub open_from_quota : QuotaError → OpenError
open_from_quota (QuotaError.io e) = OpenError.io e
open_from_quota (exceeded dimension cap attempted) =
    OpenError.io (record { kind = ErrorKind.other })

-- `TenantError`: an I/O failure, a JSON failure of the sidecar, a dimension that does not match,
-- or a directory with no tenant.
pub data TenantError : Type 0 where
  io : IoError → TenantError
  json : TenantError
  dim_mismatch : (on_disk requested : ℕ) → TenantError
  not_found : TenantError

-- `impl From<TenantError> for OpenError`
unfoldable pub open_from_tenant : TenantError → OpenError
open_from_tenant (TenantError.io e) = OpenError.io e
open_from_tenant TenantError.not_found = OpenError.not_found
open_from_tenant TenantError.json = OpenError.io (record { kind = ErrorKind.invalid_data })
open_from_tenant (dim_mismatch on_disk requested) =
    OpenError.io (record { kind = ErrorKind.invalid_data })
