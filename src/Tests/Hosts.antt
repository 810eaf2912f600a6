-- ===== src/Tests/Hosts.antt =====
-- A host whose index writes the ids of its vectors into one file, and whose JSON is a list of numbers
-- for sidecars of at most one record with at most one tag.
use skeg_rigging.Base.{
  ℕ, zero, suc, ◌≡◌, refl, sym, ap, ◌∙◌, Bool, true, false, Option, none, some, List, [], ◌∷◌, ◌++◌,
  Result, ok, err, length, take, drop, any, ◌==◌,
}
use mathlib.Core.Option.{some-injective}
use skeg_rigging.Text.{Str, codes, text_eq}
use skeg_rigging.Error.{IoError}
use skeg_rigging.Fs.{missing}
use skeg_rigging.Fs.Tree.{Item, file, Items, find_item}
use skeg_rigging.Fs.Clones.{clone}
use skeg_rigging.Tenant.Engine.{Index}
use skeg_rigging.Tenant.Sidecar.{RecordEntry, MetadataSidecar}
use skeg_rigging.Tenant.Lifecycle.{Host}
use skeg_rigging.Tenant.Reopen.{HostLaws}

abbrev pub vectors_name : Str
vectors_name = codes "vectors.bin"

abbrev vector_of : Bool → ℕ → Option (List ℕ)
vector_of true id = some (id ∷ 1 ∷ [])
vector_of false id = none

instance abbrev pub Index-ids : Index (List ℕ) ℕ
Index-ids = record {
  insert = λ id v ids. (ok tt, id ∷ ids);
  get = λ id ids. ok (vector_of (any (λ j. j == id) ids) id);
  search = λ v n ids. ok [];
  consolidate = λ ids. (ok tt, ids);
}

abbrev flag : Bool → ℕ
flag true = 1
flag false = 0

-- No tag, or one.
abbrev to_vec_entry : ℕ → RecordEntry → List Str → Option (List ℕ)
to_vec_entry dim r [] = some (1 ∷ dim ∷ r.record_id ∷ flag r.shareable ∷ r.payload)
to_vec_entry dim r (tag ∷ []) =
    some (2 ∷ dim ∷ r.record_id ∷ flag r.shareable ∷ length tag ∷ tag ++ r.payload)
to_vec_entry dim r (_ ∷ _ ∷ _) = none

abbrev to_vec_records : List ℕ → ℕ → List RecordEntry → Option (List ℕ)
to_vec_records bytes dim [] = some (0 ∷ dim ∷ bytes)
to_vec_records [] dim (r ∷ []) = to_vec_entry dim r r.tags
to_vec_records (_ ∷ _) dim (_ ∷ _) = none
to_vec_records [] dim (_ ∷ _ ∷ _) = none

abbrev to_vec : MetadataSidecar → Option (List ℕ)
to_vec s = to_vec_records s.tenant_id.bytes s.embedding_dim s.records

abbrev decoded : List ℕ → ℕ → List RecordEntry → Option MetadataSidecar
decoded bytes dim records =
    some (record { tenant_id = record { bytes = bytes }; embedding_dim = dim; records = records })

abbrev decoded_entry : ℕ → ℕ → ℕ → List Str → List ℕ → Option MetadataSidecar
decoded_entry dim id shared tags payload =
    decoded [] dim
      (record { record_id = id; shareable = shared == 1; tags = tags; payload = payload } ∷ [])

abbrev from_slice : List ℕ → Option MetadataSidecar
from_slice (zero ∷ dim ∷ bytes) = decoded bytes dim []
from_slice (suc zero ∷ dim ∷ id ∷ shared ∷ payload) = decoded_entry dim id shared [] payload
from_slice (suc (suc zero) ∷ dim ∷ id ∷ shared ∷ n ∷ rest) =
    decoded_entry dim id shared (take n rest ∷ []) (drop n rest)
from_slice _ = none

take-append : (xs ys : List ℕ) → take (length xs) (xs ++ ys) ≡ xs
take-append [] ys = refl
take-append (x ∷ xs) ys = ap (◌∷◌ x) (take-append xs ys)

drop-append : (xs ys : List ℕ) → drop (length xs) (xs ++ ys) ≡ ys
drop-append [] ys = refl
drop-append (x ∷ xs) ys = drop-append xs ys

flag-one : (b : Bool) → (flag b == 1) ≡ b
flag-one true = refl
flag-one false = refl

from_slice-to_vec_tags :
    (dim id : ℕ) (shareable : Bool) (tags : List Str) (payload bytes : List ℕ)
    → to_vec (record {
      tenant_id = record { bytes = [] };
      embedding_dim = dim;
      records =
          record { record_id = id; shareable = shareable; tags = tags; payload = payload } ∷ [];
    })
      ≡ some bytes
    → from_slice bytes
      ≡ decoded [] dim
          (record { record_id = id; shareable = shareable; tags = tags; payload = payload } ∷ [])
from_slice-to_vec_tags dim id shareable [] payload bytes h =
    ap from_slice (sym (some-injective _ _ h)) ∙ rw (flag-one shareable) refl
from_slice-to_vec_tags dim id shareable (tag ∷ []) payload bytes h =
    ap from_slice (sym (some-injective _ _ h))
    ∙ rw (flag-one shareable, take-append tag payload, drop-append tag payload) refl
from_slice-to_vec_tags dim id shareable (_ ∷ _ ∷ _) payload bytes h = absurd (cc)

pub from_slice-to_vec_records :
    (dim : ℕ) (own : List ℕ) (records : List RecordEntry) (bytes : List ℕ)
    → to_vec_records own dim records ≡ some bytes
    → from_slice bytes ≡ decoded own dim records
from_slice-to_vec_records dim own [] bytes h = ap from_slice (sym (some-injective _ _ h))
from_slice-to_vec_records dim [] (r ∷ []) bytes h =
    from_slice-to_vec_tags dim r.record_id r.shareable r.tags r.payload bytes h
from_slice-to_vec_records dim (_ ∷ _) (_ ∷ _) bytes h = absurd (cc)
from_slice-to_vec_records dim [] (_ ∷ _ ∷ _) bytes h = absurd (cc)

abbrev ids_of : Option Item → Result IoError (List ℕ)
ids_of (some (file ids)) = ok ids
ids_of _ = err missing

abbrev found_ids : Option Items → Result IoError (List ℕ)
found_ids none = err missing
found_ids (some items) = ids_of (find_item vectors_name (clone items))

-- Without faults; a new index is empty.
abbrev pub host : Host (List ℕ)
host = record {
  faults = λ access. none;
  to_vec = to_vec;
  from_slice = from_slice;
  open_index = λ dir dirs. (found_ids (dirs dir), dirs);
  create_empty = λ dir dim l_search dirs. (ok [], dirs);
  dim = λ ids. 2;
}

abbrev pub HostLaws-ids : HostLaws (List ℕ) ℕ host
unfolding text_eq
HostLaws-ids = record {
  from_slice-to_vec =
      λ s bytes h. from_slice-to_vec_records s.embedding_dim s.tenant_id.bytes s.records bytes h;
  Stands = λ ids items. find_item vectors_name (clone items) ≡ some (file ids);
  Stands_same = λ ids a b stands same. same vectors_name refl ∙ stands;
  open-Stands =
      λ ids dir dirs items found stands. (ids, dirs, rw (found, stands) refl, (λ id. refl, refl));
}
