-- ===== src/Issuer/Storage.antt =====
-- `EnrollmentStore` (blindage/issuer/storage.py): the rows of the table by primary key. Dates and
-- times are read back as they were written.
use blind_age.Base.{String, Option, none, some}
use blind_age.Base.Dict.{Dict, get, put}
use blind_age.Base.Result.{Result, ok, err}
use blind_age.Issuer.Eligibility.{Date}
use blind_age.Schemas.Issuer.{Time}

pub record Enrollment : Type 0 where
  pub date_of_birth : Date
  pub expires_at : Time

abbrev pub EnrollmentStore : Type 0
EnrollmentStore = Dict Enrollment

-- `sqlite3.IntegrityError`, on a key that is there.
pub data StorageError : Type 0 where
  integrity_error : StorageError

-- `uuid` is the identifier that `uuid.uuid4` gives.
unfoldable pub create :
    EnrollmentStore → (uuid : String) → Date → Time → Result StorageError EnrollmentStore
unfolding get put
create store uuid date_of_birth expires_at = elim (get store uuid) [
  | some _ ↦ err integrity_error
  | none ↦ ok (put store uuid (record { date_of_birth = date_of_birth; expires_at = expires_at }))
]

unfoldable pub find_enrollment : EnrollmentStore → String → Option Enrollment
unfolding get
find_enrollment store enrollment_id = get store enrollment_id
