-- ===== src/Store/Consents.antt =====
-- internal/store/memory/memory.go: the consent repository. The key is the two ids with a zero
-- character between them.
use Prim.Native.Char.{nul}
use Prim.Native.String.{◌++◌ as append}
use open_xai_connect.Base.{
  nat_eqs, string_eqs, Map, lookup, insert, delete, int_eqs, StoreError, store, ok, err, String,
  none, some,
}
use open_xai_connect.Base.Exec.{Exec}
use open_xai_connect.Domain.Records.{Consent}

abbrev pub Consents : Type 0
Consents = Map String Consent

unfoldable pub consent_key : String → String → String
consent_key user app = append user (String.◌∷◌ nul app)

unfoldable pub get : String → String → Exec Consents Consent
get user app data_ = elim (lookup (consent_key user app) data_) [
  | none ↦ (err (store StoreError.not_found), data_)
  | some consent ↦ (ok consent, data_)
]

unfoldable pub put : Consent → Exec Consents (Unit {0})
put consent data_ =
    (ok tt, insert (consent_key consent.user_subject consent.application_id) consent data_)

unfoldable pub delete_consent : String → String → Exec Consents (Unit {0})
delete_consent user app data_ = (ok tt, delete (consent_key user app) data_)
