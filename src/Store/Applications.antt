-- ===== src/Store/Applications.antt =====
-- internal/store/memory/memory.go: the application repository.
pub mod Laws
pub mod Counted
pub mod Refinement
use open_xai_connect.Base.{
  ltb, if◌then◌else◌, ◌==◌, nat_eqs, string_eqs, length, Map, lookup, insert, delete, int_eqs,
  StoreError, Result, store, ok, err, ℕ, String, Bool, ◌&&◌, none, some, List, [], ◌∷◌,
}
use open_xai_connect.Base.Exec.{Exec}
use open_xai_connect.Domain.Status.{ApplicationStatus, status_eqs}
use open_xai_connect.Domain.Application.{Application, Time, is_zero, transition, is_open}

abbrev pub Applications : Type 0
Applications = Map String Application

unfoldable pub with_default_status : Application → Application
with_default_status app =
    if app.status == ApplicationStatus.unset
    then record app { status = ApplicationStatus.draft }
    else app

unfoldable pub with_times : Time → Application → Application
with_times now app =
    let created = if is_zero app.created_at then now else app.created_at in
    let updated = if is_zero app.updated_at then created else app.updated_at in
    record app { created_at = created; updated_at = updated }

unfoldable pub create : Application → Time → Exec Applications (Unit {0})
create app now data_ = elim (lookup app.id data_) [
  | some _ ↦ (err (store StoreError.conflict), data_)
  | none ↦ (ok tt, insert app.id (with_times now (with_default_status app)) data_)
]

unfoldable pub get : String → Exec Applications Application
get id data_ = elim (lookup id data_) [
  | none ↦ (err (store StoreError.not_found), data_)
  | some app ↦ (ok app, data_)
]

first_with_client : String → Applications → Result Application
first_with_client client_id [] = err (store StoreError.not_found)
first_with_client client_id ((_, app) ∷ rest) =
    if app.client_id == client_id then ok app else first_with_client client_id rest

unfoldable pub get_by_client_id : String → Exec Applications Application
unfolding first_with_client
get_by_client_id client_id data_ = (first_with_client client_id data_, data_)

unfoldable pub values_if : (Application → Bool) → Applications → List Application
values_if p [] = []
values_if p ((_, app) ∷ rest) = let more = values_if p rest in if p app then app ∷ more else more

insert_by_created : Application → List Application → List Application
insert_by_created app [] = app ∷ []
insert_by_created app (other ∷ rest) =
    if ltb other.created_at app.created_at
    then other ∷ insert_by_created app rest
    else app ∷ other ∷ rest

-- sort.Slice leaves the order of equal times open; this is one of its results
unfoldable pub sort_by_created : List Application → List Application
unfolding insert_by_created
sort_by_created [] = []
sort_by_created (app ∷ rest) = insert_by_created app (sort_by_created rest)

unfoldable pub list_by_owner : String → Exec Applications (List Application)
list_by_owner owner data_ =
    (ok (sort_by_created (values_if (λ app. app.owner_subject == owner) data_)), data_)

unfoldable pub list_by_status : ApplicationStatus → Exec Applications (List Application)
list_by_status status data_ =
    (ok (sort_by_created (values_if (λ app. app.status == status) data_)), data_)

unfoldable pub count_open_by_owner : String → Exec Applications ℕ
count_open_by_owner owner data_ =
    (ok (length (values_if (λ app. (app.owner_subject == owner) && is_open app) data_)), data_)

move :
    String
    → ApplicationStatus
    → ApplicationStatus
    → Time
    → Application
    → Exec Applications Application
move id from to now app data_ =
    if app.status == from
    then (elim (transition app to now) [
      | err e ↦ (err e, data_)
      | ok moved ↦ (ok moved, insert id moved data_)
    ])
    else (err (store StoreError.conflict), data_)

unfoldable pub transition_app :
    String → ApplicationStatus → ApplicationStatus → Time → Exec Applications Application
unfolding move
transition_app id from to now data_ = elim (lookup id data_) [
  | none ↦ (err (store StoreError.not_found), data_)
  | some app ↦ move id from to now app data_
]

unfoldable pub save : Application → Exec Applications (Unit {0})
save app data_ = elim (lookup app.id data_) [
  | none ↦ (err (store StoreError.not_found), data_)
  | some _ ↦ (ok tt, insert app.id app data_)
]

unfoldable pub delete_app : String → Exec Applications (Unit {0})
delete_app id data_ = elim (lookup id data_) [
  | none ↦ (err (store StoreError.not_found), data_)
  | some _ ↦ (ok tt, delete id data_)
]
