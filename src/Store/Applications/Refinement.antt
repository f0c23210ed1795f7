-- ===== src/Store/Applications/Refinement.antt =====
-- The repository refines a table: a function from ids to applications, with each method as one
-- update of it. The order of the entries is forgotten.
use open_xai_connect.Base.{
  if◌then◌else◌, ◌==◌, nat_eqs, string_eqs, Option-cases, lookup, lookup-insert, lookup-delete,
  int_eqs, StoreError, Result, store, ok, err, String, ◌≡◌, ap, ◌∙◌, inl, inr, Option, none, some,
  arith, eq_iff,
}
use open_xai_connect.Base.Exec.{Exec}
use open_xai_connect.Domain.Status.{ApplicationStatus, status_eqs}
use open_xai_connect.Domain.Application.{Application, Time, transition}
use open_xai_connect.Store.Applications.{
  Applications, create, with_times, with_default_status, get, transition_app, save, delete_app,
}

abbrev pub Table : Type 0
Table = String → Option Application

abbrev pub update : String → Option Application → Table → Table
update k v t j = if k == j then v else t j

-- A call of a method that reads or changes one entry.
pub data Call : Type 0 where
  creates : Application → Time → Call
  gets : String → Call
  transitions : String → ApplicationStatus → ApplicationStatus → Time → Call
  saves : Application → Call
  deletes : String → Call

abbrev no_value : Result (Unit {0}) → Result (Option Application)
no_value (ok _) = ok none
no_value (err e) = err e

abbrev value : Result Application → Result (Option Application)
value (ok app) = ok (some app)
value (err e) = err e

pub run : Call → Exec Applications (Option Application)
run (creates app now) m = let (r, m') = create app now m in (no_value r, m')
run (gets id) m = let (r, m') = get id m in (value r, m')
run (transitions id from to now) m = let (r, m') = transition_app id from to now m in (value r, m')
run (saves app) m = let (r, m') = save app m in (no_value r, m')
run (deletes id) m = let (r, m') = delete_app id m in (no_value r, m')

-- What a caller is promised of each method, by what the table holds at the id.
pub promised : Call → Option Application → Result (Option Application) × Option Application
promised (creates app now) none = (ok none, some (with_times now (with_default_status app)))
promised (creates app now) (some old) = (err (store StoreError.conflict), some old)
promised (gets id) none = (err (store StoreError.not_found), none)
promised (gets id) (some old) = (ok (some old), some old)
promised (transitions id from to now) none = (err (store StoreError.not_found), none)
promised (transitions id from to now) (some old) =
    if old.status == from
    then (elim (transition old to now) [
      | ok moved ↦ (ok (some moved), some moved)
      | err e ↦ (err e, some old)
    ])
    else (err (store StoreError.conflict), some old)
promised (saves app) none = (err (store StoreError.not_found), none)
promised (saves app) (some old) = (ok none, some app)
promised (deletes id) none = (err (store StoreError.not_found), none)
promised (deletes id) (some old) = (ok none, none)

abbrev pub target : Call → String
target (creates app now) = app.id
target (gets id) = id
target (transitions id from to now) = id
target (saves app) = app.id
target (deletes id) = id

pub specified : Call → Table → Result (Option Application) × Table
specified c t = let (r, v) = promised c (t (target c)) in (r, update (target c) v t)

-- The map and the table hold the same.
abbrev pub Shows : Applications → Table → Type 0
Shows m t = (id : String) → lookup id m ≡ t id

step_result : (c : Call) (m : Applications) → (run c m).0 ≡ (promised c (lookup (target c) m)).0
unfolding run promised create get transition_app save delete_app
step_result (creates app now) m = ground arith
step_result (gets id) m = ground arith
step_result (transitions id from to now) m = ground arith
step_result (saves app) m = ground arith
step_result (deletes id) m = ground arith

step_entry :
    (c : Call) (m : Applications) (j : String)
    → lookup j (run c m).1
      ≡ (if target c == j then (promised c (lookup (target c) m)).1 else lookup j m)
unfolding run promised create get transition_app save delete_app transition
step_entry (creates app now) m j =
    ground
      (arith, eq_iff app.id j, lookup-insert app.id j (with_times now (with_default_status app)) m)
step_entry (gets id) m j = ground (arith, eq_iff id j)
step_entry (transitions id from to now) m j = elim (Option-cases (lookup id m)) [
  | inl e ↦ ground (arith, eq_iff id j)
  | inr (old, e) ↦
      ground
        (arith, eq_iff id j, lookup-insert id j (record old { status = to; updated_at = now }) m)
]
step_entry (saves app) m j = ground (arith, eq_iff app.id j, lookup-insert app.id j app m)
step_entry (deletes id) m j = ground (arith, eq_iff id j, lookup-delete id j m)

-- Every method on one entry does what the table promises: the same result, and afterwards the map
-- shows the updated table.
pub run-refines :
    (c : Call) (m : Applications) (t : Table)
    → Shows m t
    → ((run c m).0 ≡ (specified c t).0) × Shows (run c m).1 (specified c t).1
unfolding specified
run-refines c m t shows = (
  step_result c m ∙ ap (λ v. (promised c v).0) (shows (target c)),
  λ j. cc (step_entry c m j, shows (target c), shows j),
)
