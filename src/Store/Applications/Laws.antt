-- ===== src/Store/Applications/Laws.antt =====
-- What the methods of the application repository do to the entry of each id.
use open_xai_connect.Base.{
  nat_eqs, string_eqs, Option-cases, lookup, insert, int_eqs, Error, ok, err, String, ◌≡◌, inl, inr,
  true, some, arith,
}
use open_xai_connect.Domain.Status.{ApplicationStatus, status_eqs, status_eq_iff, valid_transition}
use open_xai_connect.Domain.Application.{Application, Time, transition}
use open_xai_connect.Store.Applications.{Applications, transition_app}

-- A transition is a compare-and-set: it succeeds exactly if the stored status is `from` and the step
-- is allowed, and then it writes the status and the time of that entry and nothing else.
abbrev pub Moved :
    String
    → ApplicationStatus
    → ApplicationStatus
    → Time
    → Applications
    → Application
    → Applications
    → Type 0
Moved id from to now m moved m' =
    (app : Application) × (lookup id m ≡ some app)
    × (app.status ≡ from)
    × (valid_transition from to ≡ true)
    × (moved ≡ record app { status = to; updated_at = now })
    × (m' ≡ insert id moved m)

-- A successful transition found an application under the id in the status `from`, the step is allowed,
-- and it wrote the new status and the time into that entry and nothing else.
pub transition_app-Moved :
    (id : String) (from to : ApplicationStatus) (now : Time) (m m' : Applications)
    (moved : Application)
    → transition_app id from to now m ≡ (ok moved, m')
    → Moved id from to now m moved m'
unfolding transition_app transition
transition_app-Moved id from to now m m' moved h = elim (Option-cases (lookup id m)) [
  | inl e ↦ ground arith
  | inr (app, e) ↦ (
    app,
    e,
    ground (arith, status_eq_iff app.status from),
    ground (arith, status_eq_iff app.status from),
    ground arith,
    ground arith,
  )
]

pub transition_app-eq_err :
    (id : String) (from to : ApplicationStatus) (now : Time) (m m' : Applications) (e : Error)
    → transition_app id from to now m ≡ (err e, m')
    → m' ≡ m
unfolding transition_app transition
transition_app-eq_err id from to now m m' e h = ground arith
