-- ===== src/Store/Applications/Counted.antt =====
-- internal/store/memory/memory.go: how many applications ListByStatus returns.
use open_xai_connect.Base.{
  if◌then◌else◌, ◌==◌, nat_eqs, string_eqs, length, int_eqs, ℕ, zero, suc, ◌≡◌, refl, sym, ap, ◌∙◌,
  List, [], ◌∷◌, arith, ok,
}
use open_xai_connect.Domain.Status.{ApplicationStatus, status_eqs}
use open_xai_connect.Domain.Application.{Application}
use open_xai_connect.Store.Applications.{
  Applications, values_if, insert_by_created, sort_by_created, list_by_status,
}

-- How many of the stored applications have the status.
abbrev pub count_in : ApplicationStatus → Applications → ℕ
count_in status [] = zero
count_in status ((_, app) ∷ rest) =
    let more = count_in status rest in if app.status == status then suc more else more

length-insert_by_created :
    (app : Application) (apps : List Application)
    → length (insert_by_created app apps) ≡ suc (length apps)
unfolding insert_by_created
length-insert_by_created app [] = refl
length-insert_by_created app (other ∷ rest) = ground (arith, length-insert_by_created app rest)

length-sort_by_created : (apps : List Application) → length (sort_by_created apps) ≡ length apps
unfolding sort_by_created
length-sort_by_created [] = refl
length-sort_by_created (app ∷ rest) =
    length-insert_by_created app (sort_by_created rest) ∙ ap suc (length-sort_by_created rest)

length-values_if :
    (status : ApplicationStatus) (m : Applications)
    → length (values_if (λ app. app.status == status) m) ≡ count_in status m
unfolding values_if
length-values_if status [] = refl
length-values_if status ((_, app) ∷ rest) = ground (arith, length-values_if status rest)

pub length-list_by_status :
    (status : ApplicationStatus) (m : Applications) (apps : List Application)
    → (list_by_status status m).0 ≡ ok apps
    → length apps ≡ count_in status m
unfolding list_by_status
length-list_by_status status m apps h =
    let listed = sort_by_created (values_if (λ app. app.status == status) m) in
    let same : listed ≡ apps = cc h in
    ap length (sym same) ∙ length-sort_by_created _ ∙ length-values_if status m
