-- ===== src/Domain/Application.antt =====
-- internal/domain/application.go: the application. Values are immutable here, so `Clone` is the
-- identity; a method on a pointer returns the new value. A time is the number of nanoseconds since
-- the zero time, so `IsZero` is the test for 0 and `UTC` changes nothing.
use Prim.Native.Nat.{min}
use open_xai_connect.Base.{
  leb, nat_eq, if◌then◌else◌, nat_eqs, string_eqs, ℤ, int_eqs, pos, negsuc, Result,
  invalid_transition, wrapped, ok, err, ℕ, suc, ◌+◌, ◌-◌, ◌/◌, String, Bool, List,
}
use open_xai_connect.Domain.Status.{ApplicationStatus, valid_transition, is_open_status}

abbrev pub Time : Type 0
Time = ℕ

-- A time.Duration, in nanoseconds.
abbrev pub Duration : Type 0
Duration = ℤ

abbrev pub is_zero : Time → Bool
is_zero t = nat_eq t 0

-- t.Add(d); nothing before the zero time is represented
abbrev pub add : Time → Duration → Time
add t (pos n) = t + n
add t (negsuc n) = t - suc n

abbrev pub max_duration : ℕ
max_duration = 9_223_372_036_854_775_807

-- t.Sub(u), which saturates
abbrev pub sub : Time → Time → Duration
sub t u = if leb u t then pos (min (t - u) max_duration) else negsuc (min (u - t - 1) max_duration)

abbrev pub second : ℕ
second = 1_000_000_000

abbrev pub minute : ℕ
minute = 60_000_000_000

-- d / time.Second as an integer, which rounds towards zero
unfoldable pub whole_seconds : Duration → ℤ
whole_seconds (pos n) = pos (n / second)
whole_seconds (negsuc n) = let q = (n + 1) / second in if nat_eq q 0 then pos 0 else negsuc (q - 1)

pub record Application : Type 0 where
  pub id : String
  pub owner_subject : String
  pub name : String
  pub description : String
  pub logo_url : String
  pub callback_urls : List String
  pub verified_domains : List String
  pub status : ApplicationStatus
  pub require_pkce_nonce : Bool
  pub client_id : String
  pub encrypted_client_secret : String
  pub secret_version : ℤ
  pub review_note : String
  pub reviewed_by : String
  pub created_at : Time
  pub updated_at : Time

-- (*Application).Transition; the error's text names the two statuses
unfoldable pub transition : Application → ApplicationStatus → Time → Result Application
transition a to now =
    if valid_transition a.status to
    then ok (record a { status = to; updated_at = now })
    else err (wrapped invalid_transition "from -> to")

unfoldable pub is_open : Application → Bool
unfolding is_open_status
is_open a = is_open_status a.status
