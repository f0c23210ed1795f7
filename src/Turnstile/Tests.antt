-- ===== src/Turnstile/Tests.antt =====
-- A run of the check (internal/turnstile/validator.go).
use open_xai_connect.Base.{
  nat_eqs, string_eqs, contains, trim_space, trim_dot, int_eqs, ok, ℕ, suc, ◌≡◌, refl, true, false,
  none, some, [], ◌∷◌,
}
use open_xai_connect.Base.Exec.{failing_as, ◌>>=◌}
use open_xai_connect.Domain.Library.{Library}
use open_xai_connect.Turnstile.Validator.{
  Client, SiteVerify, is_success, read_verdict, unfit, normalize_hostname, expected_of, new,
  check_verdict, ask_site, verify, IsPerson, verify-IsPerson,
}

abbrev plain : Library
plain = record { parse_url = λ text. none; is_ip = λ text. false; to_lower = λ text. text }

-- A service that counts its calls.
abbrev a_site : SiteVerify ℕ
a_site secret token n = (
  ok (record {
    status = 200;
    decoded = some (record { success = true; action = "login"; hostname = "portal.example." });
  }),
  suc n,
)

abbrev a_client : Client
a_client = record { secret = "secret"; expected_hostnames = "portal.example" ∷ [] }

new_run : new plain "secret" (" portal.example." ∷ " " ∷ []) ≡ ok a_client
unfolding new expected_of normalize_hostname trim_space trim_dot
new_run = refl

verify-IsPerson_example :
    (unfit "token" "login" ≡ false) × IsPerson plain a_site a_client "token" "login" 0
unfolding verify ask_site unfit is_success read_verdict check_verdict normalize_hostname trim_space
    trim_dot contains failing_as ◌>>=◌
verify-IsPerson_example = verify-IsPerson plain a_site a_client "token" "login" 0 1 refl
