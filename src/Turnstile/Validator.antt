-- ===== src/Turnstile/Validator.antt =====
-- internal/turnstile/validator.go. The verification service is a parameter with a state of its own: a
-- call gets the secret and the token.
use Prim.Native.String.{len}
use open_xai_connect.Base.{
  ltb, leb, nat_eq, if◌then◌else◌, ◌==◌, nat_eqs, string_eqs, Bool-cases, length, contains,
  eq_of_not_differs, or-false, of_not-false, trim_space, trim_dot, int_eqs, Error, message, Result,
  ok, err, Check, refuse_if, ℕ, String, ◌≡◌, ap, inl, inr, Bool, true, false, not, ◌&&◌, ◌||◌,
  Option, none, some, List, [], ◌∷◌,
}
use open_xai_connect.Base.Exec.{Exec, raise, lift, failing_as, ◌>>=◌, ◌>>◌}
use open_xai_connect.Base.Cases.{
  renamed-passed, refuse_if-false, ok_inj, guard-passed, lift-passed, bind-passed,
}
use open_xai_connect.Domain.Library.{Library}

abbrev pub max_token_length : ℕ
max_token_length = 2048

abbrev pub rejected : Error
rejected = message "turnstile verification rejected"

abbrev pub unavailable : Error
unavailable = message "turnstile verification unavailable"

-- The keys of `expected_hostnames` are the elements of this list.
pub record Client : Type 0 where
  pub secret : String
  pub expected_hostnames : List String

pub record Verdict : Type 0 where
  pub success : Bool
  pub action : String
  pub hostname : String

-- The status of the answer, and its body if that decodes.
pub record SiteAnswer : Type 0 where
  pub status : ℕ
  pub decoded : Option Verdict

abbrev pub SiteVerify : Type 0 → Type 0
SiteVerify N = String → String → Exec N SiteAnswer

unfoldable pub is_success : ℕ → Bool
is_success status = leb 200 status && ltb status 300

unfoldable pub read_verdict : Option Verdict → Result Verdict
read_verdict none = err unavailable
read_verdict (some verdict) = ok verdict

unfoldable pub unfit : String → String → Bool
unfit token action =
    (trim_space token == "") || ltb max_token_length (len token) || (trim_space action == "")

module _ (go : Library) where
  open go use {to_lower}

  unfoldable pub normalize_hostname : String → String
  normalize_hostname value = to_lower (trim_dot (trim_space value))

  unfoldable pub expected_of : List String → List String
  unfolding normalize_hostname
  expected_of [] = []
  expected_of (hostname ∷ rest) =
      let more = expected_of rest in
      if normalize_hostname hostname == "" then more else normalize_hostname hostname ∷ more

  unfoldable pub new : String → List String → Result Client
  unfolding expected_of
  new secret hostnames =
      if trim_space secret == ""
      then err (message "Turnstile secret is required")
      else if nat_eq (length (expected_of hostnames)) 0
      then err (message "at least one Turnstile hostname is required")
      else ok (record { secret = secret; expected_hostnames = expected_of hostnames })

  unfoldable pub check_verdict : Client → String → Verdict → Check
  unfolding normalize_hostname
  check_verdict c action verdict =
      if not verdict.success || not (verdict.action == action)
      then err rejected
      else refuse_if (not (contains c.expected_hostnames (normalize_hostname verdict.hostname)))
          rejected

  module _ {N : Type 0} (site : SiteVerify N) where
    unfoldable pub ask_site : Client → String → String → Exec N (Unit {0})
    unfolding is_success read_verdict check_verdict
    ask_site c token action = do
      answer ← failing_as (λ e. unavailable) (site c.secret token)
      lift (refuse_if (not (is_success answer.status)) unavailable)
      verdict ← lift (read_verdict answer.decoded)
      lift (check_verdict c action verdict)

    unfoldable pub verify : Option Client → String → String → Exec N (Unit {0})
    unfolding ask_site unfit
    verify none token action = raise unavailable
    verify (some c) token action =
        if (trim_space c.secret == "") || nat_eq (length c.expected_hostnames) 0
        then raise unavailable
        else if unfit token action
        then raise rejected
        else ask_site c token action

    -- What an accepted form stands on: the service answered about this very token.
    pub record IsPerson (c : Client) (token action : String) (n : N) : Type 0 where
      pub answer : SiteAnswer
      pub answered : (site c.secret token n).0 ≡ ok answer
      pub answered_well : is_success answer.status ≡ true
      pub verdict : Verdict
      pub decoded : answer.decoded ≡ some verdict
      pub success : verdict.success ≡ true
      pub same_action : verdict.action ≡ action
      pub own_site : contains c.expected_hostnames (normalize_hostname verdict.hostname) ≡ true

    verdict-passed : (o : Option Verdict) (v : Verdict) → read_verdict o ≡ ok v → o ≡ some v
    unfolding read_verdict
    verdict-passed none v h = cc h
    verdict-passed (some w) v h = ap some (ok_inj h)

    ask_site-IsPerson :
        (c : Client) (token action : String) (n t : N)
        → ask_site c token action n ≡ (ok tt, t)
        → IsPerson c token action n
    unfolding ask_site check_verdict failing_as
    ask_site-IsPerson c token action n t h =
        let (answer, n1, e, h1) =
          bind-passed (failing_as (λ e. unavailable) (site c.secret token)) _ n t tt h in
        let (good, h2) = guard-passed (not (is_success answer.status)) unavailable _ n1 t tt h1 in
        let (verdict, d, h3) =
          lift-passed (read_verdict answer.decoded) (λ v. lift (check_verdict c action v)) n1 t tt
            h2 in
        let checked : check_verdict c action verdict ≡ ok tt = ap (λ p. p.0) h3 in
        elim (Bool-cases (not verdict.success || not (verdict.action == action))) [
          | inl b ↦ cc (rw (b, check_verdict) at checked)
          | inr b ↦
              let (s, a) = or-false (not verdict.success) (not (verdict.action == action)) b in
              let host =
                refuse_if-false
                  (not (contains c.expected_hostnames (normalize_hostname verdict.hostname)))
                  rejected tt (rw (b, check_verdict) at checked) in
              record {
                answer = answer;
                answered =
                    renamed-passed (λ e. unavailable) (site c.secret token n).0 answer
                      (ap (λ p. p.0) e);
                answered_well = of_not-false _ good;
                verdict = verdict;
                decoded = verdict-passed answer.decoded verdict d;
                success = of_not-false _ s;
                same_action = eq_of_not_differs _ _ a;
                own_site = of_not-false _ host;
              }
        ]

    -- A form is accepted only if its token and its action are not blank and the token is at most
    -- 2048 characters long, and the verification service, asked with the secret and this token,
    -- answered with a success status and a verdict that decodes, says success, names the action,
    -- and comes from an expected host name.
    pub verify-IsPerson :
        (c : Client) (token action : String) (n t : N)
        → verify (some c) token action n ≡ (ok tt, t)
        → (unfit token action ≡ false) × IsPerson c token action n
    unfolding verify
    verify-IsPerson c token action n t h =
        elim (Bool-cases ((trim_space c.secret == "") || nat_eq (length c.expected_hostnames) 0)) [
          | inl e ↦ cc (rw (e, verify) at h)
          | inr e ↦ elim (Bool-cases (unfit token action)) [
            | inl f ↦ cc (rw (e, f, verify) at h)
            | inr f ↦ (f, ask_site-IsPerson c token action n t (rw (e, f, verify) at h))
          ]
        ]
