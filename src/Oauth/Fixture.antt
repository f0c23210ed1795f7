-- ===== src/Oauth/Fixture.antt =====
-- A small portal for the runs of the OAuth services: one approved application, one user, and a Hydra
-- whose state is the number of acceptances that it took. It refuses each consent.
use open_xai_connect.Session.Memory.{Session}
use open_xai_connect.Session.Http.{SessionStore, HttpHandler}
use open_xai_connect.Session.Csrf.{Keyed, Csrf}
use open_xai_connect.Base.{
  if◌then◌else◌, ◌==◌, nat_eqs, string_eqs, pos, int_eqs, Error, session_not_found, message, ok, ℕ,
  suc, ◌+◌, true, false, none, some, [], ◌∷◌,
}
use open_xai_connect.Base.Exec.{pure, raise}
use open_xai_connect.Domain.Status.{ApplicationStatus, status_eqs}
use open_xai_connect.Domain.Application.{Application}
use open_xai_connect.Domain.Library.{Url, Library}
use open_xai_connect.Domain.User.{User}
use open_xai_connect.Hydra.Client.{ClientInfo, LoginRequest, ConsentRequest, Client}
use open_xai_connect.Identity.StatusSnapshot.{StatusSnapshot}
use open_xai_connect.Portal.World.{World, Env, StatusLookup}
use open_xai_connect.Store.Users.{Users}

abbrev pub an_endpoint : Url
an_endpoint = record {
  scheme = "https";
  host = "id.example";
  hostname = "id.example";
  user = false;
  path = "/oauth2/auth";
  raw_query = "";
  fragment = "";
  query =
      ("client_id", "c1")
      ∷ ("redirect_uri", "https://forum.example/cb")
      ∷ ("response_type", "code")
      ∷ ("scope", "openid email")
      ∷ ("state", "xyz")
      ∷ [];
}

abbrev pub a_library : Library
a_library = record {
  parse_url = λ text. if text == "https://id.example/oauth2/auth" then some an_endpoint else none;
  is_ip = λ text. false;
  to_lower = λ text. if text == "Bearer" then "bearer" else text;
}

abbrev pub a_client : ClientInfo
a_client = record {
  id = "c1";
  name = "Forum";
  uri = "";
  policy_uri = "";
  logo_uri = "";
  redirect_uris = "https://forum.example/cb" ∷ [];
}

abbrev pub a_login : LoginRequest
a_login = record {
  challenge = "ch";
  client = a_client;
  requested_scope = "email" ∷ "openid" ∷ [];
  subject = "";
  skip = false;
  session_id = "s1";
  request_url = "https://id.example/oauth2/auth";
}

abbrev pub a_consent : ConsentRequest
a_consent = record {
  challenge = "ch";
  client = a_client;
  requested_scope = "email" ∷ "openid" ∷ [];
  subject = "u1";
  skip = false;
  login_challenge = "";
  session_id = "s1";
  request_url = "";
}

abbrev pub refusal : Error
refusal = message "Hydra is not available"

abbrev pub a_hydra : Client ℕ
a_hydra = record {
  create_client = λ r. raise refusal;
  update_client = λ id r. raise refusal;
  delete_client = λ id. raise refusal;
  get_login_request = λ c. pure a_login;
  accept_login = λ c a n. (ok "https://id.example/next", suc n);
  reject_login = λ c a. raise refusal;
  get_consent_request = λ c. pure a_consent;
  accept_consent = λ c a. raise refusal;
  reject_consent = λ c a. raise refusal;
  introspect_token = λ t.
      pure (record { active = true; subject = "u1"; client_id = "c1"; scope = "openid email" });
}

abbrev pub a_status : StatusSnapshot
a_status = record {
  subject = "u1";
  username = "ann";
  name = "Ann";
  email = "ann@forum.example";
  avatar_url = "";
  trust_level = pos 2;
  active = true;
  silenced = false;
  suspended = false;
  reviewer = false;
  admin = false;
}

abbrev pub a_lookup : StatusLookup Users
a_lookup subject = pure a_status

abbrev pub a_user : User
a_user = record {
  subject = "u1";
  discourse_id = pos 7;
  username = "ann";
  name = "Ann";
  email = "ann@forum.example";
  avatar_url = "";
  trust_level = pos 2;
  active = true;
  silenced = false;
  suspended = false;
  reviewer = false;
  admin = false;
  created_at = 1;
  updated_at = 1;
}

abbrev pub an_app : Application
an_app = record {
  id = "a1";
  owner_subject = "u2";
  name = "Forum";
  description = "";
  logo_url = "";
  callback_urls = [];
  verified_domains = [];
  status = ApplicationStatus.approved;
  require_pkce_nonce = false;
  client_id = "c1";
  encrypted_client_secret = "";
  secret_version = pos 1;
  review_note = "";
  reviewed_by = "";
  created_at = 1;
  updated_at = 1;
}

abbrev pub no_faults : Env
no_faults = record { clock = λ n. 1000 + n; fault = λ n. none; random = λ n. some "0" }

abbrev pub a_world : World ℕ Users
a_world = record {
  users = record { by_subject = ("u1", a_user) ∷ []; by_discourse = (pos 7, "u1") ∷ [] };
  apps = ("a1", an_app) ∷ [];
  outbox = record { events = []; by_key = [] };
  audit = [];
  consents = [];
  hydra = 0;
  step = 0;
}

abbrev pub toy : Keyed
toy = record { mac = λ key text. text; encode = λ text. text; decode = λ text. some text }

abbrev pub a_session : Session
a_session = record {
  id = "sid";
  user_subject = "u1";
  home_verified = true;
  created_at = 1;
  last_seen_at = 1;
  expires_at = 100;
  absolute_expires_at = 100;
}

abbrev pub one_session : SessionStore (Unit {0})
one_session = record {
  create = λ subject now. pure a_session;
  get = λ id now. pure a_session;
  touch = λ id now. if id == "sid" then pure a_session else raise session_not_found;
  mark_home_verified = λ id now. pure a_session;
  delete_session = λ id. pure tt;
}

abbrev pub browser : HttpHandler (Unit {0})
browser = record { store = some one_session; cookie_name = "connect"; cookie_secure = true }

abbrev pub a_signer : Csrf
a_signer = record { secret = "0123456789abcdef" }
