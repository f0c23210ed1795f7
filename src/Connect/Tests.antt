-- ===== src/Connect/Tests.antt =====
-- Runs of a small portal: an owner, a reviewer and a registry that registers every client as it is asked.
use open_xai_connect.Base.{
  nat_eqs, string_eqs, lookup, pos, int_eqs, ok, ◌+◌, ◌*◌, ◌≡◌, refl, true, false, none, some, [],
  ◌∷◌, arith, eq_iff,
}
use open_xai_connect.Base.Exec.{pure, ◌>>=◌}
use open_xai_connect.Domain.Status.{ApplicationStatus, status_eqs}
use open_xai_connect.Domain.Application.{minute, Application}
use open_xai_connect.Hydra.Client.{LoginRequest, ConsentRequest, Client}
use open_xai_connect.Identity.StatusSnapshot.{StatusSnapshot}
use open_xai_connect.Portal.World.{World, Env, on_apps}
use open_xai_connect.Store.Applications
use open_xai_connect.Store.Applications.{
  Applications, with_default_status, with_times, create, get_by_client_id, values_if,
  sort_by_created, list_by_owner, list_by_status, count_open_by_owner, transition_app, save,
  delete_app,
}
use open_xai_connect.Apps.Secrets
use open_xai_connect.Apps.Deps.{Box, get_owned}
use open_xai_connect.Apps.Evolution.{IsKeyed, Evolves}
use open_xai_connect.Connect.{
  Portal, Action, submit_of, revoke_of, perform, perform-Evolves, perform-revoked,
}

abbrev a_status : StatusSnapshot
a_status = record {
  subject = "u1";
  username = "ann";
  name = "Ann";
  email = "";
  avatar_url = "";
  trust_level = pos 2;
  active = true;
  silenced = false;
  suspended = false;
  reviewer = false;
  admin = false;
}

abbrev no_request : LoginRequest
no_request = record {
  challenge = "";
  client = record {
    id = "";
    name = "";
    uri = "";
    policy_uri = "";
    logo_uri = "";
    redirect_uris = [];
  };
  requested_scope = [];
  subject = "";
  skip = false;
  session_id = "";
  request_url = "";
}

abbrev no_consent : ConsentRequest
no_consent = record {
  challenge = "";
  client = no_request.client;
  requested_scope = [];
  subject = "";
  skip = false;
  login_challenge = "";
  session_id = "";
  request_url = "";
}

abbrev registry : Client (Unit {0})
registry = record {
  create_client = λ r. pure (record { id = "c1"; secret = "s" });
  update_client = λ id r. pure (record { id = id; secret = r.client_secret });
  delete_client = λ id. pure tt;
  get_login_request = λ c. pure no_request;
  accept_login = λ c a. pure "";
  reject_login = λ c a. pure "";
  get_consent_request = λ c. pure no_consent;
  accept_consent = λ c a. pure "";
  reject_consent = λ c a. pure "";
  introspect_token =
      λ t. pure (record { active = false; subject = ""; client_id = ""; scope = "" });
}

abbrev open_box : Box
open_box = record { encrypt = λ nonce text data_. ok text; decrypt = λ text data_. ok text }

abbrev a_portal : Portal (Unit {0}) (Unit {0})
a_portal = record {
  go = record { parse_url = λ text. none; is_ip = λ text. false; to_lower = λ text. text };
  service = record {
    status = some (λ subject. pure a_status);
    has_apps = true;
    has_outbox = true;
    has_audit = true;
    box = some open_box;
    hydra = some registry;
    max_open = 3;
    sensitive_window = pos (5 * minute);
    require_review = true;
  };
  reviewing = record {
    access = some (record { is_reviewer = λ subject. pure true; is_admin = λ subject. pure false });
    has_apps = true;
    has_outbox = true;
    has_audit = true;
  };
  provisioner = record {
    hydra = registry;
    box = open_box;
    has_audit = true;
    retry_delay = pos minute;
  };
}

abbrev calm : Env
calm = record { clock = λ n. 1_000 + n; fault = λ n. none; random = λ n. some "r" }

abbrev app_in : ApplicationStatus → Application
app_in status = record {
  id = "app_1";
  owner_subject = "u1";
  name = "Forum";
  description = "";
  logo_url = "";
  callback_urls = "https://forum.example/callback" ∷ [];
  verified_domains = "forum.example" ∷ [];
  status = status;
  require_pkce_nonce = true;
  client_id = "";
  encrypted_client_secret = "";
  secret_version = pos 0;
  review_note = "";
  reviewed_by = "";
  created_at = 100;
  updated_at = 100;
}

abbrev world_with : ApplicationStatus → World (Unit {0}) (Unit {0})
world_with status = record {
  users = tt;
  apps = ("app_1", app_in status) ∷ [];
  outbox = record { events = []; by_key = [] };
  audit = [];
  consents = [];
  hydra = tt;
  step = 0;
}

world_with-IsKeyed : (status : ApplicationStatus) → IsKeyed (world_with status).apps
unfolding IsKeyed lookup
world_with-IsKeyed status id a e = ground (arith, eq_iff "app_1" id)

abbrev submission : Action
submission = submit_of "u1" "app_1"

perform-Evolves_example :
    Evolves
      (world_with ApplicationStatus.draft).apps
      (perform a_portal calm submission (world_with ApplicationStatus.draft)).1.apps
perform-Evolves_example =
    perform-Evolves a_portal calm submission (world_with ApplicationStatus.draft)
      (world_with-IsKeyed ApplicationStatus.draft)

-- The owner tries to revoke once more.
perform-revoked_example : (app_in ApplicationStatus.revoked).status ≡ ApplicationStatus.revoked
unfolding perform Secrets.revoke get_owned Applications.get ◌>>=◌ on_apps lookup
perform-revoked_example =
    perform-revoked a_portal calm (revoke_of "u1" "app_1") (world_with ApplicationStatus.revoked)
      (world_with-IsKeyed ApplicationStatus.revoked) "app_1" (app_in ApplicationStatus.revoked)
      (app_in ApplicationStatus.revoked) refl refl refl
