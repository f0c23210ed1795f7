-- ===== src/Hydra/Client.antt =====
-- internal/hydra/client.go: the data of the interface to Ory Hydra, and the interface itself. Hydra is
-- another program: `Client` takes its state as a parameter and assumes nothing of its answers.
use open_xai_connect.Base.{nat_eqs, string_eqs, ℤ, int_eqs, ℕ, String, Bool, Option, List}
use open_xai_connect.Base.Exec.{Exec}

pub record ClientRegistration : Type 0 where
  pub client_id : String
  pub client_name : String
  pub client_secret : String
  pub client_uri : String
  pub policy_uri : String
  pub logo_uri : String
  pub redirect_uris : List String
  pub grant_types : List String
  pub response_types : List String
  pub scope : String
  pub token_endpoint_auth_method : String
  pub owner : String
  pub access_token_strategy : String
  pub id_token_lifespan : String
  pub access_token_lifespan : String
  pub refresh_token_lifespan : String

pub record ClientCredentials : Type 0 where
  pub id : String
  pub secret : String

pub record ClientInfo : Type 0 where
  pub id : String
  pub name : String
  pub uri : String
  pub policy_uri : String
  pub logo_uri : String
  pub redirect_uris : List String

pub record LoginRequest : Type 0 where
  pub challenge : String
  pub client : ClientInfo
  pub requested_scope : List String
  pub subject : String
  pub skip : Bool
  pub session_id : String
  pub request_url : String

pub record ConsentRequest : Type 0 where
  pub challenge : String
  pub client : ClientInfo
  pub requested_scope : List String
  pub subject : String
  pub skip : Bool
  pub login_challenge : String
  pub session_id : String
  pub request_url : String

-- The fields that the portal sets; Acr, Amr and Context stay at their zero values.
pub record LoginAcceptance : Type 0 where
  pub subject : String
  pub remember : Bool
  pub remember_for : ℤ
  pub session_id : String

-- `id_token_email` is the one claim that the portal puts into the id token, if any.
pub record ConsentAcceptance : Type 0 where
  pub grant_scope : List String
  pub remember : Bool
  pub remember_for : ℤ
  pub id_token_email : Option String

pub record RejectRequest : Type 0 where
  pub error : String
  pub error_description : String
  pub status_code : ℕ

pub record TokenIntrospection : Type 0 where
  pub active : Bool
  pub subject : String
  pub client_id : String
  pub scope : String

-- Hydra as the portal sees it, over a state of its own.
pub record Client (H : Type 0) : Type 0 where
  pub create_client : ClientRegistration → Exec H ClientCredentials
  pub update_client : String → ClientRegistration → Exec H ClientCredentials
  pub delete_client : String → Exec H (Unit {0})
  pub get_login_request : String → Exec H LoginRequest
  pub accept_login : String → LoginAcceptance → Exec H String
  pub reject_login : String → RejectRequest → Exec H String
  pub get_consent_request : String → Exec H ConsentRequest
  pub accept_consent : String → ConsentAcceptance → Exec H String
  pub reject_consent : String → RejectRequest → Exec H String
  pub introspect_token : String → Exec H TokenIntrospection
