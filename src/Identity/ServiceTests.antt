-- ===== src/Identity/ServiceTests.antt =====
-- Runs of the identity services: status, access, sign-in and events (internal/identity).
use open_xai_connect.Base.{
  nat_eqs, string_eqs, trim_space, lookup, insert, delete_if, pos, int_eqs, is_not_found, Result,
  ok, ◌*◌, String, ◌≡◌, refl, true, false, none, some, [], ◌∷◌,
}
use open_xai_connect.Base.Exec.{pure, failing_as, ◌>>=◌}
use open_xai_connect.Base.Handler.{attempt}
use open_xai_connect.Domain.Application.{minute}
use open_xai_connect.Domain.User.{User}
use open_xai_connect.Store.Users.{Users, no_users, upsert, get_by_subject, get_by_discourse_id}
use open_xai_connect.Store.Users.Linked.{IsLinked, no_users-IsLinked, upsert-IsLinked}
use open_xai_connect.Identity.UserSnapshot.{UserSnapshot}
use open_xai_connect.Identity.Nonces.{check_and_store}
use open_xai_connect.Identity.Verifier.{
  Signing, Verifier, unix, exceeds, outside_window, seconds_of, malformed, use_nonce, sign,
  signature_matches, check_signature, check_window, check_timestamp, verify_request, verify,
}
use open_xai_connect.Identity.Directory.{
  Directory, Provider, on_remote, time_of, draw_text, on_directory,
}
use open_xai_connect.Identity.Refresher.{
  refreshed, status_of, mismatched, stable_subject, persist, refresh_user, refresh, current_status,
  snapshot_with, access_snapshot, is_reviewer,
}
use open_xai_connect.Identity.Rights.{DiscourseSays, is_reviewer-DiscourseSays}
use open_xai_connect.Identity.Shadow.{
  new_subject, first_seen, unusable, other_owner, created_or, new_user, found_or_new, known_or_new,
  store_user, shadow_user, ensure_shadow_user,
}
use open_xai_connect.Identity.SignedIn.{
  IsFresh, IsHonest, IsSignedIn, ensure_shadow_user-IsSignedIn,
}
use open_xai_connect.Identity.Events.{
  StatusEvent, Inbox, EventConsumer, Posted, invalid_event, misnamed, updated_by, in_directory,
  in_nonces, in_event_ids, drop_cached, accept_event, store_status, update_user, apply_event,
  consume_event, decode_posted, verify_posted, receive_event,
}
use open_xai_connect.Identity.Updated.{EventEnd}
use open_xai_connect.Identity.Received.{receive-EventEnd}
use open_xai_connect.Identity.Calls.{
  refresh_status, sign_in, receive, identity_calls, identity_calls-IsLinked,
}
use open_xai_connect.Portal.World.{Env}

abbrev a_snapshot : UserSnapshot
a_snapshot = record {
  subject = "";
  discourse_id = pos 7;
  username = "ann";
  name = "Ann";
  email = "";
  avatar_url = "";
  trust_level = pos 2;
  active = true;
  silenced = false;
  suspended = false;
  reviewer = true;
  admin = false;
}

abbrev forum : Provider (Unit {0})
forum id = pure (record a_snapshot { discourse_id = id })

-- The third second of 1970, and one random text.
abbrev calm : Env
calm = record { clock = λ n. unix (pos 3); fault = λ n. none; random = λ n. some "0" }

abbrev ann : User
ann = refreshed "usr_0" a_snapshot 5 6

abbrev one_user : Users
one_user = (upsert ann no_users).1

one_user-IsLinked : IsLinked one_user
unfolding lookup
one_user-IsLinked = upsert-IsLinked ann no_users no_users-IsLinked (λ u e. cc e) (λ s e. cc e)

abbrev a_directory : Directory (Unit {0})
a_directory = record { users = one_user; remote = tt; step = 0 }

abbrev empty_directory : Directory (Unit {0})
empty_directory = record { users = no_users; remote = tt; step = 0 }

is_reviewer-DiscourseSays_example : DiscourseSays calm forum "usr_0" (λ s. s.reviewer) a_directory
unfolding is_reviewer access_snapshot snapshot_with current_status refresh refresh_user persist
    mismatched stable_subject status_of on_directory on_remote time_of get_by_subject upsert
    refreshed lookup insert failing_as ◌>>=◌
is_reviewer-DiscourseSays_example =
    is_reviewer-DiscourseSays calm forum "usr_0" a_directory
      (current_status calm (record { provider = some forum; has_users = true }) "usr_0"
        a_directory).1
      refl

calm-IsHonest : IsHonest calm
calm-IsHonest n e h = cc h

empty-IsFresh : IsFresh calm empty_directory
unfolding lookup
empty-IsFresh drawn e = refl

abbrev signed_in : Result User × Directory (Unit {0})
signed_in = ensure_shadow_user calm true (some forum) (pos 8) empty_directory

abbrev ben : User
ben = refreshed "usr_0" (record a_snapshot { discourse_id = pos 8 }) (unix (pos 3)) (unix (pos 3))

ensure_shadow_user-IsSignedIn_example : IsSignedIn no_users (pos 8) ben signed_in.1.users
unfolding ensure_shadow_user shadow_user known_or_new found_or_new new_user new_subject first_seen
    store_user unusable other_owner created_or refreshed on_directory on_remote time_of draw_text
    get_by_discourse_id is_not_found upsert unix lookup insert trim_space ◌>>=◌
ensure_shadow_user-IsSignedIn_example =
    ensure_shadow_user-IsSignedIn calm (pos 8) forum empty_directory signed_in.1 ben
      no_users-IsLinked calm-IsHonest empty-IsFresh refl

abbrev toy : Signing
toy = record {
  mac = λ key text. "";
  encode_hex = λ bytes. "";
  decode_hex = λ text. ok text;
  must_decode_hex = λ text. "0123456789abcdef0123456789abcdef";
  parse_int = λ text. some (pos 0);
  format_int = λ n. "0";
  to_upper = λ text. text;
}

abbrev a_verifier : Verifier
a_verifier = record { secret = "secret"; max_skew = pos (5 * minute) }

abbrev posted : Posted
posted = (
  record {
    method = "POST";
    request_uri = "/events";
    timestamp = "0";
    nonce = "n1";
    signature = "0123456789abcdef0123456789abcdef";
  },
  ok "body",
)

abbrev an_event : StatusEvent
an_event = record {
  event_id = "e1";
  user_id = pos 7;
  event_type = "user_status_changed";
  status = record a_snapshot { suspended = true };
}

abbrev decoder : String → Result StatusEvent
decoder text = ok an_event

abbrev consumer : EventConsumer (Unit {0})
consumer = record {
  verifier = some a_verifier;
  has_users = true;
  has_event_ids = true;
  invalidate = none;
}

abbrev an_inbox : Inbox (Unit {0}) (Unit {0})
an_inbox = record { directory = a_directory; nonces = []; event_ids = []; cache = tt }

event_run : (receive_event toy decoder calm consumer a_verifier posted an_inbox).0 ≡ (204, ok tt)
unfolding receive_event verify_posted decode_posted consume_event accept_event apply_event
    update_user store_status updated_by misnamed invalid_event drop_cached in_directory in_nonces
    in_event_ids attempt on_directory time_of get_by_discourse_id upsert refreshed verify
    verify_request malformed check_timestamp check_window check_signature use_nonce outside_window
    exceeds unix signature_matches sign check_and_store lookup insert delete_if trim_space
    seconds_of failing_as ◌>>=◌
event_run = refl

receive-EventEnd_example :
    EventEnd toy decoder calm a_verifier posted an_inbox
      (receive_event toy decoder calm consumer a_verifier posted an_inbox)
receive-EventEnd_example =
    receive-EventEnd toy decoder calm a_verifier posted an_inbox consumer one_user-IsLinked

identity_calls-IsLinked_example :
    IsLinked
      (identity_calls toy decoder calm forum a_verifier consumer
        (sign_in (pos 8) ∷ refresh_status "usr_0" ∷ receive posted ∷ [])
        (record an_inbox { directory = empty_directory })).directory.users
identity_calls-IsLinked_example =
    identity_calls-IsLinked toy decoder calm forum a_verifier consumer
      (sign_in (pos 8) ∷ refresh_status "usr_0" ∷ receive posted ∷ [])
      (record an_inbox { directory = empty_directory }) calm-IsHonest
      (empty-IsFresh, (tt, (tt, tt))) no_users-IsLinked
