-- ===== src/Identity/Calls.antt =====
-- internal/identity: any sequence of refreshed statuses, sign-ins and received events.
use open_xai_connect.Base.{
  nat_eqs, string_eqs, ℤ, int_eqs, Result, ok, err, Check, ℕ, String, sym, refl, true, some, List,
  [], ◌∷◌, subst,
}
use open_xai_connect.Domain.User.{User}
use open_xai_connect.Store.Users.Linked.{IsLinked}
use open_xai_connect.Store.Users.Found.{upsert_known-IsLinked}
use open_xai_connect.Identity.Verifier.{Signing, Verifier}
use open_xai_connect.Identity.Directory.{Directory, Provider}
use open_xai_connect.Identity.Refresher.{current_status}
use open_xai_connect.Identity.Rights.{current_status-IsLinked}
use open_xai_connect.Identity.Shadow.{ensure_shadow_user}
use open_xai_connect.Identity.SignedIn.{IsFresh, IsHonest, SignedInEnd, ensure-SignedInEnd}
use open_xai_connect.Identity.Events.{
  StatusEvent, Inbox, EventConsumer, Posted, updated_by, receive_event,
}
use open_xai_connect.Identity.Updated.{EventEnd}
use open_xai_connect.Identity.Received.{receive-EventEnd}
use open_xai_connect.Portal.World.{Env}

pub data IdentityCall : Type 0 where
  refresh_status : String → IdentityCall
  sign_in : ℤ → IdentityCall
  receive : Posted → IdentityCall

module _ {R C : Type 0} (go : Signing) (decode_event : String → Result StatusEvent) (env : Env)
    (fetch : Provider R) (v : Verifier) (c : EventConsumer C) where
  unfoldable pub identity_call : IdentityCall → Inbox R C → Inbox R C
  identity_call (refresh_status subject) w = record w {
    directory =
        (current_status env (record { provider = some fetch; has_users = true }) subject
          w.directory).1;
  }
  identity_call (sign_in id) w = record w {
    directory = (ensure_shadow_user env true (some fetch) id w.directory).1;
  }
  identity_call (receive posted) w = (receive_event go decode_event env c v posted w).1

  unfoldable pub identity_calls : List IdentityCall → Inbox R C → Inbox R C
  unfolding identity_call
  identity_calls [] w = w
  identity_calls (call ∷ rest) w = identity_calls rest (identity_call call w)

  -- The random source gives a sign-in no subject that is in use then.
  abbrev pub FreshFor : IdentityCall → Inbox R C → Type 0
  FreshFor (sign_in id) w = IsFresh env w.directory
  FreshFor _ w = Unit

  abbrev pub DrawsFresh : List IdentityCall → Inbox R C → Type 0
  DrawsFresh [] w = Unit
  DrawsFresh (call ∷ rest) w = FreshFor call w × DrawsFresh rest (identity_call call w)

  event-IsLinked :
      (posted : Posted) (w : Inbox R C) (p : (ℕ × Check) × Inbox R C)
      → IsLinked w.directory.users
      → EventEnd go decode_event env v posted w p
      → IsLinked p.1.directory.users
  unfolding updated_by
  event-IsLinked posted w ((code, err e), w') linked same = subst IsLinked (sym same) linked
  event-IsLinked posted w ((code, ok tt), w') linked (_, update) =
      subst IsLinked (sym update.updated)
        (upsert_known-IsLinked _ update.user w.directory.users linked update.stored refl refl)

  sign_in-IsLinked :
      (id : ℤ) (d : Directory R) (p : Result User × Directory R)
      → IsLinked d.users
      → SignedInEnd env id d.users p
      → IsLinked p.1.users
  sign_in-IsLinked id d (ok user, d') linked signed = signed.linked
  sign_in-IsLinked id d (err e, d') linked same = subst IsLinked (sym same) linked

  identity_call-IsLinked :
      (call : IdentityCall) (w : Inbox R C)
      → IsHonest env
      → FreshFor call w
      → IsLinked w.directory.users
      → IsLinked (identity_call call w).directory.users
  unfolding identity_call
  identity_call-IsLinked (refresh_status subject) w honest fresh linked =
      current_status-IsLinked env fetch subject w.directory linked
  identity_call-IsLinked (sign_in id) w honest fresh linked =
      sign_in-IsLinked id w.directory (ensure_shadow_user env true (some fetch) id w.directory)
        linked (ensure-SignedInEnd env id fetch w.directory linked honest fresh)
  identity_call-IsLinked (receive posted) w honest fresh linked =
      event-IsLinked posted w (receive_event go decode_event env c v posted w) linked
        (receive-EventEnd go decode_event env v posted w c linked)

  -- Any sequence of refreshed statuses, sign-ins and events keeps the two maps of the user
  -- repository in agreement, if the database never reports a missing user in place of a failure and
  -- no drawn subject is in use.
  pub identity_calls-IsLinked :
      (calls : List IdentityCall) (w : Inbox R C)
      → IsHonest env
      → DrawsFresh calls w
      → IsLinked w.directory.users
      → IsLinked (identity_calls calls w).directory.users
  unfolding identity_calls
  identity_calls-IsLinked [] w honest fresh linked = linked
  identity_calls-IsLinked (call ∷ rest) w honest (fresh, more) linked =
      identity_calls-IsLinked rest (identity_call call w) honest more
        (identity_call-IsLinked call w honest fresh linked)
