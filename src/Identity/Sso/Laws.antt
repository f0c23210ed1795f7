-- ===== src/Identity/Sso/Laws.antt =====
-- internal/identity/sso.go: each state is used once, within its time.
use open_xai_connect.Base.{
  nat_eqs, string_eqs, Bool-cases, lookup, kept, IsDistinct, lookup-delete_if, ℤ, int_eqs,
  IdentityError, identity, Result, ok, err, String, ◌≡◌, refl, sym, ◌≢◌, inl, inr, false, Option,
  none, some, subst,
}
use open_xai_connect.Domain.Application.{Time}
use open_xai_connect.Identity.Sso.{
  PendingSso, PendingStates, SsoIdentity, has_expired, cleanup, redeem, take_state,
}

-- What taking a state returns and leaves.
redeem-cases :
    (P : Result SsoIdentity → Type 0) (id : ℤ) (now : Time) (o : Option PendingSso)
    → P (err (identity IdentityError.sso_state_replay))
    → ((pending : PendingSso)
        → o ≡ some pending
        → has_expired now pending ≡ false
        → P (
            ok (record {
              discourse_id = id;
              challenge = pending.challenge;
              return_to = pending.return_to;
            })))
    → P (redeem id now (kept (has_expired now) o))
unfolding redeem
redeem-cases P id now none h k = h
redeem-cases P id now (some pending) h k = elim (Bool-cases (has_expired now pending)) [
  | inl e ↦ rw e h
  | inr e ↦ rw (e, e) (k pending refl e)
]

-- Because the sweep comes first, an expired state is reported as one that was used.
pub take_state-never_expired :
    (nonce : String) (id : ℤ) (now : Time) (s : PendingStates)
    → IsDistinct s
    → (take_state nonce id now s).0 ≢ err (identity IdentityError.sso_state_expired)
unfolding take_state cleanup
take_state-never_expired nonce id now s d =
    subst (λ o. redeem id now o ≢ err (identity IdentityError.sso_state_expired))
      (sym (lookup-delete_if (has_expired now) nonce s d))
      (redeem-cases (λ r. r ≢ err (identity IdentityError.sso_state_expired)) id now
        (lookup nonce s) (λ e. cc e) (λ pending _ _ e. cc e))
