-- ===== src/Identity/FirstUse.antt =====
-- internal/identity/discourseconnect.go: what the nonce store remembers when it accepts a nonce.
use open_xai_connect.Base.{
  leb, nat_eqs, string_eqs, Bool-cases, Option-cases, lookup, delete_if, lookup-insert, int_eqs, ok,
  ◌≤◌, String, ◌≡◌, inl, inr, Bool, true, false, some, [], ◌∷◌, arith, eq_iff,
}
use open_xai_connect.Domain.Application.{Time}
use open_xai_connect.Identity.Nonces.{NonceStore, check_and_store}

-- The nonce was not remembered, or only until then, and is from now on.
pub record IsFirstUse (nonce : String) (expires_at now : Time) (s t : NonceStore) : Type 0 where
  pub unseen : (expiry : Time) → lookup nonce s ≡ some expiry → expiry ≤ now
  pub remembered : lookup nonce t ≡ some expires_at

-- A sweep leaves what does not pass the test.
delete_if-keeps :
    (p : Time → Bool) (nonce : String) (expiry : Time) (s : NonceStore)
    → lookup nonce s ≡ some expiry
    → p expiry ≡ false
    → lookup nonce (delete_if p s) ≡ some expiry
unfolding lookup delete_if
delete_if-keeps p nonce expiry [] e h = e
delete_if-keeps p nonce expiry ((other, held) ∷ s) e h =
    ground (arith, eq_iff other nonce, delete_if-keeps p nonce expiry s)

pub check_and_store-IsFirstUse :
    (nonce : String) (expires_at now : Time) (s t : NonceStore)
    → check_and_store nonce expires_at now s ≡ (ok true, t)
    → IsFirstUse nonce expires_at now s t
unfolding check_and_store
check_and_store-IsFirstUse nonce expires_at now s t h =
    let is_over : Time → Bool = λ expiry. leb expiry now in
    elim (Option-cases (lookup nonce (delete_if is_over s))) [
      | inl e ↦ record {
        unseen = λ expiry found. elim (Bool-cases (is_over expiry)) [
          | inl over ↦ ground arith
          | inr fresh ↦ absurd (ground (arith, delete_if-keeps is_over nonce expiry s found fresh))
        ];
        remembered =
            ground (
              arith,
              lookup-insert nonce nonce expires_at (delete_if is_over s),
              eq_iff nonce nonce,
            );
      }
      | inr (x, e) ↦ absurd (ground arith)
    ]
