-- ===== src/Identity/Sso/History.antt =====
-- internal/identity/sso.go: what holds over any sequence of calls of Begin and Complete.
use open_xai_connect.Base.{
  ◌==◌, nat_eqs, string_eqs, Bool-cases, trim_space, lookup, insert, delete, delete_if,
  lookup-delete, kept, IsDistinct, insert-IsDistinct, delete-IsDistinct, lookup-delete_if-none,
  delete_if-IsDistinct, lookup-delete_if, found-insert, insert-keeps, int_eqs, ok, Result-cases,
  String, ◌≡◌, sym, ap, ◌∙◌, ◌≢◌, inl, inr, Bool, Option, none, some, List, [], ◌∷◌, arith, eq_iff,
}
use open_xai_connect.Base.Exec.{lift, ◌>>=◌}
use open_xai_connect.Domain.Application.{Time}
use open_xai_connect.Identity.SsoChecks.{
  SsoLibrary, SsoProvider, SsoCallback, validate_relative_return_to, check_callback,
}
use open_xai_connect.Identity.Sso.{
  PendingSso, PendingStates, has_expired, cleanup, take_state, new_pending, drawn_nonce,
  remember_state, begin, complete,
}

-- A call, with the reading of the clock and what Begin drew of the random source.
pub data SsoCall : Type 0 where
  started : String → String → Option String → Time → SsoCall
  finished : Option SsoCallback → Time → SsoCall

module _ (go : SsoLibrary) (p : SsoProvider) where
  abbrev pub call : SsoCall → PendingStates → PendingStates
  call (started return_to challenge drawn now) s = (begin go p return_to challenge drawn now s).1
  call (finished request now) s = (complete go p request now s).1

  abbrev pub calls : List SsoCall → PendingStates → PendingStates
  calls [] s = s
  calls (c ∷ rest) s = calls rest (call c s)

  -- How a call changes the states: not at all, by a new state with a checked path, or by the sweep and
  -- the removal of one state.
  pub data Change (s : PendingStates) : SsoCall → PendingStates → Type 0 where
    unchanged : {c : SsoCall} → Change s c s
    added :
        {return_to challenge nonce : String} {now : Time}
        → validate_relative_return_to go return_to ≡ ok tt
        → Change s
            (started return_to challenge (some nonce) now)
            (insert nonce (new_pending p return_to challenge now) (cleanup now s))
    removed :
        {request : Option SsoCallback} {now : Time} (nonce : String)
        → Change s (finished request now) (delete nonce (cleanup now s))

  begin-Change :
      (return_to challenge : String) (drawn : Option String) (now : Time) (s : PendingStates)
      → Change s
          (started return_to challenge drawn now)
          (call (started return_to challenge drawn now) s)
  unfolding begin remember_state ◌>>=◌
  begin-Change return_to challenge drawn now s =
      elim (Result-cases (validate_relative_return_to go return_to)) [
        | inr (x, e) ↦ rw (e, call) unchanged
        | inl (u, e) ↦ rw (e, call) (drawn_change drawn e)
      ]
    where
      drawn_change :
          (drawn : Option String)
          → validate_relative_return_to go return_to ≡ ok tt
          → Change s
              (started return_to challenge drawn now)
              ((lift (drawn_nonce drawn) >>= remember_state go p return_to challenge now) s).1
      drawn_change none e = unchanged
      drawn_change (some nonce) e = added e

  complete-Change :
      (request : Option SsoCallback) (now : Time) (s : PendingStates)
      → Change s (finished request now) (call (finished request now) s)
  unfolding complete take_state ◌>>=◌
  complete-Change none now s = unchanged
  complete-Change (some request) now s = elim (Result-cases (check_callback go p request)) [
    | inr (x, e) ↦ rw (e, call) unchanged
    | inl (id, e) ↦ rw (e, call) (removed (trim_space request.state))
  ]

-- Begin does not draw the nonce again.
abbrev pub Avoids : String → SsoCall → Type 0
Avoids n (started return_to challenge drawn now) = drawn ≢ some n
Avoids n (finished request now) = Unit

kept-some : {V : Type 0} (p : V → Bool) (o : Option V) (v : V) → kept p o ≡ some v → o ≡ some v
kept-some p none v h = cc h
kept-some p (some w) v h = elim (Bool-cases (p w)) [ inl e ↦ cc (rw e at h) | inr e ↦ rw e at h ]

pub in_swept :
    (now : Time) (n : String) (s : PendingStates) (q : PendingSso)
    → IsDistinct s
    → lookup n (cleanup now s) ≡ some q
    → lookup n s ≡ some q
unfolding cleanup
in_swept now n s q d e =
    kept-some (has_expired now) (lookup n s) q (sym (lookup-delete_if (has_expired now) n s d) ∙ e)

in_deleted :
    (k n : String) (s : PendingStates) (q : PendingSso)
    → lookup n (delete k s) ≡ some q
    → lookup n s ≡ some q
in_deleted k n s q e = ground (arith, lookup-delete k n s)

module _ (go : SsoLibrary) (p : SsoProvider) where
  pub call-Change : (c : SsoCall) (s : PendingStates) → Change go p s c (call go p c s)
  call-Change (started return_to challenge drawn now) s =
      begin-Change go p return_to challenge drawn now s
  call-Change (finished request now) s = complete-Change go p request now s

  pub Change-IsDistinct :
      {s t : PendingStates} {c : SsoCall} → Change go p s c t → IsDistinct s → IsDistinct t
  unfolding cleanup
  Change-IsDistinct unchanged d = d
  Change-IsDistinct {s} (added {now = now} checked) d =
      insert-IsDistinct _ _ (delete_if (has_expired now) s)
        (delete_if-IsDistinct (has_expired now) s d)
  Change-IsDistinct {s} (removed {now = now} nonce) d =
      delete-IsDistinct nonce (delete_if (has_expired now) s)
        (delete_if-IsDistinct (has_expired now) s d)

  pub Change-absent :
      {s t : PendingStates} {c : SsoCall} (n : String)
      → Change go p s c t
      → Avoids n c
      → lookup n s ≡ none
      → lookup n t ≡ none
  unfolding cleanup
  Change-absent n unchanged a h = h
  Change-absent {s} n (added {return_to} {challenge} {nonce} {now} checked) a h =
      elim (Bool-cases (nonce == n)) [
        | inl e ↦ absurd (a (ap some ((eq_iff nonce n).0 e)))
        | inr e ↦
            insert-keeps nonce n (new_pending p return_to challenge now)
              (delete_if (has_expired now) s) e
            ∙ lookup-delete_if-none (has_expired now) n s h
      ]
  Change-absent {s} n (removed {now = now} nonce) a h =
      let swept = lookup-delete_if-none (has_expired now) n s h in
      ground (arith, lookup-delete nonce n (delete_if (has_expired now) s))

  -- A state that waits came with a path that was checked.
  abbrev pub IsChecked : PendingStates → Type 0
  IsChecked s =
      (n : String) (q : PendingSso)
      → lookup n s ≡ some q
      → validate_relative_return_to go q.return_to ≡ ok tt

  pub Change-IsChecked :
      {s t : PendingStates} {c : SsoCall}
      → Change go p s c t
      → IsDistinct s
      → IsChecked s
      → IsChecked t
  unfolding cleanup new_pending
  Change-IsChecked unchanged d h n q e = h n q e
  Change-IsChecked {s} (added {return_to} {challenge} {nonce} {now} checked) d h n q e =
      elim (found-insert nonce n (new_pending p return_to challenge now) (cleanup now s) q e) [
        | inl (_, same) ↦ ap (λ z. validate_relative_return_to go z.return_to) (sym same) ∙ checked
        | inr (_, found) ↦ h n q (in_swept now n s q d found)
      ]
  Change-IsChecked {s} (removed {now = now} nonce) d h n q e =
      h n q (in_swept now n s q d (in_deleted nonce n (cleanup now s) q e))
