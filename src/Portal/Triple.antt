-- ===== src/Portal/Triple.antt =====
-- Statements about the applications that an action leaves behind: from a state whose applications
-- satisfy `P`, an action that returns `a` ends in `Q a`, and one that fails ends in `Good`.
use open_xai_connect.Base.{
  refuse_if, if◌then◌else◌, nat_eqs, string_eqs, Option-cases, int_eqs, Error, Result, ok, err, ◌≡◌,
  refl, sym, inl, inr, Bool, true, false, subst,
}
use open_xai_connect.Base.Exec.{Exec, pure, raise, lift, on_error, continue, ◌>>=◌, ◌>>◌}
use open_xai_connect.Store.Applications.{Applications}
use open_xai_connect.Store.Outbox.{Outbox}
use open_xai_connect.Store.Audit.{AuditLog}
use open_xai_connect.Store.Consents.{Consents}
use open_xai_connect.Portal.World.{
  World, Env, M, on_users, on_hydra, now, draw, on_apps, on_outbox, on_audit, on_consents,
}

abbrev pub Implies : (Applications → Type 0) → (Applications → Type 0) → Type 0
Implies p q = (m : Applications) → p m → q m

abbrev pub Outcome :
    {H U A : Type 0}
    → (Applications → Type 0)
    → (A → Applications → Type 0)
    → Result A
    → World H U
    → Type 0
Outcome good q (ok a) w = q a w.apps
Outcome good q (err e) w = good w.apps

pub record Triple {H U A : Type 0} (good p : Applications → Type 0) (m : M H U A)
    (q : A → Applications → Type 0) : Type 0 where
  pub run : (w : World H U) → p w.apps → Outcome good q (m w).0 (m w).1

module _ {H U A : Type 0} {good p : Applications → Type 0} {q : A → Applications → Type 0} where
  pub Triple-pure : (a : A) → Implies p (q a) → Triple {H = H} {U = U} good p (pure a) q
  Triple-pure a h = record { run = λ w. h w.apps }

  pub Triple-raise : (e : Error) → Implies p good → Triple {H = H} {U = U} good p (raise e) q
  Triple-raise e h = record { run = λ w. h w.apps }

  pub Triple-lift :
      (r : Result A)
      → Implies p good
      → ((a : A) → r ≡ ok a → Implies p (q a))
      → Triple {H = H} {U = U} good p (lift r) q
  Triple-lift (ok a) g h = record { run = λ w. h a refl w.apps }
  Triple-lift (err e) g h = record { run = λ w. g w.apps }

  pub Triple-if :
      (b : Bool) (m n : M H U A)
      → (b ≡ true → Triple good p m q)
      → (b ≡ false → Triple good p n q)
      → Triple good p (if b then m else n) q
  Triple-if true m n h k = h refl
  Triple-if false m n h k = k refl

  pub Triple-pre :
      {p' : Applications → Type 0} (m : M H U A)
      → Implies p p'
      → Triple good p' m q
      → Triple good p m q
  Triple-pre m h t = record { run = λ w x. t.run w (h w.apps x) }

  -- What the state shows before the action stays known.
  pub Triple-const :
      {C : Type 0} (m : M H U A)
      → ((x : Applications) → p x → C)
      → (C → Triple good p m q)
      → Triple good p m q
  Triple-const m k t = record { run = λ w x. (t (k w.apps x)).run w x }

  pub Triple-post :
      {q' : A → Applications → Type 0} (m : M H U A)
      → ((a : A) → Implies (q' a) (q a))
      → Triple good p m q'
      → Triple good p m q
  Triple-post {q' = q'} m h t = record { run = λ w x. weaken (m w).0 (m w).1 (t.run w x) }
    where
      weaken : (r : Result A) (w : World H U) → Outcome good q' r w → Outcome good q r w
      weaken (ok a) w o = h a w.apps o
      weaken (err e) w o = o

  pub Triple-guard :
      (b : Bool) (e : Error) (n : M H U A)
      → Implies p good
      → (b ≡ false → Triple good p n q)
      → Triple good p (lift (refuse_if b e) >> n) q
  unfolding ◌>>=◌
  Triple-guard true e n safe h = record { run = λ w x. safe w.apps x }
  Triple-guard false e n safe h = record { run = λ w x. (h refl).run w x }

module _ {H U A B : Type 0} {good : Applications → Type 0} {q : A → Applications → Type 0}
    {r : B → Applications → Type 0} where
  continue-Outcome :
      (x : Result A) (f : A → M H U B) (w : World H U)
      → Outcome good q x w
      → ((a : A) → Triple good (q a) (f a) r)
      → Outcome good r (continue x f w).0 (continue x f w).1
  continue-Outcome (ok a) f w o h = (h a).run w o
  continue-Outcome (err e) f w o h = o

module _ {H U A B : Type 0} {good p : Applications → Type 0} {q : A → Applications → Type 0}
    {r : B → Applications → Type 0} where
  pub Triple-bind :
      (m : M H U A) (f : A → M H U B)
      → Triple good p m q
      → ((a : A) → Triple good (q a) (f a) r)
      → Triple good p (m >>= f) r
  unfolding ◌>>=◌
  Triple-bind m f t h = record { run = λ w x. continue-Outcome (m w).0 f (m w).1 (t.run w x) h }

-- Actions that leave the applications alone.
module _ {H U A : Type 0} {good p : Applications → Type 0} (env : Env) (safe : Implies p good) where
  keep :
      (x : Result A) (w w' : World H U) → w'.apps ≡ w.apps → p w.apps → Outcome good (λ _. p) x w'
  keep (ok a) w w' e h = rw e h
  keep (err _) w w' e h = rw e (safe w.apps h)

  pub on_users-keeps : (op : Exec U A) → Triple {H = H} good p (on_users op) (λ _. p)
  unfolding on_users
  on_users-keeps op = record { run = λ w h. keep (op w.users).0 w _ refl h }

  pub on_hydra-keeps : (op : Exec H A) → Triple {U = U} good p (on_hydra op) (λ _. p)
  unfolding on_hydra
  on_hydra-keeps op = record { run = λ w h. keep (op w.hydra).0 w _ refl h }

  pub on_outbox-keeps :
      (op : Exec Outbox A) → Triple {H = H} {U = U} good p (on_outbox env op) (λ _. p)
  unfolding on_outbox
  on_outbox-keeps op = record {
    run = λ w h. elim (Option-cases (env.fault w.step)) [
      | inl e ↦ rw (e, on_outbox) (keep (op w.outbox).0 w _ refl h)
      | inr (x, e) ↦ rw (e, on_outbox) (safe w.apps h)
    ];
  }

  pub on_audit-keeps :
      (op : Exec AuditLog A) → Triple {H = H} {U = U} good p (on_audit env op) (λ _. p)
  unfolding on_audit
  on_audit-keeps op = record {
    run = λ w h. elim (Option-cases (env.fault w.step)) [
      | inl e ↦ rw (e, on_audit) (keep (op w.audit).0 w _ refl h)
      | inr (x, e) ↦ rw (e, on_audit) (safe w.apps h)
    ];
  }

  pub on_consents-keeps :
      (op : Exec Consents A) → Triple {H = H} {U = U} good p (on_consents env op) (λ _. p)
  unfolding on_consents
  on_consents-keeps op = record {
    run = λ w h. elim (Option-cases (env.fault w.step)) [
      | inl e ↦ rw (e, on_consents) (keep (op w.consents).0 w _ refl h)
      | inr (x, e) ↦ rw (e, on_consents) (safe w.apps h)
    ];
  }

module _ {H U : Type 0} {good p : Applications → Type 0} (env : Env) where
  pub now-keeps : Triple {H = H} {U = U} good p (now env) (λ _. p)
  unfolding now
  now-keeps = record { run = λ w h. h }

  pub draw-keeps : Triple {H = H} {U = U} good p (draw env) (λ _. p)
  unfolding draw
  draw-keeps = record { run = λ w h. h }

module _ {H U A : Type 0} {good p p' : Applications → Type 0} {q : A → Applications → Type 0} where
  -- The handler starts from what the failed action left.
  pub Triple-on_error :
      (m : M H U A) (handler : M H U (Unit {0}))
      → Triple p' p m q
      → Triple good p' handler (λ _. good)
      → Triple good p (on_error m handler) q
  unfolding on_error
  Triple-on_error m handler t h = record { run = λ w x. handled (m w).0 (m w).1 (t.run w x) }
    where
      ended : (r : Result (Unit {0})) (w : World H U) → Outcome good (λ _. good) r w → good w.apps
      ended (ok a) w o = o
      ended (err e) w o = o

      handled :
          (r : Result A) (w : World H U)
          → Outcome p' q r w
          → Outcome good q
              (on_error (λ (_ : World H U). (r, w)) handler w).0
              (on_error (λ (_ : World H U). (r, w)) handler w).1
      handled (ok a) w o = o
      handled (err e) w o = ended (handler w).0 (handler w).1 (h.run w o)

-- What a method of the repository does to the applications, and what it returns.
abbrev pub Effect :
    {A : Type 0}
    → (Applications → Type 0)
    → (A → Applications → Type 0)
    → Result A × Applications
    → Type 0
Effect good q (ok a, m) = q a m
Effect good q (err e, m) = good m

of_Effect :
    {H U A : Type 0} (good : Applications → Type 0) (q : A → Applications → Type 0) (r : Result A)
    (m : Applications) (w : World H U)
    → w.apps ≡ m
    → Effect good q (r, m)
    → Outcome good q r w
of_Effect good q (ok a) m w e h = subst (q a) (sym e) h
of_Effect good q (err x) m w e h = subst good (sym e) h

module _ {H U A : Type 0} {good p : Applications → Type 0} {q : A → Applications → Type 0} where
  pub on_apps-Triple :
      (env : Env) (op : Exec Applications A)
      → Implies p good
      → ((m : Applications) → p m → Effect good q ((op m).0, (op m).1))
      → Triple {H = H} {U = U} good p (on_apps env op) q
  unfolding on_apps
  on_apps-Triple env op safe h = record {
    run = λ w x. elim (Option-cases (env.fault w.step)) [
      | inl e ↦ rw (e, on_apps) (of_Effect good q (op w.apps).0 (op w.apps).1 _ refl (h w.apps x))
      | inr (y, e) ↦ rw (e, on_apps) (safe w.apps x)
    ];
  }
