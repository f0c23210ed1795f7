-- ===== src/Identity/Sso/Invalid.antt =====
-- internal/identity/sso.go: the checks of a callback fail in one way only.
use open_xai_connect.Base.{
  nat_eqs, string_eqs, Bool-cases, Option-cases, trim_space, ℤ, int_eqs, is_positive, Error, Result,
  ok, err, ◌>>=◌, ◌>>◌, refuse_if, String, ◌≡◌, inl, inr, Bool, true, false, Option, none, some,
  List, [], ◌∷◌,
}
use open_xai_connect.Identity.SsoChecks.{
  SsoLibrary, SsoProvider, SsoCallback, invalid_sso, value_at, id_of, first_decoded,
  decode_sso_payload, badly_signed, unexpected_payload, check_callback,
}

-- Every failure of the checks of a callback is the same error.
abbrev pub IsInvalid {ℓ} : {A : Type ℓ} → Result A → Type ℓ
IsInvalid r = (x : Error) → r ≡ err x → x ≡ invalid_sso

refused-IsInvalid :
    {A : Type 0} (b : Bool) (k : Result A) → IsInvalid k → IsInvalid (refuse_if b invalid_sso >> k)
refused-IsInvalid true k h x e = cc e
refused-IsInvalid false k h x e = h x e

chained-IsInvalid :
    {A B : Type 0} (r : Result A) (f : A → Result B)
    → IsInvalid r
    → ((a : A) → IsInvalid (f a))
    → IsInvalid (r >>= f)
chained-IsInvalid (ok a) f h k x same = k a x same
chained-IsInvalid (err e) f h k x same = h x (cc same)

id_of-IsInvalid : (o : Option ℤ) → IsInvalid (id_of o)
unfolding id_of
id_of-IsInvalid none x e = cc e
id_of-IsInvalid (some id) x e = elim (Bool-cases (is_positive id)) [
  | inl p ↦ cc (rw p at e)
  | inr p ↦ cc (rw p at e)
]

module _ (go : SsoLibrary) where
  first_decoded-IsInvalid :
      (decoders : List (String → Option String)) (raw : String)
      → IsInvalid (first_decoded go decoders raw)
  unfolding first_decoded
  first_decoded-IsInvalid [] raw = λ x e. cc e
  first_decoded-IsInvalid (decode ∷ rest) raw = elim (Option-cases (decode raw)) [
    | inl p ↦ rw p (first_decoded-IsInvalid rest raw)
    | inr (text, p) ↦ elim (Option-cases (go.parse_query text)) [
      | inl q ↦ rw (p, q) (first_decoded-IsInvalid rest raw)
      | inr (values, q) ↦ rw (p, q) (λ x e. cc e)
    ]
  ]

  pub check_callback-IsInvalid :
      (p : SsoProvider) (request : SsoCallback) → IsInvalid (check_callback go p request)
  unfolding check_callback decode_sso_payload
  check_callback-IsInvalid p request =
      refused-IsInvalid
        (badly_signed go p (trim_space request.sso) (trim_space request.sig)
          (trim_space request.state))
        _
        (chained-IsInvalid (first_decoded go go.decoders (trim_space request.sso)) _
          (first_decoded-IsInvalid go.decoders (trim_space request.sso))
          (λ decoded.
            refused-IsInvalid (unexpected_payload go p (trim_space request.state) decoded) _ (
              id_of-IsInvalid
                (go.signing.parse_int (trim_space (value_at "external_id" decoded))))))
