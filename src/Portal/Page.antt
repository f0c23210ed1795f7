-- ===== src/Portal/Page.antt =====
-- What the pages share: the portal's world with the store of its browser sessions, the calls that a
-- page makes of either, and the tokens of its forms (validCSRF and csrfToken of the handlers).
use open_xai_connect.Base.{
  nat_eqs, string_eqs, of_not-false, int_eqs, Error, Result, ok, err, String, ◌≡◌, refl, Bool, true,
  false, not, Option, none, some,
}
use open_xai_connect.Base.Exec.{Exec}
use open_xai_connect.Portal.World.{World, M}
use open_xai_connect.Session.Csrf.{Keyed, Csrf, verify, token}

pub record Site (H U S : Type 0) : Type 0 where
  pub world : World H U
  pub sessions : S

-- A handler: what it replies, and the site that it leaves.
abbrev pub Page : Type 0 → Type 0 → Type 0 → Type 0 → Type 0
Page Reply H U S = Site H U S → Reply × Site H U S

module _ {Reply H U S A : Type 0} where
  abbrev pub shown :
      Result A × Site H U S → (Error → Reply) → (A → Page Reply H U S) → Reply × Site H U S
  shown (ok a, w) refused f = f a w
  shown (err e, w) refused f = (refused e, w)

  -- A call of the service, or the page for its error.
  unfoldable pub ask : M H U A → (Error → Reply) → (A → Page Reply H U S) → Page Reply H U S
  ask m refused f s = let (r, w) = m s.world in shown (r, record s { world = w }) refused f

  -- The same for a call of the session store.
  unfoldable pub ask_sessions :
      Exec S A → (Error → Reply) → (A → Page Reply H U S) → Page Reply H U S
  ask_sessions m refused f s =
      let (r, t) = m s.sessions in shown (r, record s { sessions = t }) refused f

-- validCSRF, for the id in the cookie
unfoldable pub has_valid_token : Keyed → Option Csrf → Result String → String → Bool
has_valid_token crypto csrf (err e) given = false
has_valid_token crypto none (ok id) given = false
has_valid_token crypto (some c) (ok id) given = verify crypto (some c) id given

token_or_empty : Result String → String
token_or_empty (ok given) = given
token_or_empty (err e) = ""

unfoldable pub csrf_token_of : Keyed → Option Csrf → Result String → String
unfolding token_or_empty
csrf_token_of crypto none id = ""
csrf_token_of crypto (some c) (err e) = ""
csrf_token_of crypto (some c) (ok id) = token_or_empty (token crypto (some c) id)

-- The form carries a token that was made for the session in the cookie.
pub valid_token-passed :
    (crypto : Keyed) (csrf : Option Csrf) (id : Result String) (given : String)
    → not (has_valid_token crypto csrf id given) ≡ false
    → (c : Csrf) × (csrf ≡ some c)
      × ((sid : String) × (id ≡ ok sid) × (verify crypto (some c) sid given ≡ true))
unfolding has_valid_token
valid_token-passed crypto none (ok sid) given h = cc h
valid_token-passed crypto none (err e) given h = cc h
valid_token-passed crypto (some c) (err e) given h = cc h
valid_token-passed crypto (some c) (ok sid) given h = (c, refl, (sid, refl, of_not-false _ h))
