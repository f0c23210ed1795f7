-- ===== src/Oauth/Scopes/Laws.antt =====
-- What the filter of scopes returns.
use open_xai_connect.Base.{
  ◌==◌, nat_eqs, string_eqs, Bool-cases, contains, trim_space, int_eqs, ok, Result-cases, String,
  ◌≡◌, refl, ◌≢◌, inl, inr, Bool, true, false, not, ◌&&◌, ◌||◌, List, [], ◌∷◌, ◌++◌, arith, eq_iff,
  subst,
}
use open_xai_connect.Oauth.Scopes.{allowed_scopes, collect_scopes, filter_scopes}

pub contains-append :
    (xs ys : List String) (x : String) → contains (xs ++ ys) x ≡ (contains xs x || contains ys x)
unfolding contains
contains-append [] ys x = refl
contains-append (y ∷ xs) ys x = ground (arith, contains-append xs ys x)

-- The texts that a request names: trimmed, the blank ones left out.
unfoldable pub named : List String → String → Bool
named [] x = false
named (raw ∷ rest) x = ((trim_space raw == x) && not (x == "")) || named rest x

abbrev pub IsSubset : List String → List String → Type 0
IsSubset xs ys = (x : String) → contains xs x ≡ true → contains ys x ≡ true

-- No element stands twice.
abbrev pub IsUnique : List String → Type 0
IsUnique [] = Unit
IsUnique (x ∷ xs) = (contains xs x ≡ false) × IsUnique xs

IsUnique-snoc :
    (xs : List String) (x : String) → IsUnique xs → contains xs x ≡ false → IsUnique (xs ++ x ∷ [])
unfolding contains
IsUnique-snoc [] x u h = (refl, tt)
IsUnique-snoc (y ∷ xs) x u h = (
  ground (arith, contains-append xs (x ∷ []) y, eq_iff x y, eq_iff y x),
  IsUnique-snoc xs x u.1 (ground arith),
)

-- One round of the loop that does not end in an error.
data Round (acc : List String) (scope : String) (rest r : List String) : Type 0 where
  blank : scope ≡ "" → collect_scopes acc rest ≡ ok r → Round acc scope rest r
  seen :
      contains acc scope ≡ true
      → scope ≢ ""
      → collect_scopes acc rest ≡ ok r
      → Round acc scope rest r
  added :
      scope ≢ ""
      → contains allowed_scopes scope ≡ true
      → contains acc scope ≡ false
      → collect_scopes (acc ++ scope ∷ []) rest ≡ ok r
      → Round acc scope rest r

round :
    (acc : List String) (raw : String) (rest r : List String)
    → collect_scopes acc (raw ∷ rest) ≡ ok r
    → Round acc (trim_space raw) rest r
unfolding collect_scopes
round acc raw rest r h =
    let scope = trim_space raw in
    elim (Bool-cases (scope == "")) [
      | inl e ↦ blank ((eq_iff scope "").0 e) (rw (e, collect_scopes) at h)
      | inr e ↦
          let ne : scope ≢ "" = λ same. cc ((eq_iff scope "").1 same, e) in
          elim (Bool-cases (contains allowed_scopes scope)) [
            | inr bad ↦ cc (rw (e, bad) at h)
            | inl good ↦ elim (Bool-cases (contains acc scope)) [
              | inl old ↦ seen old ne (rw (e, good, old) at h)
              | inr new ↦ added ne good new (rw (e, good, new) at h)
            ]
          ]
    ]

pub collect_scopes-contains :
    (acc scopes r : List String)
    → collect_scopes acc scopes ≡ ok r
    → (x : String) → contains r x ≡ (contains acc x || named scopes x)
unfolding collect_scopes named contains
collect_scopes-contains acc [] r h x = ground arith
collect_scopes-contains acc (raw ∷ rest) r h x =
    let scope : String = trim_space raw in
    elim (round acc raw rest r h) [
      | blank e k ↦
          ground (arith, collect_scopes-contains acc rest r k x, eq_iff scope x, eq_iff x "")
      | seen e n k ↦
          ground (arith, collect_scopes-contains acc rest r k x, eq_iff scope x, eq_iff x "")
      | added n g f k ↦ ground (
        arith,
        collect_scopes-contains (acc ++ scope ∷ []) rest r k x,
        contains-append acc (scope ∷ []) x,
        eq_iff scope x,
        eq_iff x "",
      )
    ]

collect_scopes-IsUnique :
    (acc scopes r : List String) → collect_scopes acc scopes ≡ ok r → IsUnique acc → IsUnique r
unfolding collect_scopes
collect_scopes-IsUnique acc [] r h u = let e : acc ≡ r = ground arith in subst IsUnique e u
collect_scopes-IsUnique acc (raw ∷ rest) r h u = elim (round acc raw rest r h) [
  | blank e k ↦ collect_scopes-IsUnique acc rest r k u
  | seen e n k ↦ collect_scopes-IsUnique acc rest r k u
  | added n g f k ↦
      collect_scopes-IsUnique (acc ++ trim_space raw ∷ []) rest r k (IsUnique-snoc acc _ u f)
]

IsSubset-snoc :
    (acc ys : List String) (scope : String)
    → contains ys scope ≡ true
    → IsSubset acc ys
    → IsSubset (acc ++ scope ∷ []) ys
unfolding contains
IsSubset-snoc acc ys scope g s x p =
    ground (arith, contains-append acc (scope ∷ []) x, eq_iff scope x, s x)

collect_scopes-allowed :
    (acc scopes r : List String)
    → collect_scopes acc scopes ≡ ok r
    → IsSubset acc allowed_scopes
    → IsSubset r allowed_scopes
unfolding collect_scopes
collect_scopes-allowed acc [] r h s =
    let e : acc ≡ r = ground arith in subst (λ l. IsSubset l allowed_scopes) e s
collect_scopes-allowed acc (raw ∷ rest) r h s = elim (round acc raw rest r h) [
  | blank e k ↦ collect_scopes-allowed acc rest r k s
  | seen e n k ↦ collect_scopes-allowed acc rest r k s
  | added n g f k ↦
      collect_scopes-allowed (acc ++ trim_space raw ∷ []) rest r k
        (IsSubset-snoc acc allowed_scopes (trim_space raw) g s)
]

collected :
    (scopes r : List String)
    → filter_scopes scopes ≡ ok r
    → (collect_scopes [] scopes ≡ ok r) × (contains r "openid" ≡ true)
unfolding filter_scopes
collected scopes r h = elim (Result-cases (collect_scopes [] scopes)) [
  | inl (l, e) ↦ (ground arith, ground arith)
  | inr (x, e) ↦ cc (rw e at h)
]

-- An accepted list of scopes has exactly the texts that were named, each once; all are allowed, and
-- openid is among them.
pub filter_scopes_sound :
    (scopes r : List String)
    → filter_scopes scopes ≡ ok r
    → ((x : String) → contains r x ≡ named scopes x)
      × IsUnique r
      × IsSubset r allowed_scopes
      × (contains r "openid" ≡ true)
unfolding contains
filter_scopes_sound scopes r h =
    let (c, o) = collected scopes r h in
    (
      collect_scopes-contains [] scopes r c,
      collect_scopes-IsUnique [] scopes r c tt,
      collect_scopes-allowed [] scopes r c (λ x p. cc),
      o,
    )
