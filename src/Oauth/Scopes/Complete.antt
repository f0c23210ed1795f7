-- ===== src/Oauth/Scopes/Complete.antt =====
-- When the filter accepts, and what the comparison of two lists of scopes decides.
use open_xai_connect.Base.{
  nat_eq, if◌then◌else◌, ◌==◌, nat_eqs, string_eqs, Bool-cases, length, contains, trim_space,
  int_eqs, ok, Result-cases, suc, String, ◌≡◌, refl, ◌∙◌, ◌≢◌, inl, inr, Bool, true, false, ◌&&◌,
  List, [], ◌∷◌, ◌++◌, arith, eq_iff,
}
use open_xai_connect.Oauth.Scopes.{
  allowed_scopes, collect_scopes, filter_scopes, all_in, same_strings,
}
use open_xai_connect.Oauth.Scopes.Laws.{
  named, IsSubset, IsUnique, collect_scopes-contains, filter_scopes_sound,
}

-- Every named text is an allowed scope.
abbrev pub IsAllowed : List String → Type 0
IsAllowed scopes = (x : String) → named scopes x ≡ true → contains allowed_scopes x ≡ true

collect_scopes-total :
    (acc scopes : List String)
    → IsAllowed scopes
    → (r : List String) × (collect_scopes acc scopes ≡ ok r)
unfolding collect_scopes named
collect_scopes-total acc [] h = (acc, refl)
collect_scopes-total acc (raw ∷ rest) h =
    let scope : String = trim_space raw in
    let later : IsAllowed rest = λ x p. h x (ground arith) in
    elim (Bool-cases (scope == "")) [
      | inl e ↦ rw (e, collect_scopes) (collect_scopes-total acc rest later)
      | inr e ↦
          let good = h scope (ground (arith, eq_iff scope scope)) in
          elim (Bool-cases (contains acc scope)) [
            | inl old ↦ rw (e, collect_scopes, good, old) (collect_scopes-total acc rest later)
            | inr new ↦
                rw (e, collect_scopes, good, new)
                  (collect_scopes-total (acc ++ scope ∷ []) rest later)
          ]
    ]

contains-nonempty :
    (xs : List String) (x : String) → contains xs x ≡ true → nat_eq (length xs) 0 ≡ false
unfolding contains
contains-nonempty [] x h = cc
contains-nonempty (y ∷ xs) x h = ground arith

-- The filter accepts a list whose named texts are all allowed and hold openid.
pub filter_scopes_complete :
    (scopes : List String)
    → IsAllowed scopes
    → named scopes "openid" ≡ true
    → (r : List String) × (filter_scopes scopes ≡ ok r)
unfolding filter_scopes contains
filter_scopes_complete scopes h o =
    let (r, e) = collect_scopes-total [] scopes h in
    let has : contains r "openid" ≡ true = collect_scopes-contains [] scopes r e "openid" ∙ o in
    (r, rw (e) (ground (arith, has, contains-nonempty r "openid" has)))

remove : String → List String → List String
remove x [] = []
remove x (y ∷ ys) = if y == x then ys else y ∷ remove x ys

length-remove :
    (x : String) (ys : List String) → contains ys x ≡ true → length ys ≡ suc (length (remove x ys))
unfolding remove contains
length-remove x [] h = cc
length-remove x (y ∷ ys) h = ground (arith, length-remove x ys)

contains-remove :
    (x z : String) (ys : List String) → x ≢ z → contains (remove x ys) z ≡ contains ys z
unfolding remove contains
contains-remove x z [] ne = refl
contains-remove x z (y ∷ ys) ne = ground (arith, contains-remove x z ys ne, eq_iff y x, eq_iff y z)

-- A list without repetition that lies in a list of its own length has all of its elements.
pigeonhole :
    (xs ys : List String) → IsUnique xs → IsSubset xs ys → length xs ≡ length ys → IsSubset ys xs
unfolding contains
pigeonhole [] [] u s l z p = p
pigeonhole [] (y ∷ ys) u s l z p = absurd (omega arith)
pigeonhole (x ∷ xs) ys u s l z p =
    let x_in : contains ys x ≡ true = s x (ground (arith, eq_iff x x)) in
    elim (Bool-cases (x == z)) [
      | inl e ↦ ground arith
      | inr e ↦
          let ne : x ≢ z = λ same. cc ((eq_iff x z).1 same, e) in
          let inside : IsSubset xs (remove x ys) = λ w q.
            (let away : x ≢ w = λ same. cc (q, u.0, same) in
              contains-remove x w ys away ∙ s w (ground arith)) in
          ground (
            arith,
            contains-remove x z ys ne,
            pigeonhole xs (remove x ys) u.1 inside (omega (arith, length-remove x ys x_in)) z,
          )
    ]

all_in-contains :
    (xs ys : List String) (x : String)
    → all_in xs ys ≡ true
    → contains xs x ≡ true
    → contains ys x ≡ true
unfolding all_in contains
all_in-contains [] ys x h p = cc
all_in-contains (y ∷ xs) ys x h p = ground (arith, eq_iff y x, all_in-contains xs ys x)

Bool-ext : {a b : Bool} → (a ≡ true → b ≡ true) → (b ≡ true → a ≡ true) → a ≡ b
Bool-ext f g = ground arith

-- Where two lists pass the comparison, and the left one has no repetition, they name the same scopes.
pub same_strings_sound :
    (left right : List String)
    → IsUnique left
    → same_strings left right ≡ true
    → (x : String) → contains left x ≡ named right x
unfolding same_strings
same_strings_sound left right u h x = elim (Result-cases (filter_scopes right)) [
  | inr (f, e) ↦ cc (rw e at h)
  | inl (r, e) ↦
      let named_in = (filter_scopes_sound right r e).0 in
      let test : (nat_eq (length left) (length r) && all_in left r) ≡ true = rw e at h in
      let forth : IsSubset left r = λ z. all_in-contains left r z (ground arith) in
      let back = pigeonhole left r u forth (ground arith) in
      Bool-ext (forth x) (back x) ∙ named_in x
]
