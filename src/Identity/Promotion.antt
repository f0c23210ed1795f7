-- ===== src/Identity/Promotion.antt =====
-- internal/identity/level_progress.go: what the check of a level progress snapshot accepts.
use open_xai_connect.Base.{
  nat_eq, nat_eq_iff, ◌==◌, nat_eqs, string_eqs, Bool-cases, contains, eq_of_not_differs,
  of_not-false, ℤ, pos, negsuc, int_eq_iff, int_eqs, is_negative, increment, Error, message, ok,
  err, Check, refuse_if, refuse_if-passed, ℕ, suc, ◌<◌, String, ◌≡◌, refl, sym, ap, ◌∙◌, ◌⊎◌, inl,
  inr, Bool, true, false, not, Option, none, some, arith, eq_iff, subst,
}
use open_xai_connect.Identity.Progress.{
  LevelInfo, is_blank, labelled, validate_level_info, modes, validate_promotion_mode, is_given,
  validate_requirements_met, out_of_range, wrong_mode, validate_next, validate_promotion,
}

abbrev pub IsNamed : LevelInfo → Type 0
IsNamed info = (is_blank info.key ≡ false) × (is_blank info.label ≡ false)

-- The table of promotions: below level 3 by the requirements, from 3 to 4 by hand, at any level below 4
-- locked, and none from level 4.
pub data IsPromotion : ℤ → String → Option Bool → Option LevelInfo → Type 0 where
  automatic :
      (n : ℕ) (met : Bool) (next_level : LevelInfo)
      → n < 3
      → next_level.id ≡ pos (suc n)
      → IsNamed next_level
      → IsPromotion (pos n) "automatic" (some met) (some next_level)
  locked :
      (n : ℕ) (next_level : LevelInfo)
      → n < 4
      → next_level.id ≡ pos (suc n)
      → IsNamed next_level
      → IsPromotion (pos n) "locked" none (some next_level)
  manual :
      (next_level : LevelInfo)
      → next_level.id ≡ pos 4
      → IsNamed next_level
      → IsPromotion (pos 3) "manual" none (some next_level)
  last : IsPromotion (pos 4) "none" none none

pub labelled-passed : (text : String) (c : Check) → labelled text c ≡ ok tt → c ≡ ok tt
unfolding labelled
labelled-passed text (ok u) h = refl
labelled-passed text (err e) h = cc h

pub refused_last : (b : Bool) (e : Error) → refuse_if b e ≡ ok tt → b ≡ false
refused_last true e h = cc h
refused_last false e h = refl

pub validate_level_info-passed :
    (info : LevelInfo)
    → validate_level_info info ≡ ok tt
    → (is_negative info.id ≡ false) × IsNamed info
unfolding validate_level_info
validate_level_info-passed info h =
    let (a, h1) =
      refuse_if-passed (is_negative info.id) (message "level id must be non-negative") _ h in
    let (b, h2) =
      refuse_if-passed (is_blank info.key) (message "level key must not be empty") _ h1 in
    (a, (b, refused_last (is_blank info.label) _ h2))

-- A step up from a level below 4.
validate_next-passed :
    (n : ℕ) (mode : String) (next_level : Option LevelInfo)
    → n < 4
    → validate_next (pos n) mode next_level ≡ ok tt
    → (found : LevelInfo) × (next_level ≡ some found)
      × (found.id ≡ pos (suc n))
      × (wrong_mode (pos n) mode ≡ false)
      × IsNamed found
unfolding validate_next increment
validate_next-passed n mode none below h = cc h
validate_next-passed n mode (some found) below h =
    let (a, h1) =
      refuse_if-passed (not (found.id == increment (pos n)))
        (message "next level id does not match") _ h in
    let (b, h2) =
      refuse_if-passed (wrong_mode (pos n) mode) (message "promotion mode does not fit the level") _
        h1 in
    let step : increment (pos n) ≡ pos (suc n) = ground arith in
    (
      found,
      refl,
      (int_eq_iff found.id (increment (pos n))).0 (of_not-false _ a) ∙ step,
      b,
      (validate_level_info-passed found
          (labelled-passed "invalid next level" (validate_level_info found) h2)).1,
    )

-- What the two checks of the promotion say, for a level in range.
IsStep : ℕ → String → Option LevelInfo → Type 0
IsStep n mode next_level =
    ((n ≡ 4) × (mode ≡ "none") × (next_level ≡ none))
    ⊎ ((n < 4)
        × ((found : LevelInfo) × (next_level ≡ some found)
            × (found.id ≡ pos (suc n))
            × (wrong_mode (pos n) mode ≡ false)
            × IsNamed found))

not_given : {A : Type 0} (o : Option A) → is_given o ≡ false → o ≡ none
unfolding is_given
not_given none h = refl
not_given (some x) h = cc h

validate_promotion-passed :
    (n : ℕ) (mode : String) (next_level : Option LevelInfo)
    → out_of_range (pos n) ≡ false
    → validate_promotion (pos n) mode next_level ≡ ok tt
    → IsStep n mode next_level
unfolding validate_promotion IsStep out_of_range
validate_promotion-passed n mode next_level range h = elim (Bool-cases (nat_eq n 4)) [
  | inl e ↦
      let (a, b) =
        refuse_if-passed (is_given next_level) (message "level 4 must not include next_level")
          (refuse_if (not (mode == "none")) (message "level 4 must use none promotion mode"))
          (rw e at h) in
      let last_mode = refused_last (not (mode == "none")) _ b in
      inl ((nat_eq_iff n 4).0 e, eq_of_not_differs mode "none" last_mode, not_given next_level a)
  | inr e ↦
      let below : n < 4 = ground (arith, nat_eq_iff n 4) in
      inr (below, validate_next-passed n mode next_level below (rw e at h))
]

mode-cases :
    (mode : String)
    → contains modes mode ≡ true
    → (mode ≡ "automatic") ⊎ ((mode ≡ "manual") ⊎ ((mode ≡ "locked") ⊎ (mode ≡ "none")))
unfolding contains
mode-cases mode h = elim (Bool-cases ("automatic" == mode)) [
  | inl a ↦ inl (sym ((eq_iff "automatic" mode).0 a))
  | inr a ↦ elim (Bool-cases ("manual" == mode)) [
    | inl b ↦ inr (inl (sym ((eq_iff "manual" mode).0 b)))
    | inr b ↦ elim (Bool-cases ("locked" == mode)) [
      | inl c ↦ inr (inr (inl (sym ((eq_iff "locked" mode).0 c))))
      | inr c ↦ inr (inr (inr (sym ((eq_iff "none" mode).0 (ground arith)))))
    ]
  ]
]

-- The promotion for each mode.
automatic-IsPromotion :
    (n : ℕ) (met : Option Bool) (next_level : Option LevelInfo)
    → validate_requirements_met "automatic" met ≡ ok tt
    → IsStep n "automatic" next_level
    → IsPromotion (pos n) "automatic" met next_level
unfolding IsStep validate_requirements_met wrong_mode is_given
automatic-IsPromotion n none next_level h step = cc h
automatic-IsPromotion n (some met) next_level h (inl (_, e, _)) = cc e
automatic-IsPromotion n (some met) next_level h (inr (below, (found, e, id, mode, named))) =
    let low : n < 3 = ground (arith, nat_eq_iff n 3) in
    subst (IsPromotion (pos n) "automatic" (some met)) (sym e) (automatic n met found low id named)

locked-IsPromotion :
    (n : ℕ) (met : Option Bool) (next_level : Option LevelInfo)
    → validate_requirements_met "locked" met ≡ ok tt
    → IsStep n "locked" next_level
    → IsPromotion (pos n) "locked" met next_level
unfolding IsStep validate_requirements_met is_given contains
locked-IsPromotion n (some met) next_level h step = cc h
locked-IsPromotion n none next_level h (inl (_, e, _)) = cc e
locked-IsPromotion n none next_level h (inr (below, (found, e, id, mode, named))) =
    subst (IsPromotion (pos n) "locked" none) (sym e) (locked n found below id named)

manual-IsPromotion :
    (n : ℕ) (met : Option Bool) (next_level : Option LevelInfo)
    → validate_requirements_met "manual" met ≡ ok tt
    → IsStep n "manual" next_level
    → IsPromotion (pos n) "manual" met next_level
unfolding IsStep validate_requirements_met wrong_mode is_given contains
manual-IsPromotion n (some met) next_level h step = cc h
manual-IsPromotion n none next_level h (inl (_, e, _)) = cc e
manual-IsPromotion n none next_level h (inr (below, (found, e, id, mode, named))) =
    let three : n ≡ 3 = ground (arith, nat_eq_iff n 3) in
    let number : found.id ≡ pos 4 = id ∙ ap (λ k. pos (suc k)) three in
    subst (λ k. IsPromotion (pos k) "manual" none next_level) (sym three)
      (subst (IsPromotion (pos 3) "manual" none) (sym e) (manual found number named))

last-IsPromotion :
    (n : ℕ) (met : Option Bool) (next_level : Option LevelInfo)
    → validate_requirements_met "none" met ≡ ok tt
    → IsStep n "none" next_level
    → IsPromotion (pos n) "none" met next_level
unfolding IsStep validate_requirements_met wrong_mode is_given contains
last-IsPromotion n (some met) next_level h step = cc h
last-IsPromotion n none next_level h (inl (four, _, e)) =
    subst (λ k. IsPromotion (pos k) "none" none next_level) (sym four)
      (subst (IsPromotion (pos 4) "none" none) (sym e) last)
last-IsPromotion n none next_level h (inr (below, (found, e, id, mode, named))) =
    cc (wrong_none n mode)
  where
    wrong_none : (n : ℕ) → wrong_mode (pos n) "none" ≡ false → true ≡ false
    wrong_none n h = elim (Bool-cases (nat_eq n 3)) [
      | inl e ↦ cc (rw (e, wrong_mode) at h)
      | inr e ↦ cc (rw (e, wrong_mode) at h)
    ]

pub checks-IsPromotion :
    (level : ℤ) (mode : String) (met : Option Bool) (next_level : Option LevelInfo)
    → out_of_range level ≡ false
    → validate_promotion_mode mode ≡ ok tt
    → validate_requirements_met mode met ≡ ok tt
    → validate_promotion level mode next_level ≡ ok tt
    → IsPromotion level mode met next_level
unfolding validate_promotion_mode out_of_range
checks-IsPromotion (negsuc n) mode met next_level range known given promoted = cc range
checks-IsPromotion (pos n) mode met next_level range known given promoted =
    let step = validate_promotion-passed n mode next_level range promoted in
    let listed = of_not-false _ (refused_last (not (contains modes mode)) _ known) in
    let by_mode =
      λ (wanted : String) (e : mode ≡ wanted)
          (rule : validate_requirements_met wanted met ≡ ok tt
            → IsStep n wanted next_level
            → IsPromotion (pos n) wanted met next_level).
        subst (λ m. IsPromotion (pos n) m met next_level) (sym e)
          (rule (ap (λ m. validate_requirements_met m met) (sym e) ∙ given)
            (subst (λ m. IsStep n m next_level) e step)) in
    elim (mode-cases mode listed) [
      | inl e ↦ by_mode "automatic" e (automatic-IsPromotion n met next_level)
      | inr (inl e) ↦ by_mode "manual" e (manual-IsPromotion n met next_level)
      | inr (inr (inl e)) ↦ by_mode "locked" e (locked-IsPromotion n met next_level)
      | inr (inr (inr e)) ↦ by_mode "none" e (last-IsPromotion n met next_level)
    ]
