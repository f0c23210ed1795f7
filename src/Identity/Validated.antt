-- ===== src/Identity/Validated.antt =====
-- internal/identity/level_progress.go: the check of a snapshot against a description of what is accepted.
use open_xai_connect.Base.{
  ltb, ◌==◌, nat_eqs, string_eqs, length, All, contains, of_not-false, ℤ, pos, negsuc, int_eq_iff,
  int_eqs, is_negative, message, ok, err, Check, ◌>>◌, refuse_if, for_each, refuse_if-passed, ◌≤◌,
  ◌≡◌, refl, ◌↔◌, Bool, true, false, not, List, [], ◌∷◌, arith,
}
use open_xai_connect.Identity.Progress.{
  LevelRequirement, LevelBlockingCondition, LevelProgressSnapshot, is_blank, labelled,
  validate_level_info, validate_promotion_mode, validate_requirements_met, is_negative_given,
  validate_level_requirement, validate_blocking_condition, out_of_range, validate_for,
}
use open_xai_connect.Identity.Promotion.{
  IsNamed, IsPromotion, labelled-passed, refused_last, validate_level_info-passed,
  checks-IsPromotion,
}
use open_xai_connect.Identity.Promoted.{
  passes, passes_last, labelled-ok, validate_level_info-ok, IsPromotion-IsPassed,
}

pub record IsRequirement (r : LevelRequirement) : Type 0 where
  pub key : is_blank r.key ≡ false
  pub label : is_blank r.label ≡ false
  pub scope : contains ("account_lifetime" ∷ "rolling_period" ∷ "all_time" ∷ []) r.scope ≡ true
  pub operator : contains ("at_least" ∷ "at_most" ∷ "equals" ∷ []) r.operator ≡ true
  pub unit : contains ("count" ∷ "days" ∷ "minutes" ∷ []) r.unit ≡ true
  pub current : is_negative r.current ≡ false
  pub target : is_negative r.target ≡ false
  pub period : is_negative_given r.period_days ≡ false

abbrev pub IsCondition : LevelBlockingCondition → Type 0
IsCondition c = (is_blank c.key ≡ false) × (is_blank c.label ≡ false)

-- What a snapshot for a user should be.
pub record IsProgress (discourse_id : ℤ) (s : LevelProgressSnapshot) : Type 0 where
  pub version : s.schema_version ≡ pos 1
  pub number : s.discourse_id ≡ discourse_id
  pub named : IsNamed s.current_level
  pub promotion : IsPromotion s.current_level.id s.promotion_mode s.requirements_met s.next_level
  pub few : length s.requirements ≤ 64
  pub requirements : All IsRequirement s.requirements
  pub conditions : All IsCondition s.blocking_conditions

-- Two checks in a row.
both-passed : (c d : Check) → (c >> d) ≡ ok tt → (c ≡ ok tt) × (d ≡ ok tt)
both-passed (ok tt) d h = (refl, h)
both-passed (err e) d h = cc h

both-ok : (c d : Check) → c ≡ ok tt → d ≡ ok tt → (c >> d) ≡ ok tt
both-ok (ok tt) d h k = k
both-ok (err e) d h k = cc h

-- A loop that stops at the first error passes exactly if each element passes.
module _ {A : Type 0} (P : A → Type 0) (f : A → Check) where
  for_each-passed : (xs : List A) → ((x : A) → f x ≡ ok tt → P x) → for_each f xs ≡ ok tt → All P xs
  for_each-passed [] h e = tt
  for_each-passed (x ∷ xs) h e =
      let (a, b) = both-passed (f x) (for_each f xs) e in (h x a, for_each-passed xs h b)

  for_each-ok : (xs : List A) → ((x : A) → P x → f x ≡ ok tt) → All P xs → for_each f xs ≡ ok tt
  for_each-ok [] h all = refl
  for_each-ok (x ∷ xs) h (a, rest) = both-ok (f x) (for_each f xs) (h x a) (for_each-ok xs h rest)

validate_level_requirement-IsRequirement :
    (r : LevelRequirement) → validate_level_requirement r ≡ ok tt → IsRequirement r
unfolding validate_level_requirement
validate_level_requirement-IsRequirement r h =
    let (a, h1) =
      refuse_if-passed (is_blank r.key) (message "requirement key must not be empty") _ h in
    let (b, h2) =
      refuse_if-passed (is_blank r.label) (message "requirement label must not be empty") _ h1 in
    let (c, h3) =
      refuse_if-passed
        (not (contains ("account_lifetime" ∷ "rolling_period" ∷ "all_time" ∷ []) r.scope))
        (message "unsupported scope") _ h2 in
    let (d, h4) =
      refuse_if-passed (not (contains ("at_least" ∷ "at_most" ∷ "equals" ∷ []) r.operator))
        (message "unsupported operator") _ h3 in
    let (e, h5) =
      refuse_if-passed (not (contains ("count" ∷ "days" ∷ "minutes" ∷ []) r.unit))
        (message "unsupported unit") _ h4 in
    let (f, h6) =
      refuse_if-passed (is_negative r.current) (message "current value must be non-negative") _
        h5 in
    let (g, h7) =
      refuse_if-passed (is_negative r.target) (message "target value must be non-negative") _ h6 in
    record {
      key = a;
      label = b;
      scope = of_not-false _ c;
      operator = of_not-false _ d;
      unit = of_not-false _ e;
      current = f;
      target = g;
      period = refused_last (is_negative_given r.period_days) _ h7;
    }

listed : (b : Bool) → b ≡ true → not b ≡ false
listed b h = ground arith

IsRequirement-ok : (r : LevelRequirement) → IsRequirement r → validate_level_requirement r ≡ ok tt
unfolding validate_level_requirement
IsRequirement-ok r h = passes (is_blank r.key) _ _ h.key (
    passes (is_blank r.label) _ _ h.label (
      passes (not (contains ("account_lifetime" ∷ "rolling_period" ∷ "all_time" ∷ []) r.scope)) _ _
        (listed _ h.scope)
        (passes (not (contains ("at_least" ∷ "at_most" ∷ "equals" ∷ []) r.operator)) _ _
          (listed _ h.operator)
          (passes (not (contains ("count" ∷ "days" ∷ "minutes" ∷ []) r.unit)) _ _ (listed _ h.unit)
            (passes (is_negative r.current) _ _ h.current (
              passes (is_negative r.target) _ _ h.target
                (passes_last (is_negative_given r.period_days) _ h.period)))))))

validate_blocking_condition-IsCondition :
    (c : LevelBlockingCondition) → validate_blocking_condition c ≡ ok tt → IsCondition c
unfolding validate_blocking_condition
validate_blocking_condition-IsCondition c h =
    let (a, h1) =
      refuse_if-passed (is_blank c.key) (message "blocking condition key must not be empty") _ h in
    (a, refused_last (is_blank c.label) _ h1)

IsCondition-ok :
    (c : LevelBlockingCondition) → IsCondition c → validate_blocking_condition c ≡ ok tt
unfolding validate_blocking_condition
IsCondition-ok c (a, b) = passes (is_blank c.key) _ _ a (passes_last (is_blank c.label) _ b)

not_negative : (level : ℤ) → out_of_range level ≡ false → is_negative level ≡ false
unfolding out_of_range
not_negative (pos n) h = refl
not_negative (negsuc n) h = cc h

validate_for-IsProgress :
    (discourse_id : ℤ) (s : LevelProgressSnapshot)
    → validate_for discourse_id s ≡ ok tt
    → IsProgress discourse_id s
unfolding validate_for
validate_for-IsProgress discourse_id s h =
    let (a, h1) = both-passed (refuse_if (not (s.schema_version == pos 1)) _) _ h in
    let (b, h2) = both-passed (refuse_if (not (s.discourse_id == discourse_id)) _) _ h1 in
    let (c, h3) = both-passed (labelled _ (validate_level_info s.current_level)) _ h2 in
    let (d, h4) = both-passed (refuse_if (out_of_range s.current_level.id) _) _ h3 in
    let (e, h5) = both-passed (validate_promotion_mode s.promotion_mode) _ h4 in
    let (f, h6) =
      both-passed (validate_requirements_met s.promotion_mode s.requirements_met) _ h5 in
    let (g, h7) = both-passed (refuse_if (ltb 64 (length s.requirements)) _) _ h6 in
    let (i, h8) = both-passed (for_each _ s.requirements) _ h7 in
    let (j, k) = both-passed (for_each _ s.blocking_conditions) _ h8 in
    let many = refused_last (ltb 64 (length s.requirements)) _ g in
    record {
      version =
          (int_eq_iff s.schema_version (pos 1)).0
            (of_not-false _ (refused_last (not (s.schema_version == pos 1)) _ a));
      number =
          (int_eq_iff s.discourse_id discourse_id).0
            (of_not-false _ (refused_last (not (s.discourse_id == discourse_id)) _ b));
      named =
          (validate_level_info-passed s.current_level
            (labelled-passed _ (validate_level_info s.current_level) c)).1;
      promotion =
          checks-IsPromotion s.current_level.id s.promotion_mode s.requirements_met s.next_level
            (refused_last (out_of_range s.current_level.id) _ d) e f k;
      few = ground arith;
      requirements =
          for_each-passed IsRequirement _ s.requirements
            (λ r p.
              validate_level_requirement-IsRequirement r
                (labelled-passed _ (validate_level_requirement r) p))
            i;
      conditions =
          for_each-passed IsCondition _ s.blocking_conditions
            (λ r p.
              validate_blocking_condition-IsCondition r
                (labelled-passed _ (validate_blocking_condition r) p))
            j;
    }

IsProgress-validate_for :
    (discourse_id : ℤ) (s : LevelProgressSnapshot)
    → IsProgress discourse_id s
    → validate_for discourse_id s ≡ ok tt
unfolding validate_for
IsProgress-validate_for discourse_id s p =
    let (range, known, given, promoted) = IsPromotion-IsPassed p.promotion in
    let few = p.few in
    let many : ltb 64 (length s.requirements) ≡ false = ground arith in
    passes (not (s.schema_version == pos 1)) _ _
      (listed _ ((int_eq_iff s.schema_version (pos 1)).1 p.version))
      (passes (not (s.discourse_id == discourse_id)) _ _
        (listed _ ((int_eq_iff s.discourse_id discourse_id).1 p.number))
        (both-ok _ _
          (labelled-ok _ (validate_level_info s.current_level) (
            validate_level_info-ok s.current_level (not_negative s.current_level.id range) p.named))
          (passes (out_of_range s.current_level.id) _ _ range (
            both-ok _ _ known (
              both-ok _ _ given (
                passes (ltb 64 (length s.requirements)) _ _ many (
                  both-ok _ _
                    (for_each-ok IsRequirement _ s.requirements
                      (λ r q. labelled-ok _ (validate_level_requirement r) (IsRequirement-ok r q))
                      p.requirements)
                    (both-ok _ _
                      (for_each-ok IsCondition _ s.blocking_conditions
                        (λ r q. labelled-ok _ (validate_blocking_condition r) (IsCondition-ok r q))
                        p.conditions)
                      promoted))))))))

-- The check of a level progress snapshot passes exactly if the snapshot has version 1 and the
-- number of the user, a named current level, a promotion of the table (by the requirements below
-- level 3, by hand from 3 to 4, locked below 4, none from 4, with the next level one up and named),
-- at most 64 requirements and only well-formed requirements and conditions.
pub validate_for_iff :
    (discourse_id : ℤ) (s : LevelProgressSnapshot)
    → (validate_for discourse_id s ≡ ok tt) ↔ IsProgress discourse_id s
validate_for_iff discourse_id s =
    (validate_for-IsProgress discourse_id s, IsProgress-validate_for discourse_id s)
