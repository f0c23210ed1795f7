-- ===== src/Identity/Progress.antt =====
-- internal/identity/level_progress.go: a user's progress to the next trust level, and the check of what
-- Discourse answers. The time at which the answer was made is not read and left out.
use open_xai_connect.Base.{
  ltb, if◌then◌else◌, ◌==◌, nat_eqs, string_eqs, length, contains, trim_space, ℤ, pos, negsuc,
  int_eqs, is_negative, increment, message, wrapped, ok, err, Check, ◌>>◌, refuse_if, for_each,
  String, Bool, true, false, not, ◌&&◌, Option, none, some, List, [], ◌∷◌,
}

pub record LevelInfo : Type 0 where
  pub id : ℤ
  pub key : String
  pub label : String

pub record LevelRequirement : Type 0 where
  pub key : String
  pub label : String
  pub group : String
  pub scope : String
  pub period_days : Option ℤ
  pub current : ℤ
  pub target : ℤ
  pub operator : String
  pub unit : String
  pub met : Bool

pub record LevelBlockingCondition : Type 0 where
  pub key : String
  pub label : String
  pub met : Bool

pub record LevelProgressSnapshot : Type 0 where
  pub schema_version : ℤ
  pub discourse_id : ℤ
  pub current_level : LevelInfo
  pub next_level : Option LevelInfo
  pub promotion_mode : String
  pub requirements_met : Option Bool
  pub requirements : List LevelRequirement
  pub blocking_conditions : List LevelBlockingCondition

unfoldable pub is_blank : String → Bool
is_blank text = trim_space text == ""

-- fmt.Errorf("...: %w", err)
unfoldable pub labelled : String → Check → Check
labelled text (ok u) = ok u
labelled text (err e) = err (wrapped e text)

unfoldable pub validate_level_info : LevelInfo → Check
unfolding is_blank
validate_level_info info = do
  refuse_if (is_negative info.id) (message "level id must be non-negative")
  refuse_if (is_blank info.key) (message "level key must not be empty")
  refuse_if (is_blank info.label) (message "level label must not be empty")

abbrev pub modes : List String
modes = "automatic" ∷ "manual" ∷ "locked" ∷ "none" ∷ []

unfoldable pub validate_promotion_mode : String → Check
validate_promotion_mode mode =
    refuse_if (not (contains modes mode)) (message "unknown promotion mode")

unfoldable pub is_given {ℓ} : {A : Type ℓ} → Option A → Bool
is_given none = false
is_given (some x) = true

-- The switch over the promotion mode: exactly the automatic mode says whether the requirements are met.
unfoldable pub validate_requirements_met : String → Option Bool → Check
unfolding is_given
validate_requirements_met mode met =
    if mode == "automatic"
    then refuse_if (not (is_given met))
        (message "automatic level progress requires requirements_met")
    else refuse_if (contains modes mode && is_given met)
        (message "level progress must not include requirements_met")

unfoldable pub is_negative_given : Option ℤ → Bool
is_negative_given none = false
is_negative_given (some n) = is_negative n

unfoldable pub validate_level_requirement : LevelRequirement → Check
unfolding is_blank is_negative_given
validate_level_requirement r = do
  refuse_if (is_blank r.key) (message "requirement key must not be empty")
  refuse_if (is_blank r.label) (message "requirement label must not be empty")
  refuse_if (not (contains ("account_lifetime" ∷ "rolling_period" ∷ "all_time" ∷ []) r.scope))
      (message "unsupported scope")
  refuse_if (not (contains ("at_least" ∷ "at_most" ∷ "equals" ∷ []) r.operator))
      (message "unsupported operator")
  refuse_if (not (contains ("count" ∷ "days" ∷ "minutes" ∷ []) r.unit)) (message "unsupported unit")
  refuse_if (is_negative r.current) (message "current value must be non-negative")
  refuse_if (is_negative r.target) (message "target value must be non-negative")
  refuse_if (is_negative_given r.period_days) (message "period_days must be non-negative")

unfoldable pub validate_blocking_condition : LevelBlockingCondition → Check
unfolding is_blank
validate_blocking_condition c = do
  refuse_if (is_blank c.key) (message "blocking condition key must not be empty")
  refuse_if (is_blank c.label) (message "blocking condition label must not be empty")

unfoldable pub out_of_range : ℤ → Bool
out_of_range (pos n) = ltb 4 n
out_of_range (negsuc n) = true

unfoldable pub wrong_mode : ℤ → String → Bool
wrong_mode level mode =
    if level == pos 3
    then not (mode == "manual") && not (mode == "locked")
    else not (mode == "automatic") && not (mode == "locked")

unfoldable pub validate_next : ℤ → String → Option LevelInfo → Check
unfolding wrong_mode validate_level_info labelled
validate_next level mode none = err (message "non-terminal level progress must include next_level")
validate_next level mode (some next_level) = do
  refuse_if (not (next_level.id == increment level)) (message "next level id does not match")
  refuse_if (wrong_mode level mode) (message "promotion mode does not fit the level")
  labelled "invalid next level" (validate_level_info next_level)

unfoldable pub validate_promotion : ℤ → String → Option LevelInfo → Check
unfolding validate_next is_given
validate_promotion level mode next_level =
    if level == pos 4
    then (refuse_if (is_given next_level) (message "level 4 must not include next_level")
        >> refuse_if (not (mode == "none")) (message "level 4 must use none promotion mode"))
    else validate_next level mode next_level

unfoldable pub validate_for : ℤ → LevelProgressSnapshot → Check
unfolding validate_level_info validate_promotion_mode validate_requirements_met
    validate_level_requirement validate_blocking_condition out_of_range validate_promotion labelled
validate_for discourse_id s = do
  refuse_if (not (s.schema_version == pos 1)) (message "unsupported level progress schema version")
  refuse_if (not (s.discourse_id == discourse_id)) (message "level progress discourse id mismatch")
  labelled "invalid current level" (validate_level_info s.current_level)
  refuse_if (out_of_range s.current_level.id) (message "current level is out of range")
  validate_promotion_mode s.promotion_mode
  validate_requirements_met s.promotion_mode s.requirements_met
  refuse_if (ltb 64 (length s.requirements)) (message "too many requirements")
  for_each (λ r. labelled "invalid requirement" (validate_level_requirement r)) s.requirements
  for_each (λ c. labelled "invalid blocking condition" (validate_blocking_condition c))
      s.blocking_conditions
  validate_promotion s.current_level.id s.promotion_mode s.next_level
