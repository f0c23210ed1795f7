-- ===== src/Identity/Promoted.antt =====
-- internal/identity/level_progress.go: the check accepts every promotion of the table.
use open_xai_connect.Base.{
  nat_eq, nat_eq_iff, ◌==◌, nat_eqs, string_eqs, contains, ℤ, pos, int_eq_iff, int_eqs, is_negative,
  increment, Error, ok, Check, ◌>>◌, refuse_if, ℕ, suc, ◌<◌, String, ◌≡◌, refl, sym, ap, ◌∙◌, Bool,
  true, false, not, Option, some, arith,
}
use open_xai_connect.Identity.Progress.{
  LevelInfo, is_blank, labelled, validate_level_info, validate_promotion_mode, is_given,
  validate_requirements_met, out_of_range, wrong_mode, validate_next, validate_promotion,
}
use open_xai_connect.Identity.Promotion.{IsNamed, IsPromotion, automatic, locked, manual, last}

pub passes :
    (b : Bool) (e : Error) (k : Check) → b ≡ false → k ≡ ok tt → (refuse_if b e >> k) ≡ ok tt
passes true e k h p = cc h
passes false e k h p = p

pub passes_last : (b : Bool) (e : Error) → b ≡ false → refuse_if b e ≡ ok tt
passes_last true e h = cc h
passes_last false e h = refl

pub labelled-ok : (text : String) (c : Check) → c ≡ ok tt → labelled text c ≡ ok tt
unfolding labelled
labelled-ok text c h = rw h refl

pub validate_level_info-ok :
    (info : LevelInfo)
    → is_negative info.id ≡ false
    → IsNamed info
    → validate_level_info info ≡ ok tt
unfolding validate_level_info
validate_level_info-ok info a (b, c) =
    passes (is_negative info.id) _ _ a
      (passes (is_blank info.key) _ _ b (passes_last (is_blank info.label) _ c))

validate_next-ok :
    (n : ℕ) (mode : String) (found : LevelInfo)
    → n < 4
    → found.id ≡ pos (suc n)
    → wrong_mode (pos n) mode ≡ false
    → IsNamed found
    → validate_promotion (pos n) mode (some found) ≡ ok tt
unfolding validate_promotion validate_next increment
validate_next-ok n mode found below id right named =
    let step : increment (pos n) ≡ pos (suc n) = ground arith in
    let same : (found.id == increment (pos n)) ≡ true =
      (int_eq_iff found.id (increment (pos n))).1 (id ∙ sym step) in
    let not_last : nat_eq n 4 ≡ false = ground (arith, nat_eq_iff n 4) in
    let numbered : not (found.id == increment (pos n)) ≡ false = ground arith in
    rw not_last (
      passes (not (found.id == increment (pos n))) _ _ numbered (
        passes (wrong_mode (pos n) mode) _ _ right (
          labelled-ok "invalid next level" _
            (validate_level_info-ok found (ap is_negative id) named))))

-- The checks that concern the promotion.
abbrev pub IsPassed : ℤ → String → Option Bool → Option LevelInfo → Type 0
IsPassed level mode met next_level =
    (out_of_range level ≡ false)
    × (validate_promotion_mode mode ≡ ok tt)
    × (validate_requirements_met mode met ≡ ok tt)
    × (validate_promotion level mode next_level ≡ ok tt)

pub IsPromotion-IsPassed :
    {level : ℤ} {mode : String} {met : Option Bool} {next_level : Option LevelInfo}
    → IsPromotion level mode met next_level
    → IsPassed level mode met next_level
unfolding out_of_range validate_promotion_mode validate_requirements_met validate_promotion
    wrong_mode is_given contains
IsPromotion-IsPassed (automatic n met next_level low id named) = (
  ground arith,
  refl,
  refl,
  validate_next-ok n "automatic" next_level (omega arith) id (ground (arith, nat_eq_iff n 3)) named,
)
IsPromotion-IsPassed (locked n next_level below id named) = (
  ground arith,
  refl,
  refl,
  validate_next-ok n "locked" next_level below id (ground (arith, nat_eq_iff n 3)) named,
)
IsPromotion-IsPassed (manual next_level id named) =
    (refl, refl, refl, validate_next-ok 3 "manual" next_level (omega arith) id refl named)
IsPromotion-IsPassed last = (refl, refl, refl, refl)
