-- ===== src/Identity/ProgressTests.antt =====
-- Runs of the level progress check and of its refresher (internal/identity/level_progress.go).
use open_xai_connect.Base.{
  nat_eqs, string_eqs, contains, trim_space, lookup, pos, int_eqs, increment, message, ok, err, ◌≡◌,
  refl, ◌↔◌, false, none, some, [], ◌∷◌,
}
use open_xai_connect.Base.Exec.{pure, raise, ◌>>=◌}
use open_xai_connect.Domain.User.{User}
use open_xai_connect.Store.Users.{get_by_subject, zero_user}
use open_xai_connect.Identity.Directory.{on_remote, on_directory}
use open_xai_connect.Identity.Progress.{
  LevelRequirement, LevelProgressSnapshot, is_blank, labelled, validate_level_info,
  validate_promotion_mode, is_given, validate_requirements_met, is_negative_given,
  validate_level_requirement, out_of_range, wrong_mode, validate_next, validate_promotion,
  validate_for,
}
use open_xai_connect.Identity.ProgressLookup.{
  ProgressCache, Levels, in_users, in_cache, remember, fetch_progress, use_cached, progress_of,
  current_level_progress,
}
use open_xai_connect.Identity.Validated.{IsProgress, validate_for_iff}
use open_xai_connect.Identity.Shown.{current_level_progress-IsProgress}
use open_xai_connect.Portal.World.{Env}

abbrev a_requirement : LevelRequirement
a_requirement = record {
  key = "topics";
  label = "Topics read";
  group = "";
  scope = "rolling_period";
  period_days = some (pos 100);
  current = pos 3;
  target = pos 20;
  operator = "at_least";
  unit = "count";
  met = false;
}

abbrev a_progress : LevelProgressSnapshot
a_progress = record {
  schema_version = pos 1;
  discourse_id = pos 7;
  current_level = record { id = pos 2; key = "member"; label = "Member" };
  next_level = some (record { id = pos 3; key = "regular"; label = "Regular" });
  promotion_mode = "automatic";
  requirements_met = some false;
  requirements = a_requirement ∷ [];
  blocking_conditions = [];
}

accepted_run : validate_for (pos 7) a_progress ≡ ok tt
unfolding validate_for validate_level_info validate_promotion_mode validate_requirements_met
    validate_level_requirement validate_promotion validate_next wrong_mode is_given is_blank
    is_negative_given out_of_range labelled contains trim_space increment
accepted_run = refl

by_hand_run :
    validate_for (pos 7) (record a_progress { promotion_mode = "manual"; requirements_met = none })
    ≡ err (message "promotion mode does not fit the level")
unfolding validate_for validate_level_info validate_promotion_mode validate_requirements_met
    validate_level_requirement validate_promotion validate_next wrong_mode is_given is_blank
    is_negative_given out_of_range labelled contains trim_space increment
by_hand_run = refl

validate_for_iff_example : (validate_for (pos 7) a_progress ≡ ok tt) ↔ IsProgress (pos 7) a_progress
validate_for_iff_example = validate_for_iff (pos 7) a_progress

abbrev a_user : User
a_user = record zero_user { subject = "u1"; discourse_id = pos 7 }

abbrev levels : Levels (Unit {0}) (Unit {0})
levels = record {
  directory = record {
    users = record { by_subject = ("u1", a_user) ∷ []; by_discourse = (pos 7, "u1") ∷ [] };
    remote = tt;
    step = 0;
  };
  cached = tt;
}

abbrev calm : Env
calm = record { clock = λ n. 1; fault = λ n. none; random = λ n. none }

-- A cache that holds the snapshot of another user.
abbrev stale_cache : ProgressCache (Unit {0})
stale_cache = record {
  get = λ id. pure (some (record a_progress { discourse_id = pos 8 }));
  set = λ snapshot ttl. pure tt;
  invalidate = λ id. raise (message "no cache");
}

current_level_progress-IsProgress_example :
    (user : User) × (lookup "u1" levels.directory.users.by_subject ≡ some user)
    × IsProgress user.discourse_id a_progress
unfolding current_level_progress progress_of use_cached fetch_progress remember in_users in_cache
    on_remote on_directory get_by_subject validate_for validate_level_info validate_promotion_mode
    validate_requirements_met validate_level_requirement validate_promotion validate_next wrong_mode
    is_given is_blank is_negative_given out_of_range labelled contains trim_space increment lookup
    ◌>>=◌
current_level_progress-IsProgress_example =
    current_level_progress-IsProgress calm (λ id. pure a_progress) (some stale_cache) "u1" levels
      (record levels { directory = record levels.directory { step = 1 } }) a_progress refl
