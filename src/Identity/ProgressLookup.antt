-- ===== src/Identity/ProgressLookup.antt =====
-- internal/identity/level_progress.go: the refresher, over a provider, the user repository and a cache.
use open_xai_connect.Base.{
  if◌then◌else◌, nat_eqs, string_eqs, ℤ, pos, int_eqs, message, ok, err, String, Bool, not, Option,
  none, some,
}
use open_xai_connect.Base.Exec.{Exec, pure, raise, lift, ◌>>=◌, ◌>>◌}
use open_xai_connect.Domain.Application.{Duration}
use open_xai_connect.Store.Users.{get_by_subject}
use open_xai_connect.Identity.Directory.{Directory, D, on_remote, on_directory}
use open_xai_connect.Identity.Progress.{LevelProgressSnapshot, validate_for}
use open_xai_connect.Portal.World.{Env}

-- LevelProgressCache, over a state of its own.
pub record ProgressCache (C : Type 0) : Type 0 where
  pub get : ℤ → Exec C (Option LevelProgressSnapshot)
  pub set : LevelProgressSnapshot → Duration → Exec C (Unit {0})
  pub invalidate : ℤ → Exec C (Unit {0})

-- The provider, the repository and the cache may be nil.
pub record LevelProgressRefresher (R C : Type 0) : Type 0 where
  pub provider : Option (ℤ → Exec R LevelProgressSnapshot)
  pub has_users : Bool
  pub cache : Option (ProgressCache C)

pub record Levels (R C : Type 0) : Type 0 where
  pub directory : Directory R
  pub cached : C

abbrev pub L : Type 0 → Type 0 → Type 0 → Type 0
L R C A = Exec (Levels R C) A

module _ {R C A : Type 0} where
  unfoldable pub in_users : D R A → L R C A
  in_users op w = let (r, d) = op w.directory in (r, record w { directory = d })

  unfoldable pub in_cache : Exec C A → L R C A
  in_cache op w = let (r, c) = op w.cached in (r, record w { cached = c })

module _ {R C : Type 0} where
  unfoldable pub remember :
      Option (ProgressCache C) → LevelProgressSnapshot → L R C LevelProgressSnapshot
  remember none snapshot = pure snapshot
  remember (some cache) snapshot = do in_cache (cache.set snapshot (pos 0)); pure snapshot

  -- Discourse's answer, checked and put into the cache.
  unfoldable pub fetch_progress :
      (ℤ → Exec R LevelProgressSnapshot)
      → Option (ProgressCache C)
      → ℤ
      → L R C LevelProgressSnapshot
  unfolding remember
  fetch_progress fetch cache id = do
    snapshot ← in_users (on_remote (fetch id))
    lift (validate_for id snapshot)
    remember cache snapshot

  -- What the cache held: a valid snapshot is returned, another one is dropped, whether or not that works.
  unfoldable pub use_cached :
      (ℤ → Exec R LevelProgressSnapshot)
      → ProgressCache C
      → ℤ
      → Option LevelProgressSnapshot
      → L R C LevelProgressSnapshot
  unfolding fetch_progress
  use_cached fetch cache id none = fetch_progress fetch (some cache) id
  use_cached fetch cache id (some snapshot) = elim (validate_for id snapshot) [
    | ok _ ↦ pure snapshot
    | err e ↦ (λ w.
        fetch_progress fetch (some cache) id
          (record w { cached = (cache.invalidate id w.cached).1 }))
  ]

  unfoldable pub progress_of :
      (ℤ → Exec R LevelProgressSnapshot)
      → Option (ProgressCache C)
      → ℤ
      → L R C LevelProgressSnapshot
  unfolding use_cached fetch_progress
  progress_of fetch none id = fetch_progress fetch none id
  progress_of fetch (some cache) id = in_cache (cache.get id) >>= use_cached fetch cache id

  unfoldable pub current_level_progress :
      Env → LevelProgressRefresher R C → String → L R C LevelProgressSnapshot
  unfolding progress_of
  current_level_progress env s subject = elim s.provider [
    | none ↦ raise (message "level progress refresher is not initialized")
    | some fetch ↦
        if not s.has_users
        then raise (message "level progress refresher is not initialized")
        else (in_users (on_directory env (get_by_subject subject)) >>= λ user.
            progress_of fetch s.cache user.discourse_id)
  ]
