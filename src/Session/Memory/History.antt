-- ===== src/Session/Memory/History.antt =====
-- Any history of calls on a memory store that starts empty.
use open_xai_connect.Base.{
  nat_eqs, string_eqs, Option-cases, lookup, int_eqs, ok, ◌≤◌, ◌<◌, String, ◌≡◌, refl, ap, ◌∙◌, inl,
  inr, true, Option, none, some, arith,
}
use open_xai_connect.Domain.Application.{Time, Duration, add}
use open_xai_connect.Session.Memory.{
  Session, MemoryStore, new_memory_store, valid_at, Context, create, get, slide, refresh, touch,
  mark_home_verified, delete_session,
}
use open_xai_connect.Session.Memory.Laws.{
  IsSound, drop-IsSound, create-IsSound, get-IsSound, refresh-IsSound,
}

module _ (hash_id : String → String) where
  pub data Step (s : MemoryStore) : MemoryStore → Type 0 where
    creates :
        (ctx : Context) (drawn : Option String) (subject : String) (now : Time)
        → Step s (create hash_id ctx drawn subject now s).1
    gets : (ctx : Context) (id : String) (now : Time) → Step s (get hash_id ctx id now s).1
    touches : (ctx : Context) (id : String) (now : Time) → Step s (touch hash_id ctx id now s).1
    marks :
        (ctx : Context) (id : String) (now : Time)
        → Step s (mark_home_verified hash_id ctx id now s).1
    deletes : (ctx : Context) (id : String) → Step s (delete_session hash_id ctx id s).1

  pub data Reach (s : MemoryStore) : MemoryStore → Type 0 where
    here : Reach s s
    next : {t u : MemoryStore} → Reach s t → Step t u → Reach s u

  absolute-Step : {s t : MemoryStore} → Step s t → t.absolute ≡ s.absolute
  unfolding create get touch mark_home_verified delete_session refresh slide
  absolute-Step (creates ctx drawn subject now) = ground arith
  absolute-Step (gets ctx id now) = ground arith
  absolute-Step (touches ctx id now) = ground arith
  absolute-Step (marks ctx id now) = ground arith
  absolute-Step (deletes ctx id) = ground arith

  Step-IsSound : {s t : MemoryStore} → Step s t → IsSound s → IsSound t
  unfolding touch mark_home_verified delete_session
  Step-IsSound {s} (creates ctx drawn subject now) v =
      create-IsSound hash_id ctx drawn subject now s v
  Step-IsSound {s} (gets ctx id now) v = get-IsSound hash_id ctx id now s v
  Step-IsSound {s} (touches ctx id now) v =
      refresh-IsSound hash_id (λ x. x) ctx id now s (λ x. refl) (λ x. refl) v
  Step-IsSound {s} (marks ctx id now) v =
      refresh-IsSound hash_id (λ x. record x { home_verified = true }) ctx id now s (λ x. refl)
        (λ x. refl) v
  Step-IsSound {s} (deletes (some e) id) v = v
  Step-IsSound {s} (deletes none id) v = drop-IsSound s (hash_id id) v

  Reach-IsSound :
      {s t : MemoryStore} → IsSound s → Reach s t → IsSound t × (t.absolute ≡ s.absolute)
  Reach-IsSound v here = (v, refl)
  Reach-IsSound v (next r st) =
      let (v', e) = Reach-IsSound v r in (Step-IsSound st v', absolute-Step st ∙ e)

  -- Whatever calls came before, a session that a read returns is the one asked for, has not expired,
  -- and was created less than the absolute lifetime ago.
  pub get-within_lifetime :
      (sliding absolute : Duration) (s s' : MemoryStore) (id : String) (now : Time) (x : Session)
      → Reach (new_memory_store sliding absolute) s
      → get hash_id none id now s ≡ (ok x, s')
      → (x.id ≡ id)
        × (now < x.expires_at)
        × (now < add x.created_at absolute)
        × (x.expires_at ≤ add x.created_at absolute)
  unfolding get valid_at new_memory_store lookup
  get-within_lifetime sliding absolute s s' id now x r h =
      let (v, e) = Reach-IsSound (record { bounded = λ k y p. cc }) r in
      elim (Option-cases (lookup (hash_id id) s.data_)) [
        | inl p ↦ ground arith
        | inr (y, p) ↦
            let b = v.bounded (hash_id id) y p in
            let end : y.absolute_expires_at ≡ add y.created_at absolute =
              b.fixed_end ∙ ap (add y.created_at) e in
            let made : x.created_at ≡ y.created_at = ground arith in
            (
              ground arith,
              ground arith,
              rw (made, ← end) (ground arith),
              rw (made, ← end) (ground arith),
            )
      ]
