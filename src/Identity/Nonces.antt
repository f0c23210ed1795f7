-- ===== src/Identity/Nonces.antt =====
-- internal/identity/discourseconnect.go: the memory store of used nonces. Its own reading of the clock
-- is an argument.
use open_xai_connect.Base.{
  leb, nat_eqs, string_eqs, Map, lookup, insert, delete_if, int_eqs, Result, ok, String, Bool, true,
  false, Option, none, some, [],
}
use open_xai_connect.Base.Exec.{Exec}
use open_xai_connect.Domain.Application.{Time}

abbrev pub NonceStore : Type 0
NonceStore = Map String Time

abbrev pub new_memory_nonce_store : NonceStore
new_memory_nonce_store = []

store_unused : Option Time → String → Time → NonceStore → Result Bool × NonceStore
store_unused (some expiry) nonce expires_at values = (ok false, values)
store_unused none nonce expires_at values = (ok true, insert nonce expires_at values)

-- CheckAndStore: the sweep of expired nonces, then the test.
unfoldable pub check_and_store : String → Time → Time → Exec NonceStore Bool
unfolding store_unused
check_and_store nonce expires_at now values =
    let swept = delete_if (λ expiry. leb expiry now) values in
    store_unused (lookup nonce swept) nonce expires_at swept
