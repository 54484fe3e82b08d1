-- ===== src/Memory/Store/Listing.antt =====
-- `ListSessions` of the in-memory store.
use genkit_cowork.Base.{false, Option, none, some, List, ◌≡◌, refl, arith}
use genkit_cowork.Base.Bytes.{Bytes}
use genkit_cowork.Base.Result.{ok}
use genkit_cowork.Base.Dict.{Dict, lookup, keys, is_some, contains, contains-keys, lookup-nil}
use genkit_cowork.Base.Sort.{IsSorted, sort_strings-IsSorted, contains-sort_strings}
use genkit_cowork.Memory.Types.{SessionState}
use genkit_cowork.Memory.Store.{Store, sessions_of, stored, list_found, list_sessions}

-- The list of the sessions of a tenant is sorted, and holds an id exactly if a load finds it.
pub record Lists (t : Bytes) (s : Store) (ids : List Bytes) : Type 0 where
  pub sorted : IsSorted ids
  pub members : (n : Bytes) → contains n ids ≡ is_some (stored t n s)

list_found-Lists :
    (t : Bytes) (s : Store) (o : Option (Dict SessionState))
    → lookup t s ≡ o
    → Lists t s (list_found o)
unfolding list_found stored sessions_of contains
list_found-Lists t s none e = record {
  sorted = tt;
  members = λ n. ground (arith, lookup-nil {V = SessionState} n);
}
list_found-Lists t s (some d) e = record {
  sorted = sort_strings-IsSorted (keys d);
  members = λ n. ground (arith, contains-sort_strings n (keys d), contains-keys n d);
}

-- A list of a tenant's sessions, if the context is not cancelled, is in bytewise order, and holds
-- exactly the ids whose state is stored.
pub list_sessions-Lists :
    (t : Bytes) (s : Store)
    → (ids : List Bytes) × (list_sessions false t s ≡ ok ids) × Lists t s ids
unfolding list_sessions
list_sessions-Lists t s = (list_found (lookup t s), refl, list_found-Lists t s (lookup t s) refl)
