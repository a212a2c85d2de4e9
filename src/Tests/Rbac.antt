-- ===== src/Tests/Rbac.antt =====
-- The role cache and the LRU cache at concrete inputs.
use ewu_taks.Base.{
  ℕ, ◌≤◌, List, [], ◌∷◌, true, false, ◌&&◌, if◌then◌else◌, Text, nat_eq, ◌==◌, ==_iff, any, split,
  max, length, ◌≡◌, arith,
}
use ewu_taks.Cache.Lru.{LruCache, create, lru_set}
use ewu_taks.Cache.Lru.Bounds.{IsValid, lru_set-IsValid}
use ewu_taks.Cache.Lru.Eviction.{set_call, run, run-create-bounded, create-IsValid}
use ewu_taks.Rbac.Trie.{has, from_permissions, colon}
use ewu_taks.Rbac.Trie.Grants.{grants, has-from_permissions}
use ewu_taks.Rbac.Entry.{
  own, team, RolePermission, build_entry, check_permission_with_entry, permission_key,
}
use ewu_taks.Rbac.Entry.Scopes.{check_permission_with_entry-build_entry, granted, scoped}
use ewu_taks.Rbac.Entry.ModuleWildcard.{module_wildcard, module_row}
use ewu_taks.Rbac.Service.{
  RbacService, Rows, init, get_permissions_for_role, invalidate_role, no_client, answer,
}
use ewu_taks.Rbac.Service.Coherence.{
  IsCoherent, ChangedAt, IsCoherent-init, get_permissions_for_role-IsCoherent,
  invalidate_role-IsCoherent,
}
use ewu_taks.Rbac.Service.Staleness.{
  Event, lookup, store, invalidate, run_events, staleness_bound, stale_after_race,
}

-- the module `u` with the actions `r` and `w`
abbrev pub users_module : Text
users_module = b'u' ∷ []

abbrev pub read_action : Text
read_action = b'r' ∷ []

abbrev write_action : Text
write_action = b'w' ∷ []

abbrev pub read_key : Text
read_key = b'u' ∷ b':' ∷ b'r' ∷ []

abbrev module_key : Text
module_key = b'u' ∷ b':' ∷ b'*' ∷ []

has-from_permissions_example :
    has (from_permissions (module_key ∷ [])) read_key
    ≡ any (λ perm. grants (split colon perm) (split colon read_key)) (module_key ∷ [])
has-from_permissions_example = has-from_permissions (module_key ∷ []) read_key

abbrev pub read_row : RolePermission
read_row = record { module_name = users_module; action = read_action; scope = own }

check_permission_with_entry-build_entry_example :
    check_permission_with_entry (build_entry (read_row ∷ [])) users_module read_action team
    ≡ (granted (read_row ∷ []) read_key && scoped (read_row ∷ []) read_key team)
check_permission_with_entry-build_entry_example =
    check_permission_with_entry-build_entry (read_row ∷ []) users_module read_action team

abbrev pub rows_before : Rows
rows_before = λ role_id. read_row ∷ []

abbrev rows_after : Rows
rows_after = λ role_id. if role_id == 3 then [] else read_row ∷ []

abbrev warm : RbacService
warm = (get_permissions_for_role rows_before init 0 3).0

warm-IsCoherent : IsCoherent rows_before warm
warm-IsCoherent =
    get_permissions_for_role-IsCoherent rows_before init 0 3 (IsCoherent-init rows_before)

only_role_3 : ChangedAt 3 rows_before rows_after
only_role_3 other differ = ground (arith, differ, ==_iff other 3)

invalidate_role-IsCoherent_example : IsCoherent rows_after (invalidate_role warm 3 (answer 7))
invalidate_role-IsCoherent_example =
    invalidate_role-IsCoherent rows_before rows_after 3 warm (answer 7) only_role_3 warm-IsCoherent

-- an old answer stored at 10, read after 300010
abbrev old_answer : List Event
old_answer = lookup 5 3 ∷ invalidate 3 no_client ∷ store 10 3 [] ∷ []

staleness_bound_example :
    (get_permissions_for_role rows_before (run_events init old_answer) 300010 3).1
    ≡ build_entry (read_row ∷ [])
staleness_bound_example =
    staleness_bound 10 300010 3 old_answer rows_before (omega arith, tt) (omega arith)

stale_after_race_example :
    ((get_permissions_for_role rows_before
        (run_events init (lookup 5 3 ∷ store 5 3 [] ∷ invalidate 3 (answer 1) ∷ []))
        20
        3).1
      ≡ build_entry (rows_before 3))
    × ((get_permissions_for_role rows_before
          (run_events init (lookup 5 3 ∷ invalidate 3 (answer 1) ∷ store 5 3 [] ∷ []))
          20
          3).1
        ≡ build_entry [])
stale_after_race_example =
    stale_after_race init 5 20 3 [] rows_before (answer 1) (IsCoherent-init rows_before).valid
      (omega arith)

module_wildcard_example :
    (has
        (build_entry (module_row users_module team ∷ [])).trie
        (permission_key users_module read_action)
      ≡ true)
    × (check_permission_with_entry
          (build_entry (module_row users_module team ∷ []))
          users_module
          read_action
          own
        ≡ false)
module_wildcard_example =
    module_wildcard users_module read_action team own (ground arith) (ground arith) (ground arith)
      (ground arith)

run-create-bounded_example :
    length
      (run
        (create {K = ℕ} {V = ℕ} 2)
        (set_call 0 1 10 60 ∷ set_call 1 2 20 60 ∷ set_call 2 3 30 60 ∷ [])).cache
    ≤ max 1 2
run-create-bounded_example =
    run-create-bounded 2 (set_call 0 1 10 60 ∷ set_call 1 2 20 60 ∷ set_call 2 3 30 60 ∷ [])

abbrev one_entry : LruCache ℕ ℕ
one_entry = lru_set (create 2) 0 1 10 60

one_entry-IsValid : IsValid one_entry
one_entry-IsValid = lru_set-IsValid (create 2) 0 1 10 60 (create-IsValid 2)
