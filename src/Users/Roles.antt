-- ===== src/Users/Roles.antt =====
-- The synchronisation of the roles of a user against its abstract description: an assignment of the
-- given roles.
use ewu_taks.Base.{
  ℕ, List, [], ◌∷◌, Bool, true, false, not, ◌&&◌, ◌||◌, if◌then◌else◌, contains, filter, is_empty,
  nat_eq, ◌==◌, ==_iff, ◌≡◌, refl, arith, Bool-cases, inl, inr,
}
use mathlib.Core.Path.{fun_ext}
use ewu_taks.Users.Store.{Tables, Db, sync_user_roles}

-- Which user has which role, without order or repetition.
abbrev pub Assignment : Type 0
Assignment = ℕ → ℕ → Bool

abbrev pub assign : Assignment → ℕ → List ℕ → Assignment
assign has user_id role_ids j r = if user_id == j then contains role_ids r else has j r

abbrev pub assign_all : Assignment → List (ℕ × List ℕ) → Assignment
assign_all has [] = has
assign_all has (call ∷ calls) = assign_all (assign has call.0 call.1) calls

contains-filter_missing :
    (current wanted : List ℕ) (r : ℕ)
    → contains (filter (λ id. not (contains wanted id)) current) r
      ≡ (contains current r && not (contains wanted r))
contains-filter_missing [] wanted r = refl
contains-filter_missing (x ∷ current) wanted r =
    ground (arith, contains-filter_missing current wanted r, ==_iff x r)

contains-is_empty : (ids : List ℕ) (r : ℕ) → is_empty ids ≡ true → contains ids r ≡ false
contains-is_empty [] r h = refl
contains-is_empty (x ∷ ids) r h = cc

module _ (tables : Tables) where
  open tables use {links}

  -- The assignment that a database stands for.
  abbrev pub assignment : Db tables → Assignment
  assignment db j r = contains (links.roles_of db.links_now j) r

  abbrev pub sync_all : Db tables → List (ℕ × List ℕ) → Db tables
  sync_all db [] = db
  sync_all db (call ∷ calls) = sync_all (sync_user_roles tables db call.0 call.1) calls

  contains-removed :
      (s : links.State) (user_id : ℕ) (ids : List ℕ) (j r : ℕ)
      → contains (links.roles_of (if is_empty ids then s else links.delete_many s user_id ids) j) r
        ≡ (contains (links.roles_of s j) r && not (user_id == j && contains ids r))
  contains-removed s user_id ids j r = elim (Bool-cases (is_empty ids)) [
    | inl none_left ↦ rw none_left (ground (arith, contains-is_empty ids r none_left))
    | inr some_left ↦ rw some_left (links.contains-delete_many s user_id j ids r)
  ]

  contains-added :
      (s : links.State) (user_id : ℕ) (ids : List ℕ) (j r : ℕ)
      → contains (links.roles_of (if is_empty ids then s else links.create_many s user_id ids) j) r
        ≡ (contains (links.roles_of s j) r || (user_id == j && contains ids r))
  contains-added s user_id ids j r = elim (Bool-cases (is_empty ids)) [
    | inl none_left ↦ rw none_left (ground (arith, contains-is_empty ids r none_left))
    | inr some_left ↦ rw some_left (links.contains-create_many s user_id j ids r)
  ]

  sync_user_roles-has :
      (db : Db tables) (user_id : ℕ) (role_ids : List ℕ) (j r : ℕ)
      → assignment (sync_user_roles tables db user_id role_ids) j r
        ≡ assign (assignment db) user_id role_ids j r
  unfolding sync_user_roles
  sync_user_roles-has db user_id role_ids j r =
      let current = links.roles_of db.links_now user_id in
      let to_remove = filter (λ id. not (contains role_ids id)) current in
      let to_add = filter (λ id. not (contains current id)) role_ids in
      let removed =
        if is_empty to_remove
        then db.links_now
        else links.delete_many db.links_now user_id to_remove in
      let has_removed = contains-removed db.links_now user_id to_remove j r in
      let has_added = contains-added removed user_id to_add j r in
      let gone = contains-filter_missing current role_ids r in
      let missing = contains-filter_missing role_ids current r in
      elim (Bool-cases (user_id == j)) [
        | inr other ↦ ground (arith, has_added, has_removed, other)
        | inl same ↦
            let is : contains (links.roles_of db.links_now j) r ≡ contains current r =
              ground (arith, same, ==_iff user_id j) in
            ground (arith, has_added, has_removed, gone, missing, same, is)
      ]

  sync_user_roles-refines :
      (db : Db tables) (user_id : ℕ) (role_ids : List ℕ)
      → assignment (sync_user_roles tables db user_id role_ids)
        ≡ assign (assignment db) user_id role_ids
  sync_user_roles-refines db user_id role_ids =
      fun_ext λ j. fun_ext λ r. sync_user_roles-has db user_id role_ids j r

  -- The synchronisation of roles refines the assignment: after any sequence of calls, each with a user
  -- and its wanted roles, the database stands for what the same assignments, one after the other, make
  -- of what it stood for before.
  pub sync_all-refines :
      (db : Db tables) (calls : List (ℕ × List ℕ))
      → assignment (sync_all db calls) ≡ assign_all (assignment db) calls
  sync_all-refines db [] = refl
  sync_all-refines db (call ∷ calls) =
      rw (← sync_user_roles-refines db call.0 call.1)
        (sync_all-refines (sync_user_roles tables db call.0 call.1) calls)
