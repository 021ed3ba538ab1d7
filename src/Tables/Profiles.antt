-- ===== src/Tables/Profiles.antt =====
-- internal/infra/profiles/postgres/repository.go over `profiles`, whose usernames (CITEXT) are unique
-- regardless of case, as are the users.
use sshark_api.Base.{
  ℕ, Bool, true, not, ◌&&◌, ◌||◌, none, some, List, [], ◌∷◌, ◌==◌, if◌then◌else◌, find, any, keep,
  take, ltb,
}
use sshark_api.Base.Text.{Text, text_eq, equal_fold}
use sshark_api.Store.{
  Profile, Source, Error, unique_violation, profile_not_found, username_taken, M, ok, err, pure,
  fail, attempt, ◌>>=◌, statement, new_id,
}

-- `getBy`: the row that a query selects, or ErrProfileNotFound.
unfoldable pub get_by : (Profile → Bool) → M Profile
unfolding statement
get_by p =
    statement
      λ w. elim (find p w.profiles) [ none ↦ (err profile_not_found, w) | some row ↦ (ok row, w) ]

unfoldable pub get_by_username : Text → M Profile
unfolding get_by equal_fold
get_by_username username = get_by (λ p. equal_fold p.username username)

unfoldable pub get_by_clerk_user_id : Text → M Profile
unfolding get_by
get_by_clerk_user_id user = get_by (λ p. text_eq p.clerk_user_id user)

-- `ORDER BY id`
unfoldable pub insert_by_id : Profile → List Profile → List Profile
insert_by_id p [] = p ∷ []
insert_by_id p (q ∷ qs) = if ltb q.id p.id then q ∷ insert_by_id p qs else p ∷ q ∷ qs

unfoldable pub by_id : List Profile → List Profile
unfolding insert_by_id
by_id [] = []
by_id (p ∷ ps) = insert_by_id p (by_id ps)

unfoldable pub list : ℕ → ℕ → M (List Profile)
unfolding statement by_id
list after limit =
    statement λ w. (ok (take limit (by_id (keep (λ p. ltb after p.id) w.profiles))), w)

abbrev pub taken : Error → Error
taken unique_violation = username_taken
taken e = e

unfoldable pub insert_row : Profile → M Profile
unfolding statement equal_fold
insert_row p = statement λ w.
    let row : Profile = record p { created_at = w.env.now; updated_at = w.env.now } in
    if any
      (λ q.
        q.id == p.id || text_eq q.clerk_user_id p.clerk_user_id || equal_fold q.username p.username)
      w.profiles
    then (err unique_violation, w)
    else (ok row, record w { profiles = row ∷ w.profiles })

-- Any broken constraint is reported as a taken username.
unfoldable pub create : Profile → M Profile
unfolding insert_row new_id
create entity = do
  id ← if entity.id == 0 then new_id else pure entity.id
  r ← attempt (insert_row (record entity { id = id }))
  elim r [ ok row ↦ pure row | err e ↦ fail (taken e) ]

abbrev pub rename : Text → Text → ℕ → List Profile → List Profile
rename user name now [] = []
rename user name now (p ∷ ps) =
    (if text_eq p.clerk_user_id user then record p { username = name; updated_at = now } else p)
    ∷ rename user name now ps

-- `UPDATE profiles SET username = $2 … RETURNING`: someone else's name breaks the constraint.
unfoldable pub update_username : Text → Text → M Profile
unfolding statement equal_fold
update_username user name = statement λ w.
    elim (find (λ p. text_eq p.clerk_user_id user) w.profiles) [
      | none ↦ (err profile_not_found, w)
      | some p ↦
          if any (λ q. not (text_eq q.clerk_user_id user) && equal_fold q.username name) w.profiles
          then (err unique_violation, w)
          else (
            ok (record p { username = name; updated_at = w.env.now }),
            record w { profiles = rename user name w.env.now w.profiles },
          )
    ]

unfoldable pub set_username : Text → Text → M Profile
unfolding update_username
set_username user name = do
  r ← attempt (update_username user name)
  elim r [ ok row ↦ pure row | err e ↦ fail (taken e) ]

-- The holder may have the name again.
unfoldable pub is_username_available : Text → Text → M Bool
unfolding statement equal_fold
is_username_available username for_user = statement λ w.
    elim (find (λ p. equal_fold p.username username) w.profiles) [
      | none ↦ (ok true, w)
      | some holder ↦ (ok (text_eq holder.clerk_user_id for_user), w)
    ]

-- ON DELETE SET NULL: the sources of the user's profile lose their owner.
abbrev pub release : List Profile → Text → List Source → List Source
release profiles user [] = []
release profiles user (s ∷ ss) =
    (elim s.profile_id [
      | none ↦ s
      | some id ↦
          if any (λ p. p.id == id && text_eq p.clerk_user_id user) profiles
          then record s { profile_id = none }
          else s
    ])
    ∷ release profiles user ss

unfoldable pub delete_by_clerk_user_id : Text → M (Unit {0})
unfolding statement
delete_by_clerk_user_id user = statement λ w. (
  ok tt,
  record w {
    profiles = keep (λ p. not (text_eq p.clerk_user_id user)) w.profiles;
    sources = release w.profiles user w.sources;
  },
)
