-- ===== src/Tables/Sources.antt =====
-- internal/infra/sources/postgres/repository.go over `sources`, read with the profile that owns each.
pub mod Named
pub mod Stats
use sshark_api.Base.{
  ℕ, Bool, false, not, ◌&&◌, ◌||◌, Option, none, some, List, [], ◌∷◌, ◌==◌, if◌then◌else◌, find,
  any, keep, take, drop, map, descending, length,
}
use sshark_api.Base.Text.{Text, text_eq}
use sshark_api.Store.{
  Source, Profile, unique_violation, source_not_found, World, M, ok, err, pure, ◌>>=◌, statement,
  read_rows, new_id,
}

-- `LEFT JOIN profiles p ON p.id = s.profile_id`: the row and `p.username`.
pub record Joined : Type 0 where
  pub source : Source
  pub open source use *
  pub profile_username : Option Text

abbrev owner_name : List Profile → Option ℕ → Option Text
owner_name profiles none = none
owner_name profiles (some id) = elim (find (λ p. p.id == id) profiles) [
  | none ↦ none
  | some p ↦ some p.username
]

abbrev pub joined : World → Source → Joined
joined w s = record { source = s; profile_username = owner_name w.profiles s.profile_id }

-- `QueryRow`: the first row that the query selects, or ErrSourceNotFound.
unfoldable pub row_where : (Source → Bool) → M Joined
unfolding statement
row_where p = statement λ w. elim (find p w.sources) [
  | none ↦ (err source_not_found, w)
  | some s ↦ (ok (joined w s), w)
]

unfoldable pub get : ℕ → M Joined
unfolding row_where
get id = row_where (λ s. s.id == id)

unfoldable pub get_by_provider_and_user_id : Text → Text → M Joined
unfolding row_where
get_by_provider_and_user_id provider user_id =
    row_where (λ s. text_eq s.provider provider && text_eq s.user_id user_id)

unfoldable pub get_by_provider_and_username : Text → Text → M Joined
unfolding row_where
get_by_provider_and_username provider username =
    row_where (λ s. text_eq s.provider provider && text_eq s.username username)

pub record ListResult : Type 0 where
  pub entities : List Joined
  pub total : ℕ

unfoldable pub list : ℕ → ℕ → M ListResult
unfolding statement read_rows descending
list limit offset = do
  total ← statement λ w. (ok (length w.sources), w)
  rows ← statement λ w.
      (ok (map (joined w) (take limit (drop offset (descending (λ s. s.created_at) w.sources)))), w)
  entities ← read_rows rows
  pure (record { entities = entities; total = total })

-- `INSERT INTO sources`: the identifier and the pair of provider and user are unique.
unfoldable pub create : Source → M Source
unfolding statement new_id
create entity = do
  id ← if entity.id == 0 then new_id else pure entity.id
  statement λ w.
      let row : Source = record entity {
        id = id;
        profile_id = none;
        created_at = w.env.now;
        updated_at = w.env.now;
      } in
      if any (λ s. s.id == id || (text_eq s.provider row.provider && text_eq s.user_id row.user_id))
        w.sources
      then (err unique_violation, w)
      else (ok row, record w { sources = row ∷ w.sources })

abbrev pub update_where : (Source → Bool) → (Source → Source) → List Source → List Source
update_where p f [] = []
update_where p f (s ∷ ss) = (if p s then f s else s) ∷ update_where p f ss

unfoldable pub update : Source → M (Unit {0})
unfolding statement
update entity = statement λ w.
    if any (λ s. s.id == entity.id) w.sources
    then (
      ok tt,
      record w {
        sources =
            update_where (λ s. s.id == entity.id)
              (λ s. record s {
                username = entity.username;
                uri = entity.uri;
                updated_at = w.env.now;
              })
              w.sources;
      },
    )
    else (err source_not_found, w)

-- The source's keys and their history go with it, by ON DELETE CASCADE.
unfoldable pub delete : ℕ → M (Unit {0})
unfolding statement
delete id = statement λ w.
    if any (λ s. s.id == id) w.sources
    then (
      ok tt,
      record w {
        sources = keep (λ s. not (s.id == id)) w.sources;
        public_keys = keep (λ k. not (k.source_id == id)) w.public_keys;
        scrape_history =
            keep (λ h. not (any (λ k. k.id == h.key_id && k.source_id == id) w.public_keys))
              w.scrape_history;
      },
    )
    else (err source_not_found, w)

unfoldable pub exists : Text → Text → M Bool
unfolding statement
exists provider user_id =
    statement
      λ w. (ok (any (λ s. text_eq s.provider provider && text_eq s.user_id user_id) w.sources), w)

abbrev pub is_owned_by : ℕ → Source → Bool
is_owned_by profile s = elim s.profile_id [ none ↦ false | some p ↦ p == profile ]

unfoldable pub set_profile : ℕ → ℕ → M (Unit {0})
unfolding statement
set_profile source profile = statement λ w. (
  ok tt,
  record w {
    sources =
        update_where (λ s. s.id == source)
          (λ s. record s { profile_id = some profile; updated_at = w.env.now }) w.sources;
  },
)

unfoldable pub clear_profile : ℕ → M (Unit {0})
unfolding statement
clear_profile profile = statement λ w. (
  ok tt,
  record w {
    sources =
        update_where (is_owned_by profile)
          (λ s. record s { profile_id = none; updated_at = w.env.now }) w.sources;
  },
)
