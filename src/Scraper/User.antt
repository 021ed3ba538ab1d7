-- ===== src/Scraper/User.antt =====
-- `processUser`, `ScrapeUser`, `ScrapeUsers`, `getOrCreateSource` and `Run` of
-- internal/infra/scraper/service.go.
pub mod Outcomes
pub mod Results
use sshark_api.Base.{
  ℕ, suc, zero, ◌+◌, ◌-◌, Bool, true, false, not, ◌&&◌, ◌||◌, Option, none, some, List, [], ◌∷◌,
  ◌++◌, ◌==◌, if◌then◌else◌, ◌≡◌, refl, find,
}
use sshark_api.Base.Text.{Text, codes, text_eq}
use sshark_api.Store.{
  KeyType, ssh, gpg, Source, Error, rate_limited, provider_unavailable, user_not_found, cancelled,
  database, source_not_found, World, M, Result, ok, err, pure, fail, attempt, ignore, of_result,
  ◌>>=◌, ◌>>◌, new_id, statement,
}
use sshark_api.Tables.Sources
use sshark_api.Scraper.{FetchedKey, FetchedUser, UsersPage, Fetcher, ScrapeResult}
use sshark_api.Scraper.Sync.{sync_keys}

-- The source of a user: found, and brought up to date, or created.
unfoldable pub get_or_create_source : Text → FetchedUser → M Source
unfolding text_eq new_id
get_or_create_source provider user = do
  found ← attempt (Sources.get_by_provider_and_user_id provider user.user_id)
  elim found [
    | ok joined ↦
        let old : Source = joined.source in
        let source : Source = record old { username = user.username; uri = user.uri } in
        if not (text_eq old.username user.username) || not (text_eq old.uri user.uri)
        then (ignore (Sources.update source) >> pure source)
        else pure old
    | err e ↦ elim e [
      | source_not_found ↦ do
        id ← new_id
        Sources.create (record {
          id = id;
          provider = provider;
          user_id = user.user_id;
          username = user.username;
          uri = user.uri;
          profile_id = none;
          created_at = 0;
          updated_at = 0;
        })
      | other_error ↦ fail other_error
    ]
  ]

abbrev pub is_nil {ℓ} : {A : Type ℓ} → List A → Bool
is_nil [] = true
is_nil (_ ∷ _) = false

abbrev pub or_else {ℓ} : {A : Type ℓ} → Result A → A → A
or_else (ok a) _ = a
or_else (err _) d = d

abbrev pub error_of {ℓ} : {A : Type ℓ} → Result A → Option Error
error_of (ok _) = none
error_of (err e) = some e

abbrev pub is_rate_limited {ℓ} : {A : Type ℓ} → Result A → Bool
is_rate_limited (ok _) = false
is_rate_limited (err rate_limited) = true
is_rate_limited (err e) = false

module _ (fetcher : Fetcher) where
  abbrev pub fresh_result : FetchedUser → ScrapeResult
  fresh_result user = record {
    provider = fetcher.provider;
    username = user.username;
    keys_added = 0;
    keys_updated = 0;
    keys_removed = 0;
    error = none;
  }

  -- The part of `processUser` behind the two fetches: the user with the keys that were fetched, and
  -- the result so far.
  unfoldable pub store_user : FetchedUser → ScrapeResult → M ScrapeResult
  unfolding get_or_create_source
  store_user user result = if is_nil user.keys && is_nil user.gpg_keys then pure result else (do
    source ← attempt (get_or_create_source fetcher.provider user)
    elim source [
      | err e ↦ pure (record result { error = some e })
      | ok s ↦ do
        synced ← if is_nil user.keys then pure result else sync_keys s.id user.keys ssh result
        if is_nil user.gpg_keys then pure synced else sync_keys s.id user.gpg_keys gpg synced
    ])

  unfoldable pub process_user : FetchedUser → M ScrapeResult
  unfolding store_user
  process_user user =
      let ssh_answer : Result (List FetchedKey) = fetcher.fetch_user_keys user in
      let gpg_answer : Result (List FetchedKey) = fetcher.fetch_user_gpg_keys user in
      let result : ScrapeResult = record (fresh_result user) { error = error_of ssh_answer } in
      let fetched : FetchedUser = record user {
        keys = or_else ssh_answer user.keys;
        gpg_keys = or_else gpg_answer user.gpg_keys;
      } in
      if is_rate_limited ssh_answer then pure result else store_user fetched result

  unfoldable pub scrape_user : Text → Text → M ScrapeResult
  unfolding process_user text_eq
  scrape_user provider username =
      if not (text_eq provider fetcher.provider)
      then fail provider_unavailable
      else (do user ← of_result (fetcher.fetch_user username); process_user user)

  unfoldable pub scrape_users : Text → List Text → M (List ScrapeResult)
  unfolding scrape_user
  scrape_users provider [] = pure []
  scrape_users provider (username ∷ usernames) = do
    scraped ← attempt (scrape_user provider username)
    results ← scrape_users provider usernames
    pure (
        (elim scraped [
          | ok result ↦ result
          | err e ↦ record {
            provider = provider;
            username = username;
            keys_added = 0;
            keys_updated = 0;
            keys_removed = 0;
            error = some e;
          }
        ])
        ∷ results)

-- internal/infra/scraper/postgres/repository.go
abbrev pub upsert : Text → Text → List (Text × Text) → List (Text × Text)
upsert k v [] = (k, v) ∷ []
upsert k v ((j, u) ∷ rest) = if text_eq j k then (k, v) ∷ rest else (j, u) ∷ upsert k v rest

unfoldable pub get_progress : Text → M Text
unfolding statement text_eq
get_progress provider = statement λ w. elim (find (λ p. text_eq p.0 provider) w.progress) [
  | none ↦ (ok [], w)
  | some p ↦ (ok p.1, w)
]

unfoldable pub save_progress : Text → Text → M (Unit {0})
unfolding statement text_eq
save_progress provider cursor =
    statement λ w. (ok tt, record w { progress = upsert provider cursor w.progress })

-- How long a round of `Run` sleeps: a minute, the configured delay, or an hour.
pub data Pause : Type 0 where
  minute delay hour : Pause

unfoldable pub process_users : Fetcher → List FetchedUser → M (Unit {0})
unfolding process_user
process_users fetcher [] = pure tt
process_users fetcher (user ∷ users) =
    ignore (process_user fetcher user) >> process_users fetcher users

-- One round of the loop of `Run`, from a cursor to the next.
unfoldable pub run_round : Fetcher → ℕ → Text → M (Text × Pause)
unfolding process_users save_progress
run_round fetcher batch_size cursor = elim (fetcher.list_users cursor batch_size) [
  | err e ↦ elim e [ rate_limited ↦ pure (cursor, minute) | other_error ↦ pure (cursor, delay) ]
  | ok page ↦ if is_nil page.users then pure ([], hour) else (do
    process_users fetcher page.users
    ignore (save_progress fetcher.provider page.next_cursor)
    pure (page.next_cursor, delay))
]

-- The rounds of `Run` until the context ends, after so many: the n-th round finds the provider as
-- `fetchers n` says.
unfoldable pub run_rounds : (ℕ → Fetcher) → ℕ → ℕ → ℕ → Text → M (Unit {0})
unfolding run_round
run_rounds fetchers batch_size zero n cursor = fail cancelled
run_rounds fetchers batch_size (suc rounds) n cursor = do
  next ← run_round (fetchers n) batch_size cursor
  run_rounds fetchers batch_size rounds (suc n) next.0

unfoldable pub run_scraper : (ℕ → Fetcher) → ℕ → ℕ → M (Unit {0})
unfolding get_progress run_rounds
run_scraper fetchers batch_size rounds = do
  cursor ← get_progress (fetchers 0).provider
  run_rounds fetchers batch_size rounds 0 cursor

-- The labels of `categorizeScraperError`; a deadline or a cancelled context is `cancelled`.
unfoldable pub categorize_scraper_error : Option Error → Text
categorize_scraper_error none = []
categorize_scraper_error (some rate_limited) = codes "api_limit"
categorize_scraper_error (some provider_unavailable) = codes "unavailable"
categorize_scraper_error (some user_not_found) = codes "not_found"
categorize_scraper_error (some cancelled) = codes "timeout"
categorize_scraper_error (some e) = codes "network"
