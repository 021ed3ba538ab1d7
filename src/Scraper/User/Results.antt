-- ===== src/Scraper/User/Results.antt =====
-- What `processUser`, `ScrapeUser` and `ScrapeUsers` return.
use sshark_api.Base.{
  ℕ, suc, Bool, ◌&&◌, some, List, [], ◌∷◌, if◌then◌else◌, ◌≡◌, refl, sym, ◌∙◌, ap, subst, All,
  length, arith, Bool-cases, inl, inr,
}
use sshark_api.Base.Text.{Text, text_eq, text_eq_iff}
use sshark_api.Store.{KeyType, ssh, gpg, Source, World, M, Result, ok, err, ◌>>=◌, pure, attempt}
use sshark_api.Store.Frame.{Result-cases, OnOk}
use sshark_api.Store.Returns.{Returns, Returns-bind, Returns-pure, Returns-attempt, Returns-if}
use sshark_api.Scraper.{FetchedKey, FetchedUser, Fetcher, ScrapeResult}
use sshark_api.Scraper.Sync.{sync_keys}
use sshark_api.Scraper.User.{
  get_or_create_source, is_nil, or_else, error_of, is_rate_limited, fresh_result, store_user,
  process_user, scrape_user, scrape_users,
}
use sshark_api.Scraper.User.Outcomes.{Any, Extends, sync_keys-Extends}

module _ (fetcher : Fetcher) where
  -- The result is about the user, at the fetcher's provider.
  abbrev pub IsAbout : FetchedUser → ScrapeResult → Type 0
  IsAbout user r = (r.provider ≡ fetcher.provider) × (r.username ≡ user.username)

  extend : (user : FetchedUser) (r s : ScrapeResult) → IsAbout user r → Extends r s → IsAbout user s
  extend user r s about ext = (ext.same_provider ∙ about.0, ext.same_username ∙ about.1)

  sync_if-IsAbout :
      (user : FetchedUser) (b : Bool) (source : ℕ) (keys : List FetchedKey) (t : KeyType)
      (r : ScrapeResult)
      → IsAbout user r
      → Returns (IsAbout user) (if b then pure r else sync_keys source keys t r)
  sync_if-IsAbout user b source keys t r about =
      Returns-if (IsAbout user) b (pure r) (sync_keys source keys t r)
        (Returns-pure (IsAbout user) r about)
        (λ w.
          let (s, e, ext) = sync_keys-Extends source keys t r w in
          (s, e, extend user r s about ext))

  store_user-IsAbout :
      (user fetched : FetchedUser) (result : ScrapeResult)
      → IsAbout user result
      → Returns (IsAbout user) (store_user fetcher fetched result)
  unfolding store_user
  store_user-IsAbout user fetched result about =
      let both : Source → M ScrapeResult = λ s.
        (if is_nil fetched.keys then pure result else sync_keys s.id fetched.keys ssh result)
        >>= λ synced.
            if is_nil fetched.gpg_keys
            then pure synced
            else sync_keys s.id fetched.gpg_keys gpg synced in
      let after : Result Source → M ScrapeResult =
        λ source. elim source [ err e ↦ pure (record result { error = some e }) | ok s ↦ both s ] in
      Returns-if (IsAbout user) (is_nil fetched.keys && is_nil fetched.gpg_keys) (pure result)
        (attempt (get_or_create_source fetcher.provider fetched) >>= after)
        (Returns-pure (IsAbout user) result about)
        (Returns-bind Any (IsAbout user) (attempt (get_or_create_source fetcher.provider fetched))
          after (Returns-attempt (get_or_create_source fetcher.provider fetched))
          (λ source _. elim source as (λ source. Returns (IsAbout user) (after source)) [
            | err e ↦ Returns-pure (IsAbout user) (record result { error = some e }) about
            | ok s ↦
                Returns-bind (IsAbout user) (IsAbout user)
                  (if is_nil fetched.keys
                    then pure result
                    else sync_keys s.id fetched.keys ssh result)
                  (λ synced.
                    if is_nil fetched.gpg_keys
                    then pure synced
                    else sync_keys s.id fetched.gpg_keys gpg synced)
                  (sync_if-IsAbout user (is_nil fetched.keys) s.id fetched.keys ssh result about)
                  (λ synced about.
                    sync_if-IsAbout user (is_nil fetched.gpg_keys) s.id fetched.gpg_keys gpg synced
                      about)
          ]))

  process_user-IsAbout : (user : FetchedUser) → Returns (IsAbout user) (process_user fetcher user)
  unfolding process_user
  process_user-IsAbout user =
      let ssh_answer : Result (List FetchedKey) = fetcher.fetch_user_keys user in
      let gpg_answer : Result (List FetchedKey) = fetcher.fetch_user_gpg_keys user in
      let result : ScrapeResult = record (fresh_result fetcher user) {
        error = error_of ssh_answer;
      } in
      let fetched : FetchedUser = record user {
        keys = or_else ssh_answer user.keys;
        gpg_keys = or_else gpg_answer user.gpg_keys;
      } in
      Returns-if (IsAbout user) (is_rate_limited ssh_answer) (pure result)
        (store_user fetcher fetched result) (Returns-pure (IsAbout user) result (refl, refl))
        (store_user-IsAbout user fetched result (refl, refl))

  -- A scrape of a user returns a result for the provider asked for, or an error.
  scrape_user-provider :
      (provider username : Text) (w : World) (r : ScrapeResult)
      → (scrape_user fetcher provider username w).0 ≡ ok r
      → r.provider ≡ provider
  unfolding scrape_user
  scrape_user-provider provider username w r h =
      elim (Bool-cases (text_eq provider fetcher.provider)) [
        | inr other ↦ ground arith
        | inl same ↦ elim (Result-cases (fetcher.fetch_user username)) [
          | inr (e, failed) ↦ ground arith
          | inl (user, fetched) ↦
              let (s, returned, about) = process_user-IsAbout user w in
              let ran : (process_user fetcher user w).0 ≡ ok r = rw (same, fetched) at h in
              let this : ok s ≡ ok r = sym returned ∙ ran in
              let same_result : s ≡ r = cc in
              subst (λ r. r.provider ≡ provider) same_result
                (about.0 ∙ sym ((text_eq_iff provider fetcher.provider).0 same))
        ]
      ]

  abbrev SaysProvider : Text → Result ScrapeResult → Type 0
  SaysProvider provider r = OnOk (λ s. s.provider ≡ provider) r

  attempt-provider :
      (provider username : Text)
      → Returns (SaysProvider provider) (attempt (scrape_user fetcher provider username))
  attempt-provider provider username w =
      let r : Result ScrapeResult = (scrape_user fetcher provider username w).0 in
      (
        r,
        refl,
        elim (Result-cases r) [
          | inr (e, failed) ↦ rw failed tt
          | inl (s, scraped) ↦ rw scraped (scrape_user-provider provider username w s scraped)
        ],
      )

  -- A list of users is always scraped to the end: `ScrapeUsers` returns one result for each user name,
  -- every one for the provider asked for. This holds whichever statements and requests fail.
  pub scrape_users_lem :
      (provider : Text) (usernames : List Text)
      → Returns
          (λ rs. (length rs ≡ length usernames) × All (λ r. r.provider ≡ provider) rs)
          (scrape_users fetcher provider usernames)
  unfolding scrape_users
  scrape_users_lem provider [] = λ w. ([], refl, (refl, tt))
  scrape_users_lem provider (username ∷ usernames) =
      let P : List ScrapeResult → Type 0 =
        λ rs. (length rs ≡ suc (length usernames)) × All (λ r. r.provider ≡ provider) rs in
      let Q : List ScrapeResult → Type 0 =
        λ rs. (length rs ≡ length usernames) × All (λ r. r.provider ≡ provider) rs in
      let entry : Result ScrapeResult → ScrapeResult = λ scraped. elim scraped [
        | ok result ↦ result
        | err e ↦ record {
          provider = provider;
          username = username;
          keys_added = 0;
          keys_updated = 0;
          keys_removed = 0;
          error = some e;
        }
      ] in
      let right : (r : Result ScrapeResult)
          → SaysProvider provider r
          → (entry r).provider ≡ provider =
        λ r. elim r as (λ r. SaysProvider provider r → (entry r).provider ≡ provider) [
          | ok s ↦ λ p. p
          | err e ↦ λ p. refl
        ] in
      Returns-bind (SaysProvider provider) P (attempt (scrape_user fetcher provider username))
        (λ scraped.
          scrape_users fetcher provider usernames >>= λ results. pure (entry scraped ∷ results))
        (attempt-provider provider username)
        (λ scraped p.
          Returns-bind Q P (scrape_users fetcher provider usernames)
            (λ results. pure (entry scraped ∷ results)) (scrape_users_lem provider usernames)
            (λ results q.
              Returns-pure P (entry scraped ∷ results) (ap suc q.0, (right scraped p, q.1))))
