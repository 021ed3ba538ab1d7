-- ===== src/Scraper/Tests.antt =====
-- The theorems on scraping at concrete tables.
use sshark_api.Base.{false, true, arith, List, [], ◌∷◌, ◌≡◌, refl, keep, length, All}
use sshark_api.Base.Text.{codes, text_eq, is_empty}
use sshark_api.Store.{PublicKey, ssh, ok, provider_github}
use sshark_api.Tables.Keys
use sshark_api.Tables.Keys.Frame.{is_other}
use sshark_api.Scraper.{ScrapeResult}
use sshark_api.Scraper.Sync.{sync_keys, is_seen}
use sshark_api.Scraper.Sync.Current.{sync_keys-IsCurrent}
use sshark_api.Scraper.Sync.Frame.{sync_keys-OthersAre}
use sshark_api.Scraper.User.{scrape_users, fresh_result}
use sshark_api.Scraper.User.Results.{scrape_users_lem}
use sshark_api.Samples.{world, key, other_key, fetcher, fetched_user, fetched_key}

abbrev start : ScrapeResult
start = fresh_result (fetcher []) fetched_user

sync_keys-OthersAre_example :
    keep
      (is_other 1 ssh)
      (sync_keys 1 (fetched_key ∷ []) ssh start (world (key ∷ other_key ∷ []))).1.public_keys
    ≡ keep (is_other 1 ssh) (key ∷ other_key ∷ [])
sync_keys-OthersAre_example =
    sync_keys-OthersAre 1 (fetched_key ∷ []) ssh start (world (key ∷ other_key ∷ []))
      (refl, (refl, tt))

-- A key of the same source that is no longer published.
abbrev stale_key : PublicKey
stale_key = record key { id = 5; fingerprint = codes "old" }

abbrev stored_keys : List PublicKey
stored_keys = key ∷ stale_key ∷ other_key ∷ []

sync_keys-IsCurrent_example :
    All
      (λ k. is_other 1 ssh k ≡ false → is_seen (fetched_key ∷ []) k.fingerprint ≡ true)
      (sync_keys 1 (fetched_key ∷ []) ssh start (world stored_keys)).1.public_keys
unfolding is_empty text_eq Keys.passes
sync_keys-IsCurrent_example =
    sync_keys-IsCurrent 1 (fetched_key ∷ []) ssh start (world stored_keys) (λ n. refl)
      (refl, (refl, tt))
      (
        ((λ same. refl), ((λ same. absurd (cc)), tt)),
        (((λ same. absurd (cc)), ((λ same. refl), tt)), tt),
      )
      (omega arith)

scrape_users_lem_example :
    (rs : List ScrapeResult) × ((scrape_users
        (fetcher (fetched_key ∷ []))
        provider_github
        (codes "ada" ∷ codes "bob" ∷ [])
        (world (key ∷ []))).0
      ≡ ok rs)
    × (length rs ≡ 2)
    × All (λ r. r.provider ≡ provider_github) rs
scrape_users_lem_example =
    let (rs, e, both) =
      scrape_users_lem (fetcher (fetched_key ∷ [])) provider_github (codes "ada" ∷ codes "bob" ∷ [])
        (world (key ∷ [])) in
    (rs, e, both.0, both.1)
