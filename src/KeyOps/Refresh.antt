-- ===== src/KeyOps/Refresh.antt =====
-- What a refresh returns, and which sources are the user's after it.
use sshark_api.Base.{ℕ, ◌+◌, Option, none, some, List, [], ◌∷◌, ◌++◌, ◌≡◌, refl, ◌∙◌, length}
use sshark_api.Base.Text.{Text, codes}
use sshark_api.Store.{
  World, M, Result, ok, err, pure, attempt, ignore, ◌>>=◌, no_connected_accounts,
}
use sshark_api.Store.Returns.{Returns, Returns-bind, Returns-pure, Returns-attempt, Returns-ignore}
use sshark_api.Identity.{Account, accounts}
use sshark_api.Task.Queue.{Reporter}
use sshark_api.Scraper.{Fetcher, ScrapeResult}
use sshark_api.Scraper.User.{scrape_user}
use sshark_api.KeyOps.{
  Service, RefreshSummary, add_counts, refresh_accounts, refresh_all, refresh, sync_ownership,
}

abbrev Any : {A : Type 0} → A → Type 0
Any a = Unit {0}

-- The reporter never fails: it logs what it cannot write.
abbrev pub IsLenient : Reporter → Type 0
IsLenient report = (n total : ℕ) (message : Text) → Returns Any (report n total message)

-- How a refresh ends, by what Clerk answers.
abbrev pub RefreshEnds : Result (List Account) → Result RefreshSummary → Type 0
RefreshEnds (err e) r = r ≡ err e
RefreshEnds (ok []) r = r ≡ err no_connected_accounts
RefreshEnds (ok (a ∷ list)) r = (s : RefreshSummary) × (r ≡ ok s) × (s.accounts ≡ length (a ∷ list))

accounts-add_counts :
    (s : RefreshSummary) (r : Result ScrapeResult) → (add_counts s r).accounts ≡ s.accounts
accounts-add_counts s (ok r) = refl
accounts-add_counts s (err e) = refl

module _ (service : Service) (report : Reporter) (lenient : IsLenient report) where
  refresh_accounts-accounts :
      (total i : ℕ) (list : List Account) (s : RefreshSummary)
      → Returns (λ t. t.accounts ≡ s.accounts) (refresh_accounts service report total i list s)
  unfolding refresh_accounts
  refresh_accounts-accounts total i [] s = Returns-pure (λ t. t.accounts ≡ s.accounts) s refl
  refresh_accounts-accounts total i (a ∷ rest) s =
      let P : RefreshSummary → Type 0 = λ t. t.accounts ≡ s.accounts in
      let message : Text = codes "Refreshing " ++ (a.provider ++ (b'/' ∷ a.username)) in
      let with_fetcher : Fetcher → M RefreshSummary = λ fetcher.
        attempt (scrape_user fetcher a.provider a.username) >>= λ scraped.
        refresh_accounts service report total (i + 1) rest (add_counts s scraped) in
      let next : Option Fetcher → M RefreshSummary = λ o. elim o [
        | none ↦ refresh_accounts service report total (i + 1) rest s
        | some fetcher ↦ with_fetcher fetcher
      ] in
      Returns-bind Any P (report i total message) (λ u. next (service.scrapers a.provider))
        (lenient i total message)
        (λ u _. elim (service.scrapers a.provider) as (λ o. Returns P (next o)) [
          | none ↦ refresh_accounts-accounts total (i + 1) rest s
          | some fetcher ↦
              Returns-bind Any P (attempt (scrape_user fetcher a.provider a.username))
                (λ scraped.
                  refresh_accounts service report total (i + 1) rest (add_counts s scraped))
                (Returns-attempt (scrape_user fetcher a.provider a.username))
                (λ scraped _ w.
                  let (t, e, same) =
                    refresh_accounts-accounts total (i + 1) rest (add_counts s scraped) w in
                  (t, e, same ∙ accounts-add_counts s scraped))
        ])

  refresh_all-accounts :
      (subject : Text) (list : List Account)
      → Returns (λ t. t.accounts ≡ length list) (refresh_all service subject report list)
  unfolding refresh_all
  refresh_all-accounts subject list =
      let P : RefreshSummary → Type 0 = λ t. t.accounts ≡ length list in
      let n : ℕ = length list in
      let zeros : RefreshSummary = record {
        accounts = n;
        keys_added = 0;
        keys_updated = 0;
        keys_removed = 0;
      } in
      let end : RefreshSummary → M RefreshSummary =
        λ s. report n n (codes "Done") >>= λ u. pure s in
      Returns-bind Any P (report 0 n (codes "Starting"))
        (λ u. refresh_accounts service report n 0 list zeros >>= λ s.
          ignore (sync_ownership subject list) >>= λ u. end s)
        (lenient 0 n (codes "Starting"))
        (λ u _.
          Returns-bind P P (refresh_accounts service report n 0 list zeros)
            (λ s. ignore (sync_ownership subject list) >>= λ u. end s)
            (refresh_accounts-accounts n 0 list zeros)
            (λ s p.
              Returns-bind Any P (ignore (sync_ownership subject list)) (λ u. end s)
                (Returns-ignore (sync_ownership subject list))
                (λ u _.
                  Returns-bind Any P (report n n (codes "Done")) (λ u. pure s)
                    (lenient n n (codes "Done")) (λ u _. Returns-pure P s p))))

  -- A refresh fails only over the accounts: with Clerk's error, or with `ErrNoConnectedAccounts` if
  -- there are none. Otherwise it returns a summary that counts every account, whichever scrapes,
  -- statements and reports fail on the way, for a reporter that returns no error.
  pub refresh_lem :
      (subject : Text) (w : World)
      → RefreshEnds (accounts service.identities subject) (refresh service subject report w).0
  unfolding refresh
  refresh_lem subject w = ended (accounts service.identities subject) refl
    where
      ended :
          (answer : Result (List Account))
          → accounts service.identities subject ≡ answer
          → RefreshEnds answer (refresh service subject report w).0
      ended (err e) same = rw same refl
      ended (ok []) same = rw same refl
      ended (ok (a ∷ list)) same = rw same (refresh_all-accounts subject (a ∷ list) w)
