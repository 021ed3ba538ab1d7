-- ===== src/Samples.antt =====
-- A small installation that the tests share: one user with a verified GitHub account, and one SSH key.
use sshark_api.Base.{◌+◌, false, none, some, List, [], ◌∷◌}
use sshark_api.Base.Text.{Text, codes}
use sshark_api.Store.{ssh, PublicKey, Source, Profile, ok, World, provider_github, pure}
use sshark_api.Identity.{ExternalAccount, ClerkUser, Clerk, Account}
use sshark_api.Scraper.{FetchedKey, FetchedUser, Fetcher}
use sshark_api.KeyOps.{KeyManager, Service}
use sshark_api.Task.Queue.{Reporter}

abbrev pub external : ExternalAccount
external = record {
  provider = codes "oauth_github";
  username = some (codes "ada");
  provider_user_id = codes "1";
  verification = some (codes "verified");
}

abbrev pub usr : ClerkUser
usr = record {
  first_name = none;
  last_name = none;
  image_url = none;
  created_at = 0;
  external_accounts = external ∷ [];
}

abbrev pub clerk : Clerk
clerk = record {
  user = λ subject. ok usr;
  access_tokens = λ subject strategy.
      ok (record { token = codes "t"; scopes = codes "admin:public_key" ∷ [] } ∷ []);
}

abbrev pub subject : Text
subject = codes "user_1"

abbrev pub ada_account : Account
ada_account = record { provider = provider_github; username = codes "ada"; user_id = codes "1" }

abbrev pub profile : Profile
profile = record {
  id = 3;
  clerk_user_id = subject;
  username = codes "ada";
  created_at = 4;
  updated_at = 4;
}

abbrev pub source : Source
source = record {
  id = 1;
  provider = provider_github;
  user_id = codes "1";
  username = codes "ada";
  uri = [];
  profile_id = none;
  created_at = 5;
  updated_at = 5;
}

abbrev pub key : PublicKey
key = record {
  id = 2;
  source_id = 1;
  key_type = ssh;
  key_data = codes "k";
  provider_key_id = none;
  fingerprint = codes "fp";
  created_at = 6;
  updated_at = 6;
  ssh_metadata = none;
  gpg_metadata = none;
}

-- A key of another source.
abbrev pub other_key : PublicKey
other_key = record key { id = 7; source_id = 8 }

abbrev pub world : List PublicKey → World
world keys = record {
  sources = source ∷ [];
  public_keys = keys;
  scrape_history = [];
  profiles = profile ∷ [];
  tasks = [];
  jobs = [];
  progress = [];
  deletions = [];
  env = record { faults = λ n. false; statement = 0; ids = λ n. n + 20; drawn = 0; now = 9 };
}

abbrev pub manager : Text → KeyManager
manager token = record {
  token = token;
  list_keys = λ type. ok (record { id = codes "9"; fingerprint = codes "fp" } ∷ []);
  delete_key = λ type id. ok tt;
}

abbrev pub fetched_user : FetchedUser
fetched_user = record {
  user_id = codes "1";
  username = codes "ada";
  uri = [];
  keys = [];
  gpg_keys = [];
}

abbrev pub fetched_key : FetchedKey
fetched_key = record {
  key_id = codes "9";
  key_data = codes "k";
  fingerprint = codes "fp";
  algorithm = codes "ssh-ed25519";
  comment = [];
  key_bits = none;
  expires_at = none;
  user_ids = [];
  capabilities = [];
}

-- The provider's answers, with the user's SSH keys.
abbrev pub fetcher : List FetchedKey → Fetcher
fetcher keys = record {
  provider = provider_github;
  list_users = λ cursor limit. ok (record { users = []; next_cursor = [] });
  fetch_user = λ username. ok fetched_user;
  fetch_user_keys = λ user. ok keys;
  fetch_user_gpg_keys = λ user. ok [];
}

abbrev pub service : Service
service = record {
  identities = clerk;
  scrapers = λ provider. some (fetcher (fetched_key ∷ []));
  github = manager;
  gitlab = manager;
}

-- A reporter that does nothing.
abbrev pub silent : Reporter
silent n total message = pure tt
