-- ===== src/Public/Tests.antt =====
-- The theorems on the public endpoints at concrete tables.
use sshark_api.Base.{arith, none, some, [], ◌∷◌, ◌≡◌, refl, find}
use sshark_api.Base.Text.{codes, text_eq, is_empty, equal_fold}
use sshark_api.Store.{ok, Profile, provider_github}
use sshark_api.Tables.Keys
use sshark_api.Tables.Sources
use sshark_api.Tables.Profiles
use sshark_api.Identity.{ClerkUser, details}
use sshark_api.Username.{normalize_username}
use sshark_api.Api.{problem, json, status_ok, internal_error}
use sshark_api.Tables.Sources.Stats.{Stats, get_stats}
use sshark_api.Public.Statistics.{Cache, Statistics, is_stale, stats}
use sshark_api.Public.Statistics.Again.{stats_again}
use sshark_api.Public.{get_source_by_provider_and_username, is_supported_source_provider}
use sshark_api.Public.UserPage.{PublicProfile, get_user_profile}
use sshark_api.Public.Detail.{get_source_fails}
use sshark_api.Public.Page.{IsProvenPage, get_user_profile-IsProvenPage}
use sshark_api.Samples.{clerk, world, key, other_key, source, profile}

abbrev page : PublicProfile
page = record {
  username = codes "ada";
  created_at = 4;
  display_name = some (codes "ada");
  avatar_url = none;
  accounts = record { provider = provider_github; username = codes "ada"; uri = none } ∷ [];
  ssh_keys =
      record {
        id = 2;
        key_data = codes "k";
        fingerprint = codes "fp";
        created_at = 6;
        updated_at = 6;
        published_by = record {
          id = 1;
          provider = provider_github;
          username = codes "ada";
          uri = [];
          user_id = codes "1";
          profile_username = none;
        };
        algorithm = none;
        comment = none;
        key_bits = none;
      }
      ∷ [];
  gpg_keys = [];
}

get_user_profile-IsProvenPage_example :
    (p : Profile) × (usr : ClerkUser) × (find
        (λ p. equal_fold p.username (normalize_username (codes "ADA")))
        (profile ∷ [])
      ≡ some p)
    × (clerk.user p.clerk_user_id ≡ ok usr)
    × IsProvenPage (key ∷ other_key ∷ []) (source ∷ []) usr.external_accounts page
get_user_profile-IsProvenPage_example =
    get_user_profile-IsProvenPage clerk (codes "ADA") (world (key ∷ other_key ∷ [])) 200 page (
      unfold get_user_profile Profiles.get_by_username Sources.get_by_provider_and_username
        Keys.search details text_eq is_empty equal_fold normalize_username in
      refl)

get_source_fails_example :
    (get_source_by_provider_and_username provider_github (codes "ada") (world (key ∷ []))).0
    ≡ ok (problem internal_error)
get_source_fails_example =
    get_source_fails provider_github (codes "ada") source (world (key ∷ [])) (λ n. refl)
      (unfold is_supported_source_provider text_eq in refl) (unfold is_empty in refl)
      (unfold text_eq in refl) (unfold Keys.key_type_eq in refl)

abbrev no_stats : Cache
no_stats = record { cache = none; update_time = 0 }

-- The statistics of one SSH key without metadata.
abbrev one_key : Stats
one_key = record {
  facets =
      (
        codes "source.provider",
        record { type = codes "value"; values = record { value = provider_github; count = 1 } ∷ [] }
            ∷ [],
      )
      ∷ (codes "algorithm", record { type = codes "value"; values = [] } ∷ [])
      ∷ (
        codes "source.username",
        record { type = codes "value"; values = record { value = codes "total"; count = 1 } ∷ [] }
            ∷ [],
      )
      ∷ [];
}

abbrev kept : Cache
kept = record { cache = some one_key; update_time = 9 }

abbrev shown : Statistics
shown = record { facets = one_key.facets }

stats_again_example : stats kept (world []) ≡ (ok (json status_ok shown, kept), world [])
unfolding stats get_stats
stats_again_example =
    stats_again no_stats kept shown (world (key ∷ [])) (world []) (unfold is_stale in refl) refl
      (omega arith)
