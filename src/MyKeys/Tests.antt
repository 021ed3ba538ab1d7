-- ===== src/MyKeys/Tests.antt =====
-- The theorems on the keys of a signed-in user at concrete tables.
use sshark_api.Base.{true, false, none, some, [], ◌∷◌, ◌≡◌, ◌↔◌, refl}
use sshark_api.Base.Text.{codes, text_eq, is_empty}
use sshark_api.Store.{World, ok, provider_github}
use sshark_api.Tables.Keys
use sshark_api.Tables.Sources
use sshark_api.Identity.{ClerkUser, AccessToken, accounts, token, has_scope}
use sshark_api.KeyOps.{supports_revocation, revocation_scopes}
use sshark_api.MyKeys.{MyKeysResponse, list_my_keys, describe_account}
use sshark_api.MyKeys.Shown.{IsOwnList, list_my_keys-IsOwnList}
use sshark_api.MyKeys.Scopes.{AllowsRevocation, describe_account_iff}
use sshark_api.Samples.{clerk, world, key, other_key, ada_account, subject}

abbrev shown : MyKeysResponse
shown = record {
  accounts =
      record {
        provider = provider_github;
        username = codes "ada";
        can_revoke = false;
        missing_scopes = some (codes "admin:gpg_key" ∷ []);
      }
      ∷ [];
  ssh_keys =
      record {
        id = 2;
        key_data = codes "k";
        fingerprint = codes "fp";
        verified = true;
        revocable = true;
        created_at = 6;
        updated_at = 6;
        published_by = record {
          id = 1;
          provider = provider_github;
          username = codes "ada";
          uri = [];
          user_id = codes "1";
          profile_username = none;
        };
        algorithm = none;
        comment = none;
        key_bits = none;
      }
      ∷ [];
  gpg_keys = [];
}

-- A key of the user's, and one of another source.
abbrev own_keys : World
own_keys = world (key ∷ other_key ∷ [])

list_my_keys-IsOwnList_example :
    (usr : ClerkUser) × (clerk.user subject ≡ ok usr)
    × IsOwnList own_keys.public_keys own_keys.sources usr.external_accounts shown
list_my_keys-IsOwnList_example = list_my_keys-IsOwnList clerk subject own_keys 200 shown (
    unfold list_my_keys Sources.get_by_provider_and_username Keys.search accounts token text_eq
      is_empty supports_revocation has_scope revocation_scopes describe_account in
    refl)

describe_account_iff_example : ((describe_account clerk subject ada_account).can_revoke ≡ true) ↔ (
    (supports_revocation provider_github ≡ true)
    × (t : AccessToken) × (token clerk subject provider_github ≡ ok t)
    × AllowsRevocation provider_github t.scopes)
describe_account_iff_example = describe_account_iff clerk subject ada_account
