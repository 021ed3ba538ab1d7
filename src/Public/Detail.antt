-- ===== src/Public/Detail.antt =====
-- The page of a source.
use sshark_api.Base.{◌+◌, true, false, ◌&&◌, some, ◌≡◌, refl, arith, any, find}
use sshark_api.Base.Text.{Text, text_eq, is_empty}
use sshark_api.Store.{ssh, Source, World, ok, IsReliable, tick}
use sshark_api.Tables.Sources
use sshark_api.Tables.Sources.{Joined}
use sshark_api.Tables.Keys.Columns.{is_of, list_by_source_id_lem}
use sshark_api.Api.{problem, internal_error}
use sshark_api.Public.{
  source_detail, get_source_by_provider_and_username, is_supported_source_provider,
}

source_detail_fails :
    (source : Joined) (w : World)
    → w.env.faults w.env.statement ≡ false
    → w.env.faults (w.env.statement + 1) ≡ false
    → any (is_of source.source.id ssh) w.public_keys ≡ true
    → (source_detail source w).0 ≡ ok (problem internal_error)
unfolding source_detail
source_detail_fails source w runs reads has_key =
    let fails = list_by_source_id_lem source.source.id ssh w runs reads has_key in
    ground (arith, fails)

row_found :
    (provider username : Text) (s : Source) (w : World)
    → IsReliable w
    → find (λ s. text_eq s.provider provider && text_eq s.username username) w.sources ≡ some s
    → Sources.get_by_provider_and_username provider username w
      ≡ (ok (Sources.joined (tick w) s), tick w)
unfolding Sources.get_by_provider_and_username
row_found provider username s w reliable found = rw (reliable w.env.statement, found) refl

-- The page of a source with an SSH key is never served: with a supported provider, a source of that
-- user name that has an SSH key, and no statement failing, the answer is an internal error.
pub get_source_fails :
    (provider username : Text) (s : Source) (w : World)
    → IsReliable w
    → is_supported_source_provider provider ≡ true
    → is_empty username ≡ false
    → find (λ s. text_eq s.provider provider && text_eq s.username username) w.sources ≡ some s
    → any (is_of s.id ssh) w.public_keys ≡ true
    → (get_source_by_provider_and_username provider username w).0 ≡ ok (problem internal_error)
unfolding get_source_by_provider_and_username
get_source_fails provider username s w reliable supported named found has_key =
    let row = row_found provider username s w reliable found in
    let fails =
      source_detail_fails (Sources.joined (tick w) s) (tick w) (reliable (w.env.statement + 1))
        (reliable (w.env.statement + 1 + 1)) has_key in
    ground (arith, row, fails)
