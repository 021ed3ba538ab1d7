-- ===== src/Public/Statistics.antt =====
-- api/public/v1/stats.go: the statistics, kept for five minutes in variables of the package.
pub mod Again
use sshark_api.Base.{
  ℕ, ◌+◌, Bool, true, false, ◌||◌, Option, none, some, List, if◌then◌else◌, ltb, map,
}
use sshark_api.Base.Text.{Text}
use sshark_api.Store.{M, ok, err, pure, attempt, ◌>>=◌, get_now}
use sshark_api.Tables.Sources.Stats.{FacetValue, Facet, Stats, get_stats}
use sshark_api.Api.{Response, json, problem, status_ok, internal_error}

-- The package's `cache` and `updateTime`. The zero time is long before any other.
pub record Cache : Type 0 where
  pub cache : Option Stats
  pub update_time : ℕ

-- Five minutes, in seconds.
abbrev pub cache_lifetime : ℕ
cache_lifetime = 300

-- public.Statistics
pub record Statistics : Type 0 where
  pub facets : List (Text × List Facet)

unfoldable pub is_stale : Cache → ℕ → Bool
is_stale c now =
    ltb (c.update_time + cache_lifetime) now || elim c.cache [ none ↦ true | some _ ↦ false ]

-- The API's facets have the fields of the domain's.
unfoldable pub to_statistics : Stats → Statistics
to_statistics stats = record {
  facets =
      map
        (λ field. (
          field.0,
          map
              (λ (f : Facet). record {
                type = f.type;
                values =
                    map (λ (v : FacetValue). record { value = v.value; count = v.count }) f.values;
              })
              field.1,
        ))
        stats.facets;
}

-- The answer, and the variables after it.
unfoldable pub stats : Cache → M (Response Statistics × Cache)
unfolding is_stale to_statistics
stats c = do
  now ← get_now
  let show : Stats → Response Statistics = λ s. json status_ok (to_statistics s) in
      if is_stale c now
      then (do
        read ← attempt get_stats
        elim read [
          | err e ↦ pure (problem internal_error, c)
          | ok s ↦ pure (show s, record { cache = some s; update_time = now })
        ])
      else elim c.cache [ none ↦ pure (problem internal_error, c) | some s ↦ pure (show s, c) ]
