-- ===== src/Public/Statistics/Again.antt =====
-- Two calls of `Stats` (api/public/v1/stats.go) within five minutes.
use sshark_api.Base.{
  true, ℕ, ◌+◌, ◌≤◌, false, Option, none, some, ◌≡◌, sym, ap, ◌∙◌, arith, inl, inr,
}
use sshark_api.Store.{World, M, ok, pure}
use sshark_api.Store.Frame.{Result-cases}
use sshark_api.Tables.Sources.Stats.{Stats, get_stats}
use sshark_api.Api.{Response, json, problem, status_ok, internal_error}
use sshark_api.Public.Statistics.{Cache, cache_lifetime, Statistics, is_stale, to_statistics, stats}

fresh :
    (c : Cache) (s : Stats) (now : ℕ)
    → c.cache ≡ some s
    → now ≤ c.update_time + cache_lifetime
    → is_stale c now ≡ false
unfolding is_stale
fresh c s now held young = rw held (ground (arith, young))

-- A memory that is not stale is what the call shows.
shows :
    (c : Cache) (s : Stats) (w : World)
    → c.cache ≡ some s
    → is_stale c w.env.now ≡ false
    → stats c w ≡ (ok (json status_ok (to_statistics s), c), w)
unfolding stats
shows c s w held young =
    let answer : Option Stats → M (Response Statistics × Cache) = λ o. elim o [
      | none ↦ pure (problem internal_error, c)
      | some s ↦ pure (json status_ok (to_statistics s), c)
    ] in
    rw young (ap (λ o. answer o w) held)

-- What a call that reads the tables keeps: the time of the reading, and what it answered with.
reading :
    (c c' : Cache) (a : Statistics) (w : World)
    → is_stale c w.env.now ≡ true
    → (stats c w).0 ≡ ok (json status_ok a, c')
    → (s : Stats) × (c' ≡ record { cache = some s; update_time = w.env.now })
      × (to_statistics s ≡ a)
unfolding stats get_stats
reading c c' a w stale h = elim (Result-cases (get_stats w).0) [
  | inl (s, e) ↦
      let kept : Cache = record { cache = some s; update_time = w.env.now } in
      let answer : Response Statistics × Cache = (json status_ok (to_statistics s), kept) in
      let given : Response Statistics × Cache = (json status_ok a, c') in
      let h' : ok answer ≡ ok given = rw (stale, e) at h in
      let same : answer ≡ given = cc in
      let bodies : json status_ok (to_statistics s) ≡ json status_ok a = ap (λ r. r.0) same in
      (s, sym (ap (λ r. r.1) same), cc)
  | inr (x, e) ↦ absurd (cc)
]

-- A call that finds nothing kept, or what is kept out of date, and answers with statistics: in the five
-- minutes after it, a call is answered with the same statistics and sends no statement.
pub stats_again :
    (c c' : Cache) (a : Statistics) (w v : World)
    → is_stale c w.env.now ≡ true
    → (stats c w).0 ≡ ok (json status_ok a, c')
    → v.env.now ≤ w.env.now + cache_lifetime
    → stats c' v ≡ (ok (json status_ok a, c'), v)
stats_again c c' a w v stale answered young =
    let (s, kept, same) = reading c c' a w stale answered in
    let held : c'.cache ≡ some s = ap (λ (c : Cache). c.cache) kept in
    let time : c'.update_time ≡ w.env.now = ap (λ (c : Cache). c.update_time) kept in
    shows c' s v held (fresh c' s v.env.now held (rw time young))
    ∙ ap (λ a. (ok (json status_ok a, c'), v)) same
