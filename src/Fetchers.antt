-- ===== src/Fetchers.antt =====
-- internal/infra/fetchers/github and gitlab: what the two fetchers share. The HTTP client of
-- go-shared is a parameter: it is handed the fetcher's two handlers and a request, and yields the
-- decoded body or an error, and the rate limit after it.
pub mod Github
pub mod Gitlab
pub mod Unknown
mod Tests
use sshark_api.Base.{
  ℕ, ◌-◌, Bool, true, false, not, ◌||◌, Option, none, some, List, [], ◌∷◌, ◌++◌, if◌then◌else◌, ltb,
  leb,
}
use sshark_api.Base.Int64.{is_negative, is_positive, atoi}
use sshark_api.Base.Text.{Text, codes, is_empty}
use sshark_api.Store.{Result, ok, err, cancelled}

-- What the handlers read of a response: an absent header is the empty text.
pub record Reply : Type 0 where
  pub status_code : ℕ
  pub header : Text → Text

-- The fields of `Fetcher` behind its mutex. Both are int64; a reset is a Unix time in seconds.
pub record RateLimit : Type 0 where
  pub rate_remaining : ℕ
  pub rate_limit_reset : ℕ

-- `NewFetcher`; the zero time.Time is the beginning of year 1, 62135596800 seconds before 1970.
abbrev pub new_rate_limit : RateLimit
new_rate_limit = record { rate_remaining = 100; rate_limit_reset = 0xFFFF_FFF1_886E_0900 }

pub record Request : Type 0 where
  pub path : Text
  pub query : List (Text × Text)

pub record Handlers : Type 0 where
  pub update_rate_limit : Reply → RateLimit → RateLimit
  pub check_status : Reply → Result (Unit {0})

-- The client, for bodies that decode to `B`.
abbrev pub Client : Type 0 → Type 0
Client B = Handlers → Request → RateLimit → Result B × RateLimit

-- The time at a request's start, and whether its context ends before the wait does.
pub record Context : Type 0 where
  pub now : ℕ
  pub done : Bool

-- The longest time.Duration, in whole seconds: time.Until stops there.
abbrev pub max_duration : ℕ
max_duration = 9223372036

abbrev pub at_most : ℕ → ℕ → ℕ
at_most bound n = if ltb bound n then bound else n

-- The seconds waited, if any.
unfoldable pub wait_for_rate_limit : Context → RateLimit → Result ℕ
unfolding is_positive is_negative
wait_for_rate_limit ctx limit =
    if is_positive limit.rate_remaining
    then ok 0
    else if is_negative limit.rate_limit_reset || leb limit.rate_limit_reset ctx.now
    then ok 0
    else if ctx.done
    then err cancelled
    else ok (at_most max_duration (limit.rate_limit_reset - ctx.now))

abbrev set_remaining : Text → RateLimit → RateLimit
set_remaining text limit =
    if is_empty text
    then limit
    else elim (atoi text) [ none ↦ limit | some val ↦ record limit { rate_remaining = val } ]

abbrev set_reset : Text → RateLimit → RateLimit
set_reset text limit =
    if is_empty text
    then limit
    else elim (atoi text) [ none ↦ limit | some val ↦ record limit { rate_limit_reset = val } ]

-- `updateRateLimit`, by the names of its two headers.
unfoldable pub update_rate_limit : Text → Text → Reply → RateLimit → RateLimit
unfolding is_empty atoi
update_rate_limit remaining reset res limit =
    set_reset (res.header reset) (set_remaining (res.header remaining) limit)

-- How every fetch begins: wait, then send the request.
unfoldable pub send :
    {B : Type 0} → Client B → Handlers → Context → RateLimit → Request → Result B × RateLimit
unfolding wait_for_rate_limit
send client handlers ctx limit req = elim (wait_for_rate_limit ctx limit) [
  | err e ↦ (err e, limit)
  | ok _ ↦ client handlers req limit
]

-- What a fetch makes of the body.
abbrev pub decoded : {B C : Type 0} → (B → Result C) → Result B × RateLimit → Result C × RateLimit
decoded f (ok body, limit) = (f body, limit)
decoded f (err e, limit) = (err e, limit)
