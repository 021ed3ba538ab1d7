-- ===== src/Store/Monad.antt =====
-- A call: it reads the tables and the environment, and leaves a result and the tables after it.
-- What the program does not decide is the environment's: which statements fail, which identifiers
-- uuid.New draws, and the time.
use sshark_api.Base.{ℕ, ◌+◌, Bool, false, not, List, [], ◌∷◌, ◌≡◌, ap, if◌then◌else◌}
use sshark_api.Base.Text.{Text}
use sshark_api.Store.Rows.{
  Deletion, PublicKey, ScrapeHistory, Source, Profile, Task, JobArgs, Error, database,
}

-- `faults n` says that the n-th statement fails. `ids n` is the n-th identifier drawn.
pub record Env : Type 0 where
  pub faults : ℕ → Bool
  pub statement : ℕ
  pub ids : ℕ → ℕ
  pub drawn : ℕ
  pub now : ℕ

pub record World : Type 0 where
  pub sources : List Source
  pub public_keys : List PublicKey
  pub scrape_history : List ScrapeHistory
  pub profiles : List Profile
  pub tasks : List Task
  pub jobs : List JobArgs
  pub progress : List (Text × Text)
  pub deletions : List Deletion
  pub env : Env

pub data Result {ℓ} (A : Type ℓ) : Type ℓ where
  ok : A → Result A
  err : Error → Result A

abbrev pub M : Type 0 → Type 0
M A = World → Result A × World

module _ {A : Type 0} where
  abbrev pub pure : A → M A
  pure a w = (ok a, w)

  abbrev pub fail : Error → M A
  fail e w = (err e, w)

  -- The result of a call as a value, for code that looks at the error.
  abbrev pub attempt : M A → M (Result A)
  attempt m w = let (r, w') = m w in (ok r, w')

  abbrev pub of_result : Result A → M A
  of_result r w = (r, w)

infixl 5 ◌>>=◌ ◌>>◌
abbrev pub ◌>>=◌ : {A B : Type 0} → M A → (A → M B) → M B
◌>>=◌ m f w = let (r, w') = m w in elim r [ ok a ↦ f a w' | err e ↦ (err e, w') ]

abbrev pub ◌>>◌ : {A B : Type 0} → M A → M B → M B
m >> k = m >>= λ _. k

-- An error that is logged and dropped.
abbrev pub ignore : {A : Type 0} → M A → M (Unit {0})
ignore m w = let (_, w') = m w in (ok tt, w')

abbrev pub tick : World → World
tick w = record w { env = record (w.env) { statement = w.env.statement + 1 } }

-- One statement sent to the database: it fails as a whole, or runs.
unfoldable pub statement : {A : Type 0} → (World → Result A × World) → M A
statement run w = if w.env.faults w.env.statement then (err database, tick w) else run (tick w)

-- The tables as they were, with the environment as it is now.
abbrev pub roll_back : World → World → World
roll_back old new = record old { env = new.env }

-- rows.Next: whether there is another row. When reading the rows fails, the answer is that there is
-- none; only rows.Err tells, for code that asks.
unfoldable pub next_row : M Bool
next_row w = (ok (not (w.env.faults w.env.statement)), tick w)

-- A loop over rows that does not ask rows.Err: the rows before the failure, if there is one.
unfoldable pub read_rows : {A : Type 0} → List A → M (List A)
unfolding next_row
read_rows [] = pure []
read_rows (row ∷ rows) =
    let rest : M (List _) = read_rows rows >>= λ others. pure (row ∷ others) in
    next_row >>= λ more. if more then rest else pure []

-- `Begin`, the body, and `Commit`: an error on the way, or a failed commit, undoes what the body wrote.
unfoldable pub transaction : {A : Type 0} → M A → M A
transaction body w =
    let (r, w') = body (tick w) in
    if w.env.faults w.env.statement then (err database, tick w) else elim r [
      | err e ↦ (err e, roll_back w w')
      | ok a ↦
          if w'.env.faults w'.env.statement
          then (err database, roll_back w (tick w'))
          else (ok a, tick w')
    ]

-- uuid.New.
unfoldable pub new_id : M ℕ
new_id w =
    (ok (w.env.ids w.env.drawn), record w { env = record (w.env) { drawn = w.env.drawn + 1 } })

abbrev pub get_now : M ℕ
get_now w = (ok w.env.now, w)

-- No statement fails.
abbrev pub IsReliable : World → Type 0
IsReliable w = (n : ℕ) → w.env.faults n ≡ false

-- After a call that succeeds, the rest runs in the tables that it left.
pub bind-ok :
    {A B : Type 0} (m : M A) (f : A → M B) (w : World) {a : A}
    → (m w).0 ≡ ok a
    → (m >>= f) w ≡ f a (m w).1
bind-ok m f w h = ap (λ r. elim r [ ok a ↦ f a (m w).1 | err e ↦ (err e, (m w).1) ]) h

-- After a call that fails, the rest does not run.
pub bind-err :
    {A B : Type 0} (m : M A) (f : A → M B) (w : World) {e : Error}
    → (m w).0 ≡ err e
    → (m >>= f) w ≡ (err e, (m w).1)
bind-err m f w h = ap (λ r. elim r [ ok a ↦ f a (m w).1 | err e ↦ (err e, (m w).1) ]) h
