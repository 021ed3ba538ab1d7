-- ===== src/Workers/Revocation.antt =====
-- A revocation that the queue runs: the worker's own reporter and the task's rows included.
use sshark_api.Base.{
  ℕ, false, Option, List, ◌==◌, if◌then◌else◌, ◌≡◌, ◌⊎◌, inl, inr, refl, sym, ◌∙◌, ap, subst, any,
  arith,
}
use sshark_api.Base.Text.{Text}
use sshark_api.Store.{
  PublicKey, Source, Deletion, Env, Error, World, M, Result, ok, err, unique_violation, attempt,
  bind-ok, ◌>>=◌,
}
use sshark_api.Store.Frame.{Result-cases, Maintains, Maintains-statement}
use sshark_api.Identity.{ClerkUser}
use sshark_api.Task.Repository.{
  mark_running, finish, report_progress, has_active_twin, update_row, set_running, set_finished,
  set_progress,
}
use sshark_api.Task.Queue.{Reporter, reporter, run, settle, encoded, error_of}
use sshark_api.Task.Queue.Settle.{settled_result, run_blocked}
use sshark_api.KeyOps.{Service, RevokeSummary, revoke}
use sshark_api.KeyOps.Ownership.{IsQuiet, Owns, Unchanged}
use sshark_api.KeyOps.Revoke.{Refused, revoke-Owns, revoke-IsGone}
use sshark_api.Workers.{work_revoke}

module _ (keys : List PublicKey) (sources : List Source) (deletions : List Deletion) where
  abbrev keeps :
      (w : World) (e : Env)
      → Unchanged keys sources deletions w
      → Unchanged keys sources deletions (record w { env = e })
  keeps w e i = i

  Maintains-mark_running : (id : ℕ) → Maintains (Unchanged keys sources deletions) (mark_running id)
  unfolding mark_running
  Maintains-mark_running id =
      Maintains-statement (Unchanged keys sources deletions) keeps
        (λ w.
          if has_active_twin id w.tasks
          then (err unique_violation, w)
          else (ok tt, record w { tasks = update_row id (set_running w.env.now) w.tasks }))
        (λ w i. ground arith)

  Maintains-finish :
      (id : ℕ) (result : Option Text) (e : Option Error)
      → Maintains (Unchanged keys sources deletions) (finish id result e)
  unfolding finish
  Maintains-finish id result e =
      Maintains-statement (Unchanged keys sources deletions) keeps
        (λ w. (ok tt, record w { tasks = update_row id (set_finished result e w.env.now) w.tasks }))
        (λ w i. i)

  Maintains-report_progress :
      (id : ℕ) (p : _) → Maintains (Unchanged keys sources deletions) (report_progress id p)
  unfolding report_progress
  Maintains-report_progress id p =
      Maintains-statement (Unchanged keys sources deletions) keeps
        (λ w. (ok tt, record w { tasks = update_row id (set_progress p w.env.now) w.tasks }))
        (λ w i. i)

-- The reporter of a job writes its task only.
reporter-IsQuiet : (id : ℕ) → IsQuiet (reporter id)
unfolding reporter
reporter-IsQuiet id keys sources deletions n total message w i =
    (Maintains-report_progress keys sources deletions id _ w i, λ a same. tt)

module _ {R : Type 0} (marshal : R → Option Text) (id : ℕ) where
  result-settle : (o : Result R) (w : World) → (settle marshal id o w).0 ≡ settled_result o
  unfolding settle
  result-settle (ok r) w = refl
  result-settle (err e) w = refl

  tables-settle :
      (o : Result R) (w : World)
      → (settle marshal id o w).1 ≡ (finish id (encoded marshal o) (error_of marshal o) w).1
  unfolding settle
  tables-settle (ok r) w = refl
  tables-settle (err e) w = refl

  run-marked :
      (operation : Reporter → M R) (w : World)
      → (mark_running id w).0 ≡ ok tt
      → let (o, w2) = operation (reporter id) (mark_running id w).1 in
        run marshal id operation w ≡ settle marshal id o w2
  unfolding run
  run-marked operation w marked =
      bind-ok (mark_running id)
        (λ u. attempt (operation (reporter id)) >>= λ outcome. settle marshal id outcome) w marked

module _ {R : Type 0} (marshal : R → Option Text) (id : ℕ) (o : Result R) (w2 : World) where
  -- Settling the task writes no key and sends no request.
  settle-Unchanged : Unchanged w2.public_keys w2.sources w2.deletions (settle marshal id o w2).1
  settle-Unchanged =
      subst (Unchanged w2.public_keys w2.sources w2.deletions) (sym (tables-settle marshal id o w2))
        (Maintains-finish w2.public_keys w2.sources w2.deletions id (encoded marshal o)
          (error_of marshal o) w2 (refl, refl, refl))

  -- What is known of the operation's end is known of the job's.
  settle-Ends :
      (Owned : Type 0) (key_id : ℕ) (w : World)
      → (Owned
          ⊎ (((e : Error) × (o ≡ err e))
              × (w2.public_keys ≡ w.public_keys)
              × (w2.deletions ≡ w.deletions)))
      → ((a : R) → o ≡ ok a → any (λ k. k.id == key_id) w2.public_keys ≡ false)
      → let done = settle marshal id o w2 in
        (Owned
          ⊎ (((e : Error) × (done.0 ≡ err e))
              × (done.1.public_keys ≡ w.public_keys)
              × (done.1.deletions ≡ w.deletions)))
        × (done.0 ≡ ok tt → any (λ k. k.id == key_id) done.1.public_keys ≡ false)
  settle-Ends Owned key_id w ends gone = (
    elim ends [
      | inl owned ↦ inl owned
      | inr ((e, failed), same_keys, same_deletions) ↦ inr (
        (e, result-settle marshal id o w2 ∙ ap settled_result failed),
        settle-Unchanged.0 ∙ same_keys,
        settle-Unchanged.2 ∙ same_deletions,
      )
    ],
    λ fine. elim (Result-cases o) [
      | inl (a, h) ↦
          subst (λ rows. any (λ k. k.id == key_id) rows ≡ false) (sym settle-Unchanged.0) (gone a h)
      | inr (e, failed) ↦
          let refused : (settle marshal id o w2).0 ≡ err e =
            result-settle marshal id o w2 ∙ ap settled_result failed in
          absurd (cc)
    ],
  )

-- What holds once the task is marked running, told of the tables before that.
from_marked :
    (service : Service) (subject : Text) (key_id : ℕ) (report : Reporter) (usr : ClerkUser)
    (w w1 : World)
    → Unchanged w.public_keys w.sources w.deletions w1
    → (Owns usr w1.public_keys w1.sources key_id
        ⊎ Refused service subject key_id report w1 (revoke service subject key_id report w1))
    → let r = revoke service subject key_id report w1 in
      Owns usr w.public_keys w.sources key_id
      ⊎ (((e : Error) × (r.0 ≡ err e))
          × (r.1.public_keys ≡ w.public_keys)
          × (r.1.deletions ≡ w.deletions))
from_marked service subject key_id report usr w w1 (same_keys, same_sources, same_deletions)
      (inl owned) =
    inl (
      subst (λ t. Owns usr t w.sources key_id) same_keys
        (subst (λ t. Owns usr w1.public_keys t key_id) same_sources owned))
from_marked service subject key_id report usr w w1 (same_keys, same_sources, same_deletions)
      (inr (failed, keys, deletions)) =
    inr (failed, keys ∙ same_keys, deletions ∙ same_deletions)

-- A revocation that the queue runs ends in one of two ways, as far as keys and requests go. Either the
-- user is verified to hold the account that publishes the key, in the tables as they are when the job
-- starts; or the job returns an error, writes no key and asks no provider to delete one. And where the
-- job returns no error, no row of the key is left. This holds whichever statements fail, those that
-- keep the task included, for a user that Clerk knows.
pub work_revoke-Owns :
    (service : Service) (marshal : RevokeSummary → Option Text) (task_id : ℕ) (subject : Text)
    (key_id : ℕ) (usr : ClerkUser) (w : World)
    → service.identities.user subject ≡ ok usr
    → let done = work_revoke service marshal task_id subject key_id w in
      (Owns usr w.public_keys w.sources key_id
        ⊎ (((e : Error) × (done.0 ≡ err e))
            × (done.1.public_keys ≡ w.public_keys)
            × (done.1.deletions ≡ w.deletions)))
      × (done.0 ≡ ok tt → any (λ k. k.id == key_id) done.1.public_keys ≡ false)
unfolding work_revoke
work_revoke-Owns service marshal task_id subject key_id usr w known =
    let operation : Reporter → M RevokeSummary = λ report. revoke service subject key_id report in
    let w1 : World = (mark_running task_id w).1 in
    let Ends : Result (Unit {0}) × World → Type 0 = λ done.
      (Owns usr w.public_keys w.sources key_id
        ⊎ (((e : Error) × (done.0 ≡ err e))
            × (done.1.public_keys ≡ w.public_keys)
            × (done.1.deletions ≡ w.deletions)))
      × (done.0 ≡ ok tt → any (λ k. k.id == key_id) done.1.public_keys ≡ false) in
    let marked_tables =
      Maintains-mark_running w.public_keys w.sources w.deletions task_id w (refl, refl, refl) in
    let owned_or_refused =
      from_marked service subject key_id (reporter task_id) usr w w1 marked_tables (
        revoke-Owns service subject key_id (reporter task_id) usr w1 (reporter-IsQuiet task_id)
          known) in
    elim (Result-cases (mark_running task_id w).0) [
      | inr (e, blocked) ↦
          subst Ends (sym (run_blocked marshal task_id operation w e blocked))
            (inr ((e, refl), marked_tables.0, marked_tables.2), λ same. absurd (cc))
      | inl (u, marked) ↦ subst Ends (sym (run-marked marshal task_id operation w marked)) (
          settle-Ends marshal task_id (operation (reporter task_id) w1).0
            (operation (reporter task_id) w1).1 (Owns usr w.public_keys w.sources key_id) key_id w
            owned_or_refused
            (revoke-IsGone service subject key_id (reporter task_id) (reporter-IsQuiet task_id) w1))
    ]
