-- ===== src/Task/Periodic/Ends.antt =====
-- The walk of the periodic refresh comes to its end.
use sshark_api.Base.{
  ℕ, zero, suc, ◌<◌, Option, none, some, List, [], ◌∷◌, if◌then◌else◌, ◌≡◌, ◌⊎◌, inl, inr, refl,
  sym, ap, ◌∙◌, subst, arith, ltb, keep, take, length, All, All-take, Bool-cases, ◌==◌,
}
use sshark_api.Base.Text.{Text, codes}
use sshark_api.Store.{
  Profile, Task, Kind, JobArgs, refresh_keys, refresh_keys_args, pending, task_already_running,
  new_id, attempt, fail, Env, Error, World, M, Result, ok, err, pure, ignore, ◌>>=◌, ◌>>◌,
}
use sshark_api.Store.Frame.{
  Maintains, Maintains-bind, Maintains-new_id, Ensures, Ensures-bind, Ensures-pure,
  Ensures-statement, Ensures-Maintains, Result-cases,
}
use sshark_api.Tables.Profiles
use sshark_api.Task.Repository
use sshark_api.Task.Repository.{NewTask}
use sshark_api.Task.Queue.{enqueue_refresh, enqueue, insert_job, kind_name}
use sshark_api.Task.Periodic.{refresh_batch_size, Walk, finished, is_no_profile, queue_batch, walk}
use sshark_api.Task.Periodic.Behind.{behind, IsBehind, behind_less, keep-IsBehind, behind-length}

module _ (P : Profile → Type 0) where
  All-insert_by_id :
      (p : Profile) (ps : List Profile) → P p → All P ps → All P (Profiles.insert_by_id p ps)
  unfolding Profiles.insert_by_id
  All-insert_by_id p [] hp h = (hp, tt)
  All-insert_by_id p (q ∷ qs) hp h = elim (Bool-cases (ltb q.id p.id)) [
    | inl e ↦ rw e (h.0, All-insert_by_id p qs hp h.1)
    | inr e ↦ rw e (hp, h)
  ]

  All-by_id : (ps : List Profile) → All P ps → All P (Profiles.by_id ps)
  unfolding Profiles.by_id
  All-by_id [] h = tt
  All-by_id (p ∷ ps) h = All-insert_by_id p (Profiles.by_id ps) h.0 (All-by_id ps h.1)

module _ (ps : List Profile) where
  -- The profiles are those at the start.
  abbrev pub ProfilesAre : World → Type 0
  ProfilesAre w = w.profiles ≡ ps

  abbrev keeps : (w : World) (e : Env) → ProfilesAre w → ProfilesAre (record w { env = e })
  keeps w e i = i

  list-IsBehind :
      (after limit : ℕ) → Ensures ProfilesAre (All (IsBehind after ps)) (Profiles.list after limit)
  unfolding Profiles.list
  list-IsBehind after limit =
      let rows : World → List Profile =
        λ w. take limit (Profiles.by_id (keep (λ p. ltb after p.id) w.profiles)) in
      let select : World → Result (List Profile) × World = λ w. (ok (rows w), w) in
      Ensures-statement ProfilesAre keeps (All (IsBehind after ps)) select (λ w i.
        Ensures-pure ProfilesAre (All (IsBehind after ps)) (rows w)
          (All-take (IsBehind after ps) limit
            (Profiles.by_id (keep (λ p. ltb after p.id) w.profiles))
            (All-by_id (IsBehind after ps) (keep (λ p. ltb after p.id) w.profiles) (
              subst (λ qs. All (IsBehind after ps) (keep (λ p. ltb after p.id) qs)) (sym i)
                (keep-IsBehind after ps))))
          w i)

  module _ (enqueue : Text → M Task)
      (leaves : (subject : Text) → Maintains ProfilesAre (enqueue subject)) where
    -- The identifier of a profile behind the given one.
    abbrev IsNext : ℕ → ℕ → Type 0
    IsNext after id = (q : Profile) × IsBehind after ps q × (id ≡ q.id)

    queue_batch-IsNext :
        (after id : ℕ) (batch : List Profile)
        → All (IsBehind after ps) batch
        → IsNext after id
        → Ensures ProfilesAre (IsNext after) (queue_batch enqueue batch id)
    unfolding queue_batch
    queue_batch-IsNext after id [] all next = Ensures-pure ProfilesAre (IsNext after) id next
    queue_batch-IsNext after id (p ∷ batch) all next =
        Ensures-bind ProfilesAre (λ u. Unit {0}) (IsNext after) (ignore (enqueue p.clerk_user_id))
          (λ u. queue_batch enqueue batch p.id)
          (Ensures-Maintains ProfilesAre (ignore (enqueue p.clerk_user_id))
            (leaves p.clerk_user_id))
          (λ u _. queue_batch-IsNext after p.id batch all.1 (p, all.0, refl))

    abbrev IsFinished : Walk → Type 0
    IsFinished r = r ≡ finished

    -- A batch that is not empty.
    after_batch :
        (fuel after : ℕ) (p : Profile) (batch : List Profile)
        → ((id : ℕ) → behind id ps < fuel → Ensures ProfilesAre IsFinished (walk enqueue fuel id))
        → behind after ps < suc fuel
        → All (IsBehind after ps) (p ∷ batch)
        → Ensures ProfilesAre IsFinished
            (queue_batch enqueue (p ∷ batch) after >>= walk enqueue fuel)
    unfolding queue_batch
    after_batch fuel after p batch rest enough all =
        Ensures-bind ProfilesAre (IsNext after) IsFinished (queue_batch enqueue (p ∷ batch) after)
          (walk enqueue fuel)
          (Ensures-bind ProfilesAre (λ u. Unit {0}) (IsNext after)
            (ignore (enqueue p.clerk_user_id)) (λ u. queue_batch enqueue batch p.id)
            (Ensures-Maintains ProfilesAre (ignore (enqueue p.clerk_user_id))
              (leaves p.clerk_user_id))
            (λ u _. queue_batch-IsNext after p.id batch all.1 (p, all.0, refl)))
          (λ id next. rest id (
            let (q, is_behind, same) = next in
            let fewer = behind_less after ps q is_behind in rw same (omega (arith, fewer, enough))))

    walk-IsFinished :
        (fuel after : ℕ)
        → behind after ps < fuel
        → Ensures ProfilesAre IsFinished (walk enqueue fuel after)
    unfolding walk
    walk-IsFinished zero after enough = absurd (omega (arith, enough))
    walk-IsFinished (suc fuel) after enough =
        let next : List Profile → M Walk = λ batch.
          if is_no_profile batch
          then pure finished
          else (queue_batch enqueue batch after >>= walk enqueue fuel) in
        Ensures-bind ProfilesAre (All (IsBehind after ps)) IsFinished
          (Profiles.list after refresh_batch_size) next (list-IsBehind after refresh_batch_size)
          (λ batch all.
            (elim batch
                as (λ batch.
                  All (IsBehind after ps) batch → Ensures ProfilesAre IsFinished (next batch)) [
                    | [] ↦ λ all. Ensures-pure ProfilesAre IsFinished finished refl
                    | p ∷ batch ↦
                        λ all. after_batch fuel after p batch (walk-IsFinished fuel) enough all
                  ])
              all)

module _ (ps : List Profile) where
  insert_row-profiles : (t : Task) → Maintains (ProfilesAre ps) (Repository.insert_row t)
  unfolding Repository.insert_row
  insert_row-profiles t w i = ground arith

  create-profiles : (t : NewTask) → Maintains (ProfilesAre ps) (Repository.create t)
  unfolding Repository.create
  create-profiles t =
      let insert : ℕ → M Task =
        λ id w. Repository.insert_row (Repository.new_row t id w.env.now) w in
      let after : Result Task → M Task =
        λ r. elim r [ ok row ↦ pure row | err e ↦ fail (Repository.translate e) ] in
      Maintains-bind (ProfilesAre ps) (if t.id == 0 then new_id else pure t.id)
        (λ id. attempt (insert id) >>= after)
        (λ w i. elim (Bool-cases (t.id == 0)) [
          | inl e ↦ rw e (Maintains-new_id (ProfilesAre ps) (λ w e i. i) w i)
          | inr e ↦ rw e i
        ])
        (λ id.
          Maintains-bind (ProfilesAre ps) (attempt (insert id)) after
            (λ w i. insert_row-profiles (Repository.new_row t id w.env.now) w i)
            (λ r. elim r as (λ r. Maintains (ProfilesAre ps) (after r)) [
              | ok row ↦ λ w i. i
              | err e ↦ λ w i. i
            ]))

  find-profiles :
      (user dedup : Text)
      → Maintains (ProfilesAre ps) (Repository.find_active_by_dedup_key user dedup)
  unfolding Repository.find_active_by_dedup_key
  find-profiles user dedup w i = ground arith

  finish-profiles :
      (id : ℕ) (result : Option Text) (error : Option Error)
      → Maintains (ProfilesAre ps) (Repository.finish id result error)
  unfolding Repository.finish
  finish-profiles id result error w i = ground arith

  insert_job-profiles : (job : JobArgs) → Maintains (ProfilesAre ps) (insert_job job)
  unfolding insert_job
  insert_job-profiles job w i = ground arith

  enqueue-profiles :
      (subject dedup : Text) (total : ℕ) (build_args : ℕ → JobArgs) (kind : Kind)
      → Maintains (ProfilesAre ps) (enqueue subject dedup total build_args kind)
  unfolding enqueue
  enqueue-profiles subject dedup total build_args kind =
      let I : World → Type 0 = ProfilesAre ps in
      let new_task : ℕ → NewTask = λ id. record {
        id = id;
        clerk_user_id = subject;
        kind = kind;
        dedup_key = dedup;
        status = some pending;
        total = total;
        message = some (codes "Queued");
      } in
      let queued : Task → Result (Unit {0}) → M Task = λ task queued. elim queued [
        | ok _ ↦ pure task
        | err e ↦ ignore (Repository.finish task.id none (some e)) >> fail e
      ] in
      let refuse : Error → M Task = λ e. elim e [
        | task_already_running ↦ Repository.find_active_by_dedup_key subject dedup
        | other_error ↦ fail other_error
      ] in
      let created : Result Task → M Task = λ r. elim r [
        | err e ↦ refuse e
        | ok task ↦ attempt (insert_job (build_args task.id)) >>= queued task
      ] in
      Maintains-bind I new_id (λ id. attempt (Repository.create (new_task id)) >>= created)
        (Maintains-new_id I (λ w e i. i))
        (λ id.
          Maintains-bind I (attempt (Repository.create (new_task id))) created
            (create-profiles (new_task id))
            (λ r. elim r as (λ r. Maintains I (created r)) [
              | err e ↦ elim e as (λ e. Maintains I (refuse e)) [
                | task_already_running ↦ find-profiles subject dedup
                | other_error ↦ λ w i. i
              ]
              | ok task ↦
                  Maintains-bind I (attempt (insert_job (build_args task.id))) (queued task)
                    (insert_job-profiles (build_args task.id))
                    (λ q. elim q as (λ q. Maintains I (queued task q)) [
                      | ok _ ↦ λ w i. i
                      | err e ↦
                          Maintains-bind I {B = Task}
                            (ignore (Repository.finish task.id none (some e))) (λ u. fail e)
                            (finish-profiles task.id none (some e)) (λ u w i. i)
                    ])
            ]))

-- The walk comes to its end: with more fuel than there are profiles, it finishes or ends with an
-- error, and never runs out, whichever refreshes cannot be queued and whichever statements fail.
pub walk_lem :
    (fuel : ℕ) (w : World)
    → length w.profiles < fuel
    → ((walk enqueue_refresh fuel 0 w).0 ≡ ok finished)
      ⊎ ((e : Error) × ((walk enqueue_refresh fuel 0 w).0 ≡ err e))
walk_lem fuel w enough =
    let leaves : (subject : Text) → Maintains (ProfilesAre w.profiles) (enqueue_refresh subject) =
      λ subject.
        unfold enqueue_refresh in
        enqueue-profiles w.profiles subject (kind_name refresh_keys) 0
          (λ id. refresh_keys_args id subject) refresh_keys in
    let walked =
      walk-IsFinished w.profiles enqueue_refresh leaves fuel 0
        (omega (arith, behind-length 0 w.profiles, enough)) w refl in
    elim (Result-cases (walk enqueue_refresh fuel 0 w).0) [
      | inl (r, e) ↦ inl (e ∙ ap ok (walked.1 r e))
      | inr failed ↦ inr failed
    ]
