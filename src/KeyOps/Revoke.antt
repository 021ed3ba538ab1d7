-- ===== src/KeyOps/Revoke.antt =====
-- Who may revoke a key, and what is gone afterwards.
use sshark_api.Base.{
  ℕ, Bool, false, not, List, [], ◌∷◌, ◌++◌, ◌==◌, ◌≡◌, refl, sym, ◌∙◌, subst, any, keep, arith, ◌⊎◌,
  inl, inr,
}
use sshark_api.Base.Text.{Text, codes}
use sshark_api.Store.{
  PublicKey, Error, key_not_found, World, M, Result, ok, err, ◌>>=◌, pure, fail, attempt, bind-ok,
  bind-err,
}
use sshark_api.Store.Frame.{
  Result-cases, Maintains, Maintains-bind, Leaves, Leaves-after, Leaves-before,
}
use sshark_api.Tables.Keys
use sshark_api.Tables.Sources.{Joined}
use sshark_api.Identity.{ClerkUser}
use sshark_api.Task.Queue.{Reporter}
use sshark_api.KeyOps.{
  Service, RevokeSummary, delete_at_provider, check_ownership, revoke_owned, revoke,
}
use sshark_api.KeyOps.Ownership.{IsQuiet, Owns, check_ownership-Owns}

module _ (service : Service) (subject : Text) (key_id : ℕ) (report : Reporter) where
  -- The call ends with an error, and has written no key and sent no request.
  abbrev pub Refused : World → Result RevokeSummary × World → Type 0
  Refused w r =
      ((e : Error) × (r.0 ≡ err e))
      × (r.1.public_keys ≡ w.public_keys)
      × (r.1.deletions ≡ w.deletions)

  -- Only the owner of a key revokes it: unless the user is verified to hold the account that publishes
  -- the key, in the tables as they are when the call starts, the call ends with an error, no key is
  -- written, and no request is sent to a provider. This holds whichever statements fail, for a
  -- reporter that writes no keys and sources and sends no request, and a user that Clerk knows.
  pub revoke-Owns :
      (usr : ClerkUser) (w : World)
      → IsQuiet report
      → service.identities.user subject ≡ ok usr
      → Owns usr w.public_keys w.sources key_id ⊎ Refused w (revoke service subject key_id report w)
  unfolding revoke
  revoke-Owns usr w quiet known =
      let start : M (Unit {0}) = report 0 3 (codes "Checking ownership") in
      let check : M (PublicKey × Joined) = check_ownership service subject key_id in
      let rest : Unit {0} → M RevokeSummary =
        λ u. check >>= revoke_owned service subject key_id report in
      let w1 : World = (start w).1 in
      let told =
        quiet w.public_keys w.sources w.deletions 0 3 (codes "Checking ownership") w
          (refl, refl, refl) in
      let checked =
        check_ownership-Owns w.public_keys w.sources w.deletions service usr subject key_id known w1
          told.0 in
      elim (Result-cases (start w).0) [
        | inr (e, h) ↦
            inr (subst (Refused w) (sym (bind-err start rest w h)) ((e, refl), told.0.0, told.0.2))
        | inl (u, h) ↦ elim (Result-cases (check w1).0) [
          | inl (owned, g) ↦ inl (checked.1 owned g)
          | inr (e, g) ↦ inr (
              subst (Refused w)
                (sym (
                  bind-ok start rest w h
                  ∙ bind-err check (revoke_owned service subject key_id report) w1 g))
                ((e, refl), checked.0.0, checked.0.2))
        ]
      ]

  -- The key is in no row.
  abbrev pub IsGone : World → Type 0
  IsGone w = any (λ k. k.id == key_id) w.public_keys ≡ false

  any-keep-not :
      (rows : List PublicKey)
      → any (λ k. k.id == key_id) (keep (λ k. not (k.id == key_id)) rows) ≡ false
  any-keep-not [] = refl
  any-keep-not (k ∷ rows) = ground (arith, any-keep-not rows)

  abbrev drop_result : Result (Unit {0}) → M (Unit {0})
  drop_result dropped = elim dropped [
    | ok _ ↦ pure tt
    | err e ↦ elim e [ key_not_found ↦ pure tt | other_error ↦ fail other_error ]
  ]

  Leaves-drop : Leaves IsGone (attempt (Keys.delete key_id) >>= drop_result)
  unfolding Keys.delete
  Leaves-drop w u h = ground (arith, any-keep-not w.public_keys)

  Maintains-report :
      IsQuiet report → (n total : ℕ) (message : Text) → Maintains IsGone (report n total message)
  Maintains-report quiet n total message w gone =
      let kept =
        (quiet w.public_keys w.sources w.deletions n total message w (refl, refl, refl)).0 in
      subst (λ keys. any (λ k. k.id == key_id) keys ≡ false) (sym kept.0) gone

  Leaves-revoke_owned :
      IsQuiet report
      → (owned : PublicKey × Joined)
      → Leaves IsGone (revoke_owned service subject key_id report owned)
  unfolding revoke_owned
  Leaves-revoke_owned quiet owned =
      let summary : Bool → RevokeSummary = λ gone. record {
        provider = owned.1.source.provider;
        username = owned.1.source.username;
        key_type = owned.0.key_type;
        already_gone = gone;
      } in
      let delete : M Bool = delete_at_provider service subject owned.1.source.provider owned.0 in
      let drop : M (Unit {0}) = attempt (Keys.delete key_id) >>= drop_result in
      let end : Bool → M RevokeSummary =
        λ gone. report 3 3 (codes "Done") >>= λ u. pure (summary gone) in
      let tell : M (Unit {0}) = report 2 3 (codes "Removing it from SShark") in
      Leaves-after IsGone (report 1 3 (codes "Deleting the key at " ++ owned.1.source.provider))
        (λ u. delete >>= λ gone. tell >>= λ u. drop >>= λ u. end gone)
        (λ u.
          Leaves-after IsGone delete (λ gone. tell >>= λ u. drop >>= λ u. end gone)
            (λ gone.
              Leaves-after IsGone tell (λ u. drop >>= λ u. end gone)
                (λ u.
                  Leaves-before IsGone drop (λ u. end gone) Leaves-drop
                    (λ u.
                      Maintains-bind IsGone (report 3 3 (codes "Done")) (λ u. pure (summary gone))
                        (Maintains-report quiet 3 3 (codes "Done")) (λ u w gone. gone)))))

  -- A successful revocation leaves no copy: after it no row has the key's identifier. This holds
  -- whichever statements fail, for a reporter that writes no keys.
  pub revoke-IsGone : IsQuiet report → Leaves IsGone (revoke service subject key_id report)
  unfolding revoke
  revoke-IsGone quiet =
      Leaves-after IsGone (report 0 3 (codes "Checking ownership"))
        (λ u. check_ownership service subject key_id >>= revoke_owned service subject key_id report)
        (λ u.
          Leaves-after IsGone (check_ownership service subject key_id)
            (revoke_owned service subject key_id report) (λ owned. Leaves-revoke_owned quiet owned))
