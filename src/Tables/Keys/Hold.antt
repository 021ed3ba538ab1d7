-- ===== src/Tables/Keys/Hold.antt =====
-- What the operations of internal/infra/publickeys/postgres/repository.go keep true of every key, for a
-- predicate that does not look at the metadata.
use sshark_api.Base.{
  ℕ, Bool, Option, none, List, [], ◌∷◌, ◌==◌, ◌≡◌, subst, keep, arith, Bool-cases, inl, inr, All,
}
use sshark_api.Store.{
  PublicKey, SshMetadata, GpgMetadata, ScrapeHistory, Env, World, M, pure, ◌>>=◌, ◌>>◌, transaction,
  new_id,
}
use sshark_api.Store.Frame.{
  Maintains, Maintains-bind, Maintains-transaction, Ensures, Ensures-bind, Ensures-Maintains,
  Maintains-Ensures,
}
use sshark_api.Tables.Keys

module _ (C : PublicKey → Type 0)
    (ssh-C : (k : PublicKey) (m : Option SshMetadata) → C k → C (record k { ssh_metadata = m }))
    (gpg-C : (k : PublicKey) (m : Option GpgMetadata)
      → C k
      → C (record k { gpg_metadata = m })) where
  abbrev pub Hold : World → Type 0
  Hold w = All C w.public_keys

  abbrev keeps : (w : World) (e : Env) → Hold w → Hold (record w { env = e })
  keeps w e h = h

  All-keep : (p : PublicKey → Bool) (rows : List PublicKey) → All C rows → All C (keep p rows)
  All-keep p [] h = tt
  All-keep p (k ∷ rows) h = elim (Bool-cases (p k)) [
    | inl e ↦ rw e (h.0, All-keep p rows h.1)
    | inr e ↦ rw e (All-keep p rows h.1)
  ]

  All-update_row :
      (id : ℕ) (f : PublicKey → PublicKey) (rows : List PublicKey)
      → ((k : PublicKey) → C k → C (f k))
      → All C rows
      → All C (Keys.update_row id f rows)
  All-update_row id f [] c h = tt
  All-update_row id f (k ∷ rows) c h = elim (Bool-cases (k.id == id)) [
    | inl e ↦ rw e (c k h.0, All-update_row id f rows c h.1)
    | inr e ↦ rw e (h.0, All-update_row id f rows c h.1)
  ]

  Hold-ssh :
      (id : ℕ) (m : Option SshMetadata) (rows : List PublicKey)
      → All C rows
      → All C (Keys.update_row id (λ r. record r { ssh_metadata = m }) rows)
  Hold-ssh id m rows = All-update_row id _ rows (λ k. ssh-C k m)

  Hold-gpg :
      (id : ℕ) (m : Option GpgMetadata) (rows : List PublicKey)
      → All C rows
      → All C (Keys.update_row id (λ r. record r { gpg_metadata = m }) rows)
  Hold-gpg id m rows = All-update_row id _ rows (λ k. gpg-C k m)

  Hold-save_metadata : (k : PublicKey) → Maintains Hold (Keys.save_metadata k)
  unfolding Keys.save_metadata
  Hold-save_metadata k w h = ground (
    arith,
    Hold-ssh k.id k.ssh_metadata w.public_keys h,
    Hold-gpg k.id k.gpg_metadata w.public_keys h,
  )

  pub Hold-add_scrape_history : (h : ScrapeHistory) → Maintains Hold (Keys.add_scrape_history h)
  unfolding Keys.add_scrape_history
  Hold-add_scrape_history h w i = ground arith

  Hold-delete_ssh_metadata : (id : ℕ) → Maintains Hold (Keys.delete_ssh_metadata id)
  unfolding Keys.delete_ssh_metadata
  Hold-delete_ssh_metadata id w h = ground (arith, Hold-ssh id none w.public_keys h)

  Hold-delete_gpg_metadata : (id : ℕ) → Maintains Hold (Keys.delete_gpg_metadata id)
  unfolding Keys.delete_gpg_metadata
  Hold-delete_gpg_metadata id w h = ground (arith, Hold-gpg id none w.public_keys h)

  Hold-delete_metadata : (id : ℕ) → Maintains Hold (Keys.delete_metadata id)
  unfolding Keys.delete_metadata
  Hold-delete_metadata id =
      Maintains-bind Hold (Keys.delete_ssh_metadata id) (λ done. Keys.delete_gpg_metadata id)
        (Hold-delete_ssh_metadata id) (λ done. Hold-delete_gpg_metadata id)

  Hold-update_columns :
      (k : PublicKey)
      → ((now : ℕ) (row : PublicKey) → C row → C (Keys.set_columns k now row))
      → Maintains Hold (Keys.update_columns k)
  unfolding Keys.update_columns
  Hold-update_columns k c w h =
      ground
        (arith, All-update_row k.id (Keys.set_columns k w.env.now) w.public_keys (c w.env.now) h)

  pub Hold-update :
      (k : PublicKey)
      → ((now : ℕ) (row : PublicKey) → C row → C (Keys.set_columns k now row))
      → Maintains Hold (Keys.update k)
  unfolding Keys.update
  Hold-update k c =
      Maintains-transaction Hold keeps
        (Keys.update_columns k >> (Keys.delete_metadata k.id >> Keys.save_metadata k))
        (Maintains-bind Hold (Keys.update_columns k)
          (λ done. Keys.delete_metadata k.id >> Keys.save_metadata k) (Hold-update_columns k c)
          (λ done.
            Maintains-bind Hold (Keys.delete_metadata k.id) (λ done. Keys.save_metadata k)
              (Hold-delete_metadata k.id) (λ done. Hold-save_metadata k)))

  -- The predicate holds of the row that an insertion of the key makes.
  abbrev pub OfNew : PublicKey → Type 0
  OfNew k =
      (id now : ℕ)
      → C (record k {
        id = id;
        created_at = now;
        updated_at = now;
        ssh_metadata = none;
        gpg_metadata = none;
      })

  Hold-insert_row : (k : PublicKey) → OfNew k → Maintains Hold (Keys.insert_row k)
  unfolding Keys.insert_row
  Hold-insert_row k c w h = ground (arith, c k.id w.env.now)

  Hold-store :
      (k : PublicKey)
      → OfNew k
      → Maintains Hold (transaction (Keys.insert_row k >> Keys.save_metadata k))
  Hold-store k c = Maintains-transaction Hold keeps (Keys.insert_row k >> Keys.save_metadata k) (
      Maintains-bind Hold (Keys.insert_row k) (λ done. Keys.save_metadata k) (Hold-insert_row k c)
        (λ done. Hold-save_metadata k))

  with_id-OfNew : (k : PublicKey) → OfNew k → Ensures Hold OfNew (Keys.with_id k)
  unfolding new_id
  with_id-OfNew k c w h = elim (Bool-cases (k.id == 0)) [
    | inl e ↦ rw e (
      h,
      λ row same.
          let this : record k { id = w.env.ids w.env.drawn } ≡ row = cc in subst OfNew this c,
    )
    | inr e ↦
        rw e (h, λ row same. let this : record k { id = k.id } ≡ row = cc in subst OfNew this c)
  ]

  pub Hold-create : (k : PublicKey) → OfNew k → Maintains Hold (Keys.create k)
  unfolding Keys.create
  Hold-create k c =
      let store : PublicKey → M ℕ =
        λ row. transaction (Keys.insert_row row >> Keys.save_metadata row) >> pure row.id in
      Maintains-Ensures Hold (λ id. Unit {0}) (Keys.with_id k >>= store)
        (Ensures-bind Hold OfNew (λ id. Unit {0}) (Keys.with_id k) store (with_id-OfNew k c)
          (λ row new. Ensures-Maintains Hold (store row) (
            Maintains-bind Hold (transaction (Keys.insert_row row >> Keys.save_metadata row))
              (λ done. pure row.id) (Hold-store row new) (λ done w h. h))))
