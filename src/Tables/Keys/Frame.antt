-- ===== src/Tables/Keys/Frame.antt =====
-- The operations on one source's keys of one type leave all other keys as they were.
use sshark_api.Base.{
  ℕ, ◌+◌, Bool, true, false, not, ◌&&◌, Option, none, List, [], ◌∷◌, ◌==◌, ◌≡◌, refl, sym, ◌∙◌, ap,
  subst, any, keep, arith, Bool-cases, inl, inr,
}
use sshark_api.Store.{
  KeyType, ssh, gpg, PublicKey, SshMetadata, GpgMetadata, ScrapeHistory, Env, World, ok, bind-ok,
  bind-err, ◌>>◌, transaction, new_id, pure,
}
use sshark_api.Store.Frame.{Result-cases, Maintains, Maintains-bind, Maintains-transaction}
use sshark_api.Tables.Keys

-- A key of another source, or of another type.
abbrev pub is_other : ℕ → KeyType → PublicKey → Bool
is_other source type k = not (k.source_id == source && Keys.key_type_eq k.key_type type)

-- The other keys are those of a given list.
abbrev pub OthersAre : ℕ → KeyType → List PublicKey → World → Type 0
OthersAre source type others w = keep (is_other source type) w.public_keys ≡ others

-- No other key has the identifier.
abbrev pub IsOwn : ℕ → List PublicKey → Type 0
IsOwn id others = any (λ k. k.id == id) others ≡ false

key_type_eq_refl : (t : KeyType) → Keys.key_type_eq t t ≡ true
unfolding Keys.key_type_eq
key_type_eq_refl ssh = refl
key_type_eq_refl gpg = refl

==_refl : (n : ℕ) → (n == n) ≡ true
==_refl n = ground arith

module _ (source : ℕ) (type : KeyType) where
  keep-update_row :
      (id : ℕ) (f : PublicKey → PublicKey) (rows : List PublicKey)
      → ((k : PublicKey) → is_other source type (f k) ≡ is_other source type k)
      → IsOwn id (keep (is_other source type) rows)
      → keep (is_other source type) (Keys.update_row id f rows) ≡ keep (is_other source type) rows
  keep-update_row id f [] same own = refl
  keep-update_row id f (k ∷ rows) same own = ground (arith, same k, keep-update_row id f rows same)

  keep-delete :
      (id : ℕ) (rows : List PublicKey)
      → IsOwn id (keep (is_other source type) rows)
      → keep (is_other source type) (keep (λ k. not (k.id == id)) rows)
        ≡ keep (is_other source type) rows
  keep-delete id [] own = refl
  keep-delete id (k ∷ rows) own = ground (arith, keep-delete id rows)

  module _ (others : List PublicKey) where
    abbrev keeps :
        (w : World) (e : Env)
        → OthersAre source type others w
        → OthersAre source type others (record w { env = e })
    keeps w e i = i

    pub Maintains-delete :
        (id : ℕ) → IsOwn id others → Maintains (OthersAre source type others) (Keys.delete id)
    unfolding Keys.delete
    Maintains-delete id own w i = ground (arith, keep-delete id w.public_keys (rw i own))

    update_row-OthersAre :
        (id : ℕ) (f : PublicKey → PublicKey) (rows : List PublicKey)
        → ((k : PublicKey) → is_other source type (f k) ≡ is_other source type k)
        → IsOwn id others
        → keep (is_other source type) rows ≡ others
        → keep (is_other source type) (Keys.update_row id f rows) ≡ others
    update_row-OthersAre id f rows same own i = keep-update_row id f rows same (rw i own) ∙ i

    ssh-OthersAre :
        (id : ℕ) (m : Option SshMetadata) (rows : List PublicKey)
        → IsOwn id others
        → keep (is_other source type) rows ≡ others
        → keep (is_other source type) (Keys.update_row id (λ r. record r { ssh_metadata = m }) rows)
          ≡ others
    ssh-OthersAre id m rows own i = update_row-OthersAre id _ rows (λ r. refl) own i

    gpg-OthersAre :
        (id : ℕ) (m : Option GpgMetadata) (rows : List PublicKey)
        → IsOwn id others
        → keep (is_other source type) rows ≡ others
        → keep (is_other source type) (Keys.update_row id (λ r. record r { gpg_metadata = m }) rows)
          ≡ others
    gpg-OthersAre id m rows own i = update_row-OthersAre id _ rows (λ r. refl) own i

    Maintains-save_metadata :
        (k : PublicKey)
        → IsOwn k.id others
        → Maintains (OthersAre source type others) (Keys.save_metadata k)
    unfolding Keys.save_metadata
    Maintains-save_metadata k own w i = ground (
      arith,
      ssh-OthersAre k.id k.ssh_metadata w.public_keys own i,
      gpg-OthersAre k.id k.gpg_metadata w.public_keys own i,
    )

    pub Maintains-add_scrape_history :
        (h : ScrapeHistory) → Maintains (OthersAre source type others) (Keys.add_scrape_history h)
    unfolding Keys.add_scrape_history
    Maintains-add_scrape_history h w i = ground arith

    Maintains-update_columns :
        (k : PublicKey)
        → IsOwn k.id others
        → Maintains (OthersAre source type others) (Keys.update_columns k)
    unfolding Keys.update_columns
    Maintains-update_columns k own w i = ground (
      arith,
      update_row-OthersAre k.id (Keys.set_columns k w.env.now) w.public_keys (λ r. refl) own i,
    )

    Maintains-delete_ssh_metadata :
        (id : ℕ)
        → IsOwn id others
        → Maintains (OthersAre source type others) (Keys.delete_ssh_metadata id)
    unfolding Keys.delete_ssh_metadata
    Maintains-delete_ssh_metadata id own w i =
        ground (arith, ssh-OthersAre id none w.public_keys own i)

    Maintains-delete_gpg_metadata :
        (id : ℕ)
        → IsOwn id others
        → Maintains (OthersAre source type others) (Keys.delete_gpg_metadata id)
    unfolding Keys.delete_gpg_metadata
    Maintains-delete_gpg_metadata id own w i =
        ground (arith, gpg-OthersAre id none w.public_keys own i)

    Maintains-delete_metadata :
        (id : ℕ)
        → IsOwn id others
        → Maintains (OthersAre source type others) (Keys.delete_metadata id)
    unfolding Keys.delete_metadata
    Maintains-delete_metadata id own =
        Maintains-bind (OthersAre source type others) (Keys.delete_ssh_metadata id)
          (λ done. Keys.delete_gpg_metadata id) (Maintains-delete_ssh_metadata id own)
          (λ done. Maintains-delete_gpg_metadata id own)

    pub Maintains-update :
        (k : PublicKey)
        → IsOwn k.id others
        → Maintains (OthersAre source type others) (Keys.update k)
    unfolding Keys.update
    Maintains-update k own =
        Maintains-transaction (OthersAre source type others) keeps
          (Keys.update_columns k >> (Keys.delete_metadata k.id >> Keys.save_metadata k))
          (Maintains-bind (OthersAre source type others) (Keys.update_columns k)
            (λ done. Keys.delete_metadata k.id >> Keys.save_metadata k)
            (Maintains-update_columns k own)
            (λ done.
              Maintains-bind (OthersAre source type others) (Keys.delete_metadata k.id)
                (λ done. Keys.save_metadata k) (Maintains-delete_metadata k.id own)
                (λ done. Maintains-save_metadata k own)))

    -- A new key of the source and the type.
    Maintains-insert_row :
        (k : PublicKey)
        → k.source_id ≡ source
        → k.key_type ≡ type
        → Maintains (OthersAre source type others) (Keys.insert_row k)
    unfolding Keys.insert_row
    Maintains-insert_row k same_source same_type w i =
        ground (arith, ==_refl source, key_type_eq_refl type)

    fresh-IsOwn :
        (k : PublicKey) (rows : List PublicKey)
        → Keys.conflicts k rows ≡ false
        → IsOwn k.id (keep (is_other source type) rows)
    unfolding Keys.conflicts
    fresh-IsOwn k [] fresh = refl
    fresh-IsOwn k (j ∷ rows) fresh = ground (arith, fresh-IsOwn k rows)

    insert_row-IsOwn :
        (k : PublicKey) (w : World)
        → (Keys.insert_row k w).0 ≡ ok tt
        → OthersAre source type others w
        → IsOwn k.id others
    unfolding Keys.insert_row
    insert_row-IsOwn k w h i =
        let fresh : Keys.conflicts k w.public_keys ≡ false = ground arith in
        subst (IsOwn k.id) i (fresh-IsOwn k w.public_keys fresh)

    Maintains-insert :
        (k : PublicKey)
        → k.source_id ≡ source
        → k.key_type ≡ type
        → Maintains (OthersAre source type others) (Keys.insert_row k >> Keys.save_metadata k)
    Maintains-insert k same_source same_type w i =
        let inserted = Maintains-insert_row k same_source same_type w i in
        let I : World → Type 0 = OthersAre source type others in
        elim (Result-cases (Keys.insert_row k w).0) [
          | inl (done, e) ↦
              subst (λ r. I r.1)
                (sym (bind-ok (Keys.insert_row k) (λ done. Keys.save_metadata k) w e))
                (Maintains-save_metadata k (insert_row-IsOwn k w e i) _ inserted)
          | inr (e, h) ↦
              subst (λ r. I r.1)
                (sym (bind-err (Keys.insert_row k) (λ done. Keys.save_metadata k) w h)) inserted
        ]

    with_id-eq :
        (k : PublicKey) (w : World)
        → (id : ℕ) × (e : Env) × (Keys.with_id k w
            ≡ (ok (record k { id = id }), record w { env = e }))
    unfolding new_id
    with_id-eq k w = elim (Bool-cases (k.id == 0)) [
      | inl e ↦ rw e (w.env.ids w.env.drawn, record (w.env) { drawn = w.env.drawn + 1 }, refl)
      | inr e ↦ rw e (k.id, w.env, refl)
    ]

    Maintains-store :
        (k : PublicKey)
        → k.source_id ≡ source
        → k.key_type ≡ type
        → Maintains
            (OthersAre source type others)
            (transaction (Keys.insert_row k >> Keys.save_metadata k) >> pure k.id)
    Maintains-store k same_source same_type =
        Maintains-bind (OthersAre source type others)
          (transaction (Keys.insert_row k >> Keys.save_metadata k)) (λ done. pure k.id)
          (Maintains-transaction (OthersAre source type others) keeps _
            (Maintains-insert k same_source same_type))
          (λ done w i. i)

    pub Maintains-create :
        (k : PublicKey)
        → k.source_id ≡ source
        → k.key_type ≡ type
        → Maintains (OthersAre source type others) (Keys.create k)
    unfolding Keys.create
    Maintains-create k same_source same_type w i =
        let (id, e, with_id) = with_id-eq k w in
        let after : OthersAre source type others (Keys.with_id k w).1 =
          subst (λ r. OthersAre source type others r.1) (sym with_id) i in
        subst (λ r. OthersAre source type others r.1)
          (sym (
            bind-ok (Keys.with_id k)
              (λ row. transaction (Keys.insert_row row >> Keys.save_metadata row) >> pure row.id) w
              (ap (λ r. r.0) with_id)))
          (Maintains-store (record k { id = id }) same_source same_type (Keys.with_id k w).1 after)
