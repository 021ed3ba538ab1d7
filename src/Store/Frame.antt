-- ===== src/Store/Frame.antt =====
-- What a call maintains: a property of the tables that holds after it, however it ends.
use sshark_api.Base.{
  Bool, true, false, if◌then◌else◌, ◌≡◌, ◌⊎◌, inl, inr, refl, sym, ap, ◌∙◌, subst, Bool-cases,
}
use sshark_api.Store.Rows.{Error}
use sshark_api.Store.Monad.{
  Env, World, Result, ok, err, M, pure, fail, attempt, ◌>>=◌, tick, statement, transaction, new_id,
  bind-ok, bind-err,
}

-- A result is a value or an error.
pub Result-cases {ℓ} :
    {A : Type ℓ} (r : Result A) → ((a : A) × (r ≡ ok a)) ⊎ ((e : Error) × (r ≡ err e))
Result-cases (ok a) = inl (a, refl)
Result-cases (err e) = inr (e, refl)

-- If the property holds before the call, it holds after it.
abbrev pub Maintains : {A : Type 0} → (World → Type 0) → M A → Type 0
Maintains I m = (w : World) → I w → I (m w).1

module _ (I : World → Type 0) where
  pub Maintains-bind :
      {A B : Type 0} (m : M A) (f : A → M B)
      → Maintains I m
      → ((a : A) → Maintains I (f a))
      → Maintains I (m >>= f)
  Maintains-bind m f hm hf w i =
      let w' : World = (m w).1 in
      elim (Result-cases (m w).0) [
        | inl (a, e) ↦ subst (λ r. I r.1) (sym (bind-ok m f w e)) (hf a w' (hm w i))
        | inr (e, h) ↦ subst (λ r. I r.1) (sym (bind-err m f w h)) (hm w i)
      ]

-- A property that does not look at the environment.
module _ (I : World → Type 0)
    (stable : (w : World) (e : Env) → I w → I (record w { env = e })) where
  pub Maintains-statement :
      {A : Type 0} (run : World → Result A × World) → Maintains I run → Maintains I (statement run)
  unfolding statement
  Maintains-statement run p w i = elim (Bool-cases (w.env.faults w.env.statement)) [
    | inl e ↦ rw e (stable w _ i)
    | inr e ↦ rw e (p (tick w) (stable w _ i))
  ]

  pub Maintains-transaction : {A : Type 0} (m : M A) → Maintains I m → Maintains I (transaction m)
  unfolding transaction
  Maintains-transaction m hm w i =
      let w' : World = (m (tick w)).1 in
      elim (Bool-cases (w.env.faults w.env.statement)) [
        | inl e ↦ rw e (stable w _ i)
        | inr e ↦ rw e (elim (Result-cases (m (tick w)).0) [
          | inr (x, h) ↦ rw h (stable w _ i)
          | inl (a, h) ↦ rw h (elim (Bool-cases (w'.env.faults w'.env.statement)) [
            | inl g ↦ rw g (stable w _ i)
            | inr g ↦ rw g (stable w' _ (hm (tick w) (stable w _ i)))
          ])
        ])
      ]

  pub Maintains-new_id : Maintains I new_id
  unfolding new_id
  Maintains-new_id w i = stable w _ i

-- The call maintains the property, and what it returns has another one.
abbrev pub Ensures : {A : Type 0} → (World → Type 0) → (A → Type 0) → M A → Type 0
Ensures I P m = (w : World) → I w → I (m w).1 × ((a : _) → (m w).0 ≡ ok a → P a)

module _ (I : World → Type 0) where
  pub Ensures-bind :
      {A B : Type 0} (P : A → Type 0) (Q : B → Type 0) (m : M A) (f : A → M B)
      → Ensures I P m
      → ((a : A) → P a → Ensures I Q (f a))
      → Ensures I Q (m >>= f)
  Ensures-bind {B = B} P Q m f hm hf w i =
      let w' : World = (m w).1 in
      let (after, returned) = hm w i in
      let Done : Result B × World → Type 0 = λ r. I r.1 × ((b : B) → r.0 ≡ ok b → Q b) in
      elim (Result-cases (m w).0) [
        | inl (a, e) ↦ subst Done (sym (bind-ok m f w e)) (hf a (returned a e) w' after)
        | inr (e, h) ↦ subst Done (sym (bind-err m f w h)) (after, λ b same. absurd (cc))
      ]

  pub Ensures-pure : {A : Type 0} (P : A → Type 0) (a : A) → P a → Ensures I P (pure a)
  Ensures-pure P a p w i = (i, λ b same. subst P (cc) p)

  -- Of a call about whose result nothing is said.
  pub Ensures-Maintains : {A : Type 0} (m : M A) → Maintains I m → Ensures I (λ a. Unit {0}) m
  Ensures-Maintains m h w i = (h w i, λ a same. tt)

  pub Maintains-Ensures : {A : Type 0} (P : A → Type 0) (m : M A) → Ensures I P m → Maintains I m
  Maintains-Ensures P m h w i = (h w i).0

-- The property of a result's value, if it has one.
abbrev pub OnOk : {A : Type 0} → (A → Type 0) → Result A → Type 0
OnOk P (ok a) = P a
OnOk P (err e) = Unit {0}

module _ (I : World → Type 0) where
  pub Ensures-attempt :
      {A : Type 0} (P : A → Type 0) (m : M A) → Ensures I P m → Ensures I (OnOk P) (attempt m)
  Ensures-attempt P m h w i =
      let (after, returned) = h w i in
      (
        after,
        λ r same. elim (Result-cases (m w).0) [
          | inl (a, e) ↦
              let is_ok : ok (ok a) ≡ ok r = ap ok (sym e) ∙ same in
              let this : ok a ≡ r = cc in subst (OnOk P) this (returned a e)
          | inr (e, g) ↦
              let is_ok : ok (err e) ≡ ok r = ap ok (sym g) ∙ same in
              let this : err e ≡ r = cc in subst (OnOk P) this tt
        ],
      )

  pub Ensures-fail : {A : Type 0} (P : A → Type 0) (e : Error) → Ensures I P (fail e)
  Ensures-fail P e w i = (i, λ a same. absurd (cc))

  pub Ensures-if :
      {A : Type 0} (P : A → Type 0) (b : Bool) (m n : M A)
      → Ensures I P m
      → Ensures I P n
      → Ensures I P (if b then m else n)
  Ensures-if P true m n hm hn = hm
  Ensures-if P false m n hm hn = hn

module _ (I : World → Type 0)
    (stable : (w : World) (e : Env) → I w → I (record w { env = e })) where
  pub Ensures-statement :
      {A : Type 0} (P : A → Type 0) (run : World → Result A × World)
      → Ensures I P run
      → Ensures I P (statement run)
  unfolding statement
  Ensures-statement P run p w i = elim (Bool-cases (w.env.faults w.env.statement)) [
    | inl e ↦ rw e (stable w _ i, λ a same. absurd (cc))
    | inr e ↦ rw e (p (tick w) (stable w _ i))
  ]

-- If the call succeeds, it leaves the property behind.
abbrev pub Leaves : {A : Type 0} → (World → Type 0) → M A → Type 0
Leaves J m = (w : World) (a : _) → (m w).0 ≡ ok a → J (m w).1

module _ (J : World → Type 0) where
  -- The last call leaves it behind.
  pub Leaves-after :
      {A B : Type 0} (m : M A) (f : A → M B) → ((a : A) → Leaves J (f a)) → Leaves J (m >>= f)
  Leaves-after {B = B} m f hf w b h =
      let Done : Result B × World → Type 0 = λ r. r.0 ≡ ok b → J r.1 in
      elim (Result-cases (m w).0) [
        | inl (a, e) ↦ subst Done (sym (bind-ok m f w e)) (hf a (m w).1 b) h
        | inr (e, g) ↦ subst Done (sym (bind-err m f w g)) (λ same. absurd (cc)) h
      ]

  -- A call leaves it behind, and the rest maintains it.
  pub Leaves-before :
      {A B : Type 0} (m : M A) (f : A → M B)
      → Leaves J m
      → ((a : A) → Maintains J (f a))
      → Leaves J (m >>= f)
  Leaves-before {B = B} m f hm hf w b h =
      let Done : Result B × World → Type 0 = λ r. r.0 ≡ ok b → J r.1 in
      elim (Result-cases (m w).0) [
        | inl (a, e) ↦ subst Done (sym (bind-ok m f w e)) (λ same. hf a (m w).1 (hm w a e)) h
        | inr (e, g) ↦ subst Done (sym (bind-err m f w g)) (λ same. absurd (cc)) h
      ]
