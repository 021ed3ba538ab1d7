-- ===== src/Store/Returns.antt =====
-- Calls that never end with an error of their own.
use sshark_api.Base.{Bool, true, false, if◌then◌else◌, ◌≡◌, refl, ap, ◌∙◌}
use sshark_api.Store.Monad.{World, ok, M, pure, attempt, ignore, ◌>>=◌, bind-ok}

-- The call returns a value that has the property, whichever statements fail.
abbrev pub Returns : {A : Type 0} → (A → Type 0) → M A → Type 0
Returns P m = (w : World) → (a : _) × ((m w).0 ≡ ok a) × P a

pub Returns-bind :
    {A B : Type 0} (P : A → Type 0) (Q : B → Type 0) (m : M A) (f : A → M B)
    → Returns P m
    → ((a : A) → P a → Returns Q (f a))
    → Returns Q (m >>= f)
Returns-bind P Q m f hm hf w =
    let (a, e, p) = hm w in
    let (b, g, q) = hf a p (m w).1 in (b, ap (λ r. r.0) (bind-ok m f w e) ∙ g, q)

pub Returns-pure : {A : Type 0} (P : A → Type 0) (a : A) → P a → Returns P (pure a)
Returns-pure P a p w = (a, refl, p)

pub Returns-attempt : {A : Type 0} (m : M A) → Returns (λ r. Unit {0}) (attempt m)
Returns-attempt m w = ((m w).0, refl, tt)

pub Returns-ignore : {A : Type 0} (m : M A) → Returns (λ u. Unit {0}) (ignore m)
Returns-ignore m w = (tt, refl, tt)

pub Returns-if :
    {A : Type 0} (P : A → Type 0) (b : Bool) (m n : M A)
    → Returns P m
    → Returns P n
    → Returns P (if b then m else n)
Returns-if P true m n hm hn = hm
Returns-if P false m n hm hn = hn
