-- ===== src/Controller/Args/Order.antt =====
-- The flags that are made of a map (pkg/controller/machine.go), when the map is ranged over in another
-- order.
use mathlib.Core.List.{Permᴰ}
use mathlib.Core.List.Permᴰ.{nil, cons, swap, trans}
use mathlib.Core.List.Permᴰ as Permᴰ
use mathlib.Core.Path.{subst}
use docker_machine_operator.Base.{String, ◌≡◌, refl, ap, List, [], ◌∷◌, All}
use docker_machine_operator.Go.Error.{ok}
use docker_machine_operator.Go.Map.{GoMap}
use docker_machine_operator.Controller.Args.{flag, auth_data, append_auth}
use docker_machine_operator.Controller.Args.Flags.{flags_of, IsUsable, append_auth-eq-ok}

All-Permᴰ : {A : Type 0} (P : A → Type 0) (xs ys : List A) → Permᴰ xs ys → All P xs → All P ys
All-Permᴰ P _ _ nil h = tt
All-Permᴰ P (a ∷ xs) (b ∷ ys) (cons e d) (p, h) = (subst P e p, All-Permᴰ P xs ys d h)
All-Permᴰ P _ _ (swap e f) (p, (q, h)) = (subst P f q, (subst P e p, h))
All-Permᴰ P xs ys (trans {l₂ = zs} d d') h = All-Permᴰ P zs ys d' (All-Permᴰ P xs zs d h)

module _ (f : String → String) where
  -- The flag of an entry stays before its value.
  abbrev entry : String × String → List String
  entry (k, v) = flag k ∷ f v ∷ []

  two_entries :
      (a b : String × String) (m : GoMap) → Permᴰ (flags_of f (a ∷ b ∷ m)) (flags_of f (b ∷ a ∷ m))
  two_entries (k, v) (k', v') m = Permᴰ.append_right (flags_of f m) (
      Permᴰ.symm (
        trans (Permᴰ.middle (flag k) (flag k' ∷ f v' ∷ []) (f v ∷ []))
          (cons refl (Permᴰ.middle (f v) (flag k' ∷ f v' ∷ []) []))))

  flags_of-Permᴰ : (m m' : GoMap) → Permᴰ m m' → Permᴰ (flags_of f m) (flags_of f m')
  flags_of-Permᴰ _ _ nil = nil
  flags_of-Permᴰ ((k, v) ∷ m) ((k', v') ∷ m') (cons e d) =
      cons (ap (λ x. flag x.0) e) (cons (ap (λ x. f x.1) e) (flags_of-Permᴰ m m' d))
  flags_of-Permᴰ (a ∷ b ∷ m) (b' ∷ a' ∷ _) (swap e e') = rw (e, e') (two_entries a' b' m)
  flags_of-Permᴰ m m' (trans {l₂ = n} d d') = trans (flags_of-Permᴰ m n d) (flags_of-Permᴰ n m' d')

-- Where the secret is accepted in one order of its entries, it is accepted in every other one, and
-- the arguments are the same up to their order.
pub append_auth-Perm :
    (driver : String) (m m' : GoMap) (found : List String)
    → Permᴰ m m'
    → append_auth driver [] m ≡ ok found
    → (found' : List String) × ((append_auth driver [] m' ≡ ok found') × Permᴰ found found')
append_auth-Perm driver m m' found d e =
    let (usable, same) = (append_auth-eq-ok driver m found).0 e in
    (
      flags_of (auth_data driver) m',
      (
        (append_auth-eq-ok driver m' _).1 (All-Permᴰ (IsUsable driver) m m' d usable, refl),
        rw same (flags_of-Permᴰ (auth_data driver) m m' d),
      ),
    )
