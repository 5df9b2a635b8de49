-- ===== src/Memory/Deep.antt =====
-- What a deep copy promises: the interface between a type's copy and the copies of what holds it.
use docker_machine_operator.Base.{◌≡◌, ◌≤◌, Option, none, some, List, [], ◌∷◌, arith}
use docker_machine_operator.Memory.{Address, Heap, M, Kind, pure, at}
use docker_machine_operator.Memory.Agree.{
  Agree, Agree-trans, at-Agree, Fresh, Fresh-from, Fresh-weaken, Fresh-pure, Fresh-bind, Fresh-load,
  Fresh-new,
}
use docker_machine_operator.Memory.DeepCopy.{copy_pointer, copy_each}

-- `R h a v`: in the memory `h`, what `a` leads to says `v`. The copy of `a` says `v` as well, in
-- every memory that keeps the cells it made.
pub record IsDeep {C A V : Type 0} (R : Heap C → A → V → Type 0) (copy : A → M C A) : Type 0 where
  pub stable : (h k : Heap C) (a : A) (v : V) → Agree 0 h k → R h a v → R k a v
  pub copies : (h : Heap C) (a : A) (v : V) → R h a v → Fresh h.next h (copy a) (λ k b. R k b v)

-- What a pointer leads to says `v`, or both are nil.
abbrev pub Points :
    {C A V : Type 0}
    → Kind C A
    → (Heap C → A → V → Type 0)
    → Heap C
    → Option Address
    → Option V
    → Type 0
Points kind R h none none = Unit
Points kind R h none (some v) = ⊥
Points kind R h (some p) none = ⊥
Points {A} kind R h (some p) (some v) = (a : A) × (at kind p h ≡ some a) × R h a v

-- A pointer to a cell that was not in use below `n`.
abbrev pub IsNew : Address → Option Address → Type 0
IsNew n none = Unit
IsNew n (some p) = n ≤ p

abbrev pub Each : {C A V : Type 0} → (Heap C → A → V → Type 0) → Heap C → List A → List V → Type 0
Each R h [] [] = Unit
Each R h [] (v ∷ vs) = ⊥
Each R h (a ∷ as') [] = ⊥
Each R h (a ∷ as') (v ∷ vs) = R h a v × Each R h as' vs

-- A value with no pointers says itself.
abbrev pub Plain : {C A : Type 0} → Heap C → A → A → Type 0
Plain h a v = a ≡ v

pub pure-IsDeep : {C A : Type 0} → IsDeep {C = C} {A = A} Plain pure
pure-IsDeep = record { stable = λ h k a v g r. r; copies = λ h a v r. Fresh-pure a (λ k g. r) }

module _ {C A V : Type 0} {R : Heap C → A → V → Type 0} {copy : A → M C A} (d : IsDeep R copy) where
  -- A copy that is made later, after cells that are kept.
  pub IsDeep-later :
      {h h' : Heap C} (a : A) (v : V)
      → Agree 0 h h'
      → R h a v
      → Fresh h.next h' (copy a) (λ k b. R k b v)
  IsDeep-later {h} {h'} a v g r = Fresh-from g.le (d.copies h' a v (d.stable h h' a v g r))

  pub Points-stable :
      (kind : Kind C A) (h k : Heap C) (o : Option Address) (v : Option V)
      → Agree 0 h k
      → Points kind R h o v
      → Points kind R k o v
  Points-stable kind h k none none g r = tt
  Points-stable kind h k none (some v) g r = elim r [ ]
  Points-stable kind h k (some p) none g r = elim r [ ]
  Points-stable kind h k (some p) (some v) g (a, e, r) =
      (a, at-Agree kind p a g (omega arith) e, d.stable h k a v g r)

  pub copy_pointer-Fresh :
      (kind : Kind C A) (h : Heap C) (o : Option Address) (v : Option V)
      → Points kind R h o v
      → Fresh h.next h (copy_pointer kind copy o) (λ k q. IsNew h.next q × Points kind R k q v)
  unfolding copy_pointer
  copy_pointer-Fresh kind h none none r = Fresh-pure none (λ k g. (tt, tt))
  copy_pointer-Fresh kind h none (some v) r = elim r [ ]
  copy_pointer-Fresh kind h (some p) none r = elim r [ ]
  copy_pointer-Fresh kind h (some p) (some v) (a, e, r) = Fresh-load kind p a _ e (
      Fresh-bind (copy a) _ (d.copies h a v r) λ b h1 g says.
        Fresh-bind _ _ (Fresh-new kind b g.le) λ q h2 g' stands.
          Fresh-pure (some q)
            λ k m. ((stands k m).0, (b, (stands k m).1, says k (Agree-trans (omega arith) g' m))))

  pub copy_pointer-IsDeep : (kind : Kind C A) → IsDeep (Points kind R) (copy_pointer kind copy)
  copy_pointer-IsDeep kind = record {
    stable = Points-stable kind;
    copies = λ h o v r. Fresh-weaken (copy_pointer-Fresh kind h o v r) (λ k q s. s.1);
  }

  Each-stable :
      (h k : Heap C) (xs : List A) (vs : List V) → Agree 0 h k → Each R h xs vs → Each R k xs vs
  Each-stable h k [] [] g r = tt
  Each-stable h k [] (v ∷ vs) g r = elim r [ ]
  Each-stable h k (x ∷ xs) [] g r = elim r [ ]
  Each-stable h k (x ∷ xs) (v ∷ vs) g (r, rs) = (d.stable h k x v g r, Each-stable h k xs vs g rs)

  copy_each-Fresh :
      (h : Heap C) (xs : List A) (vs : List V)
      → Each R h xs vs
      → Fresh h.next h (copy_each copy xs) (λ k ys. Each R k ys vs)
  unfolding copy_each
  copy_each-Fresh h [] [] r = Fresh-pure [] (λ k g. tt)
  copy_each-Fresh h [] (v ∷ vs) r = elim r [ ]
  copy_each-Fresh h (x ∷ xs) [] r = elim r [ ]
  copy_each-Fresh h (x ∷ xs) (v ∷ vs) (r, rs) =
      Fresh-bind (copy x) _ (d.copies h x v r) λ y h1 g says.
        Fresh-bind _ _ (Fresh-from g.le (copy_each-Fresh h1 xs vs (Each-stable h h1 xs vs g rs)))
          λ ys h2 g' all.
            Fresh-pure (y ∷ ys) λ k m. (says k (Agree-trans (omega arith) g' m), all k m)

  pub copy_each-IsDeep : IsDeep (Each R) (copy_each copy)
  copy_each-IsDeep = record { stable = Each-stable; copies = copy_each-Fresh }
