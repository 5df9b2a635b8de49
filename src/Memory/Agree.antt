-- ===== src/Memory/Agree.antt =====
-- What two memories have in common, and what an action that only makes new cells leaves.
use docker_machine_operator.Base.{
  ℕ, ◌≡◌, ◌≤◌, ◌<◌, refl, sym, ◌∙◌, ltb, eqb, Option, none, some, Bool, true, false, arith,
  Bool-cases, inl, ◌⊎◌, inr, ◌≢◌, if◌then◌else◌,
}
use docker_machine_operator.Memory.{
  Address, Heap, M, Kind, pure, and_then, ◌>>=◌, at, keep, load, new, store, extend,
}

-- The cells of `h` from address `n` on stand in `k` too.
pub record Agree {C : Type 0} (n : Address) (h k : Heap C) : Type 0 where
  pub le : h.next ≤ k.next
  pub cells : (p : Address) → n ≤ p → p < h.next → k.cell p ≡ h.cell p

if_true : {A : Type 0} {b : Bool} (o : Option A) → b ≡ true → (if b then o else none) ≡ o
if_true o e = rw e

if_none :
    {A : Type 0} {b : Bool} (o : Option A) {a : A} → b ≡ false → (if b then o else none) ≢ some a
if_none o e = rw e (cc)

eqb_refl : (p : ℕ) → eqb p p ≡ true
eqb_refl p = ground arith

module _ {C : Type 0} where
  pub Agree-refl : {n : Address} (h : Heap C) → Agree n h h
  Agree-refl h = record { le = omega arith; cells = λ p _ _. refl }

  -- What agrees with a memory agrees with an earlier one, in fewer cells too.
  pub Agree-trans :
      {n n' : Address} {h k l : Heap C} → n ≤ n' → Agree 0 h k → Agree n k l → Agree n' h l
  Agree-trans {h} {k} {l} q a b = record {
    le = omega (arith, a.le, b.le);
    cells = λ p m b'. b.cells p (omega arith) (omega (arith, a.le)) ∙ a.cells p (omega arith) b';
  }

  pub Agree-then : {n : Address} {h k l : Heap C} → Agree 0 h k → Agree n k l → Agree n h l
  Agree-then a b = Agree-trans (omega arith) a b

  pub at-Agree :
      {A : Type 0} (kind : Kind C A) (p : Address) (a : A) {n : Address} {h k : Heap C}
      → Agree n h k
      → n ≤ p
      → at kind p h ≡ some a
      → at kind p k ≡ some a
  unfolding at
  at-Agree kind p a {h} {k} g q e = elim (Bool-cases (ltb p h.next)) [
    | inl old ↦
        let l : p < h.next = ground arith in
        let l' : ltb p k.next ≡ true = ground (arith, g.le) in
        rw (l', g.cells p q l) (sym (if_true _ old) ∙ e)
    | inr out ↦ absurd (if_none _ out e)
  ]

  -- What a new cell holds, as long as it stands.
  at-extend :
      {A : Type 0} {n : Address} (h : Heap C) (kind : Kind C A) (a : A) (k : Heap C)
      → n ≤ h.next
      → Agree n (extend kind a h) k
      → at kind h.next k ≡ some a
  unfolding extend at
  at-extend h kind a k q g =
      let l : ltb h.next k.next ≡ true = ground (arith, g.le) in
      rw (l, g.cells h.next q (omega arith), eqb_refl h.next) (kind.unwrap-wrap a)

module _ {C A : Type 0} {n : Address} {h k : Heap C} (kind : Kind C A) (a : A) where
  pub extend-Agree : Agree n h k → Agree n h (extend kind a k)
  unfolding extend
  extend-Agree g = record {
    le = omega (arith, g.le);
    cells = λ p q l. ground (arith, g.le, g.cells p q l);
  }

  -- A write below the cells that count, or to a cell that is newer than they are.
  pub store-Agree :
      (p : Address) → (p < n) ⊎ (h.next ≤ p) → Agree n h k → Agree n h (store kind p a k)
  unfolding store
  store-Agree p out g = record { le = g.le; cells = λ q m l. ground (arith, g.cells q m l) }

-- The action succeeds, changes no cell that is there, and gives what satisfies `P` in every memory
-- that keeps the cells from address `n` on.
pub record Fresh {C A : Type 0} (n : Address) (h : Heap C) (act : M C A) (P : Heap C → A → Type 0)
    : Type 0 where
  pub result : A
  pub heap : Heap C
  pub runs : act h ≡ some (result, heap)
  pub kept : Agree 0 h heap
  pub holds : (k : Heap C) → Agree n heap k → P k result

module _ {C A : Type 0} {P : Heap C → A → Type 0} {n : Address} {h : Heap C} where
  pub Fresh-pure : (a : A) → ((k : Heap C) → Agree n h k → P k a) → Fresh n h (pure a) P
  Fresh-pure a held = record {
    result = a;
    heap = h;
    runs = refl;
    kept = Agree-refl h;
    holds = held;
  }

  pub Fresh-bind :
      {B : Type 0} {Q : Heap C → B → Type 0} (m : M C A) (f : A → M C B)
      → Fresh n h m P
      → ((a : A) (h' : Heap C)
          → Agree 0 h h'
          → ((k : Heap C) → Agree n h' k → P k a)
          → Fresh n h' (f a) Q)
      → Fresh n h (m >>= f) Q
  unfolding ◌>>=◌ and_then
  Fresh-bind m f r step =
      let s = step r.result r.heap r.kept r.holds in
      record {
        result = s.result;
        heap = s.heap;
        runs = rw r.runs (s.runs);
        kept = Agree-trans (omega arith) r.kept s.kept;
        holds = s.holds;
      }

module _ {C A : Type 0} {n : Address} {h : Heap C} where
  pub Fresh-load :
      {B : Type 0} {Q : Heap C → B → Type 0} (kind : Kind C A) (p : Address) (a : A) (f : A → M C B)
      → at kind p h ≡ some a
      → Fresh n h (f a) Q
      → Fresh n h (load kind p >>= f) Q
  unfolding ◌>>=◌ and_then load keep
  Fresh-load kind p a f e r = record {
    result = r.result;
    heap = r.heap;
    runs = rw e (r.runs);
    kept = r.kept;
    holds = r.holds;
  }

  -- A new cell has an address that was not in use, and holds what was put there.
  pub Fresh-new :
      (kind : Kind C A) (a : A)
      → n ≤ h.next
      → Fresh n h (new kind a) (λ k p. (n ≤ p) × (at kind p k ≡ some a))
  unfolding new extend
  Fresh-new kind a q = record {
    result = h.next;
    heap = extend kind a h;
    runs = refl;
    kept = extend-Agree kind a (Agree-refl h);
    holds = λ k g. (q, at-extend h kind a k q g);
  }

module _ {C A : Type 0} {P : Heap C → A → Type 0} {h : Heap C} {act : M C A} where
  pub Fresh-from : {n n' : Address} → n ≤ n' → Fresh n' h act P → Fresh n h act P
  Fresh-from q r = record {
    result = r.result;
    heap = r.heap;
    runs = r.runs;
    kept = r.kept;
    holds = λ k g. r.holds k (Agree-trans q (Agree-refl r.heap) g);
  }

  pub Fresh-weaken :
      {Q : Heap C → A → Type 0} {n : Address}
      → Fresh n h act P
      → ((k : Heap C) (a : A) → P k a → Q k a)
      → Fresh n h act Q
  Fresh-weaken r f = record {
    result = r.result;
    heap = r.heap;
    runs = r.runs;
    kept = r.kept;
    holds = λ k g. f k r.result (r.holds k g);
  }
