-- ===== src/LockFreeStack/Linearize.antt =====
-- Every step of the system is a step of a list: the stack is linearizable.
use cpp_lockfree_core.Base.{
  ℕ, ◌+◌, ◌<◌, ◌^◌, ◌≡◌, inl, inr, refl, sym, ◌∙◌, subst, List, [], ◌∷◌, Option, some, arith,
  mod_small,
}
use cpp_lockfree_core.Family.{update, update_self, update_ne}
use cpp_lockfree_core.LockFreeStack.{
  free, linked, busy, Mem, Pc, idle, push_start, push_linked, Move, begin_push, push_load_ptr,
  push_load_tag, push_link, push_cas, push_retry, begin_pop, pop_null, pop_load_ptr, pop_load_tag,
  pop_load_next, pop_cas, pop_retry, Event, silent, pushed, popped, found_empty, uses, next_tag,
}
use cpp_lockfree_core.LockFreeStack.Chain.{Distinct, Chain, Chain-head, Chain-null, Chain-update}
use cpp_lockfree_core.LockFreeStack.Invariant.{Fresh, Holds, MemInv}
use cpp_lockfree_core.LockFreeStack.Owners.{
  Inside, Inside-outside, Inside-cons, Inside-tail, busy-kept,
}
use cpp_lockfree_core.LockFreeStack.Keep.{Keeps}

-- The specification: a last-in first-out list, and what each event does to it.
abbrev pub After : List ℕ → Event → List ℕ → Type 0
After xs silent ys = ys ≡ xs
After xs (pushed n) ys = ys ≡ n ∷ xs
After xs (popped n) ys = xs ≡ n ∷ ys
After xs found_empty ys = (xs ≡ []) × (ys ≡ [])

-- The outcome of a move of thread `i`.
pub record Done (i k : ℕ) (m : Mem) (xs : List ℕ) (e : Event) (m' : Mem) (p' : Pc) : Type 0 where
  pub list : List ℕ
  pub after : After xs e list
  pub memory : MemInv (k + uses e) m' list
  pub keeps : Keeps i k (k + uses e) m m'
  pub own : Holds (k + uses e) m' i p'

module _ (i k : ℕ) {m : Mem} {xs : List ℕ} (inv : MemInv k m xs) where
  -- A step that touches nothing.
  same : (e : Event) → uses e ≡ 0 → After xs e xs → (p : Pc) → Holds k m i p → Done i k m xs e m p
  same e z a p h =
      let n : k ≡ k + uses e = omega arith in
      record {
        list = xs;
        after = a;
        memory = subst (λ n. MemInv n m xs) n inv;
        keeps = record {
          head_kept = inl (sym n, refl, refl);
          next_kept = λ x h. refl;
          busy_kept = λ x j h e. e;
        };
        own = subst (λ n. Holds n m i p) n h;
      }

  -- The node leaves the client's hands.
  begin-Done :
      (n : ℕ)
      → m.owner n ≡ free
      → Done i k m xs silent (record m { owner = update m.owner n (busy i) }) (push_start n)
  begin-Done n o = record {
    list = xs;
    after = refl;
    memory = record {
      tag = omega (arith, inv.tag);
      chain = inv.chain;
      distinct = inv.distinct;
      inside = Inside-outside m.owner n (busy i) xs (λ l. cc) (λ l. cc) inv.inside;
    };
    keeps = record {
      head_kept = inl (omega arith, refl, refl);
      next_kept = λ x h. refl;
      busy_kept = λ x j h e. busy-kept m.owner n (busy i) x j (λ l. cc) e;
    };
    own = update_self m.owner n (busy i);
  }

  -- `node->next = oldHead.ptr`.
  link-Done :
      (n t a : ℕ) (p : Option ℕ)
      → (m.owner n ≡ busy i) × Fresh k m p t a
      → Done i k m xs silent (record m { next = update m.next n p }) (push_linked n p t a)
  link-Done n t a p (o, f) = record {
    list = xs;
    after = refl;
    memory = record {
      tag = omega (arith, inv.tag);
      chain =
          Chain-update m.next n p m.head_ptr xs (λ q. let l = (inv.inside n).1 q in cc) inv.chain;
      distinct = inv.distinct;
      inside = inv.inside;
    };
    keeps = record {
      head_kept = inl (omega arith, refl, refl);
      next_kept =
          λ x h. update_ne m.next n p x (λ e. h (subst (λ y. m.owner y ≡ busy i) (sym e) o));
      busy_kept = λ x j h e. e;
    };
    own = (
      o,
      record {
        begun = omega (arith, f.begun);
        read = omega (arith, f.read);
        current = λ q. let c = f.current (omega arith) in (c.0, omega (arith, c.1));
      },
      update_self m.next n p,
    );
  }

  module _ (few : k + 1 < 2 ^ 64) where
    push-Done :
        (n t a : ℕ) (p : Option ℕ)
        → (m.owner n ≡ busy i) × Fresh k m p t a × (m.next n ≡ p)
        → m.head_ptr ≡ p
        → m.head_tag ≡ t
        → Done i k m xs
            (pushed n)
            (record m { head_ptr = some n; head_tag = next_tag t; owner = update m.owner n linked })
            idle
    push-Done n t a p (o, f, link) ep et = record {
      list = n ∷ xs;
      after = refl;
      memory = record {
        tag = rw (sym et ∙ inv.tag) (mod_small (2 ^ 64) (k + 1) few);
        chain = (refl, subst (λ q. Chain m.next q xs) (ep ∙ sym link) inv.chain);
        distinct = (λ q. let l = (inv.inside n).1 q in cc, inv.distinct);
        inside = Inside-cons m.owner n xs inv.inside;
      };
      keeps = record {
        head_kept = inr (omega arith);
        next_kept = λ x h. refl;
        busy_kept = λ x j h e. busy-kept m.owner n linked x j (λ l. h (other j (sym l ∙ o))) e;
      };
      own = tt;
    }
      where
        other : (j : ℕ) → busy j ≡ busy i → j ≡ i
        other j q = cc

    pop-Done :
        (x t a : ℕ) (nx : Option ℕ)
        → Fresh k m (some x) t a × (m.head_ptr ≡ some x → m.head_tag ≡ t → nx ≡ m.next x)
        → m.head_ptr ≡ some x
        → m.head_tag ≡ t
        → Done i k m xs
            (popped x)
            (record m { head_ptr = nx; head_tag = next_tag t; owner = update m.owner x free })
            idle
    pop-Done x t a nx (f, link) ep et =
        let (ys, shape, c) = Chain-head m.next x m.head_ptr xs ep inv.chain in
        let d : Distinct (x ∷ ys) = subst Distinct shape inv.distinct in
        let ins : Inside m.owner (x ∷ ys) = subst (Inside m.owner) shape inv.inside in
        record {
          list = ys;
          after = shape;
          memory = record {
            tag = rw (sym et ∙ inv.tag) (mod_small (2 ^ 64) (k + 1) few);
            chain = subst (λ q. Chain m.next q ys) (sym (link ep et)) c;
            distinct = d.1;
            inside = Inside-tail m.owner x ys d.0 ins;
          };
          keeps = record {
            head_kept = inr (omega arith);
            next_kept = λ y h. refl;
            busy_kept =
                λ y j h e. busy-kept m.owner x free y j (λ l. let q = (ins x).1 (inl refl) in cc) e;
          };
          own = tt;
        }

-- Each move of a thread is a step of the specification and keeps the invariant.
pub Move-Done :
    {i k : ℕ} {m m' : Mem} {xs : List ℕ} {e : Event} {p p' : Pc}
    → Move i m p e m' p'
    → MemInv k m xs
    → k + uses e < 2 ^ 64
    → Holds k m i p
    → Done i k m xs e m' p'
Move-Done {i} {k} (begin_push {n} o) inv few h = begin-Done i k inv n o
Move-Done {i} {k} push_load_ptr inv few h =
    same i k inv silent refl refl _ (h, omega (arith, inv.tag), λ _. refl)
Move-Done {i} {k} (push_load_tag {n} {a} {p}) inv few (o, b, c) =
    same i k inv silent refl refl _
      (o, record { begun = b; read = omega (arith, inv.tag); current = λ q. (c q, inv.tag) })
Move-Done {i} {k} (push_link {n} {t} {a} {p}) inv few h = link-Done i k inv n t a p h
Move-Done {i} {k} (push_cas {n} {t} {a} {p} ep et) inv few h = push-Done i k inv few n t a p h ep et
Move-Done {i} {k} (push_retry ne) inv few h = same i k inv silent refl refl _ h.0
Move-Done {i} {k} begin_pop inv few h = same i k inv silent refl refl _ tt
Move-Done {i} {k} {m} {m'} {xs} (pop_null e) inv few h =
    let nil = Chain-null m.next xs (subst (λ q. Chain m.next q xs) e inv.chain) in
    same i k inv found_empty refl (nil, nil) _ tt
Move-Done {i} {k} (pop_load_ptr e) inv few h =
    same i k inv silent refl refl _ (omega (arith, inv.tag), λ _. e)
Move-Done {i} {k} (pop_load_tag {x} {a}) inv few (b, c) =
    same i k inv silent refl refl _
      (record { begun = b; read = omega (arith, inv.tag); current = λ q. (c q, inv.tag) })
Move-Done {i} {k} pop_load_next inv few f = same i k inv silent refl refl _ (f, λ _ _. refl)
Move-Done {i} {k} (pop_cas {x} {t} {a} {nx} ep et) inv few h = pop-Done i k inv few x t a nx h ep et
Move-Done {i} {k} (pop_retry ne) inv few h = same i k inv silent refl refl _ tt
