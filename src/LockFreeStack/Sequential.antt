-- ===== src/LockFreeStack/Sequential.antt =====
-- `push`, `pop` and `isEmpty` of a thread that runs alone.
use cpp_lockfree_core.Base.{
  ℕ, ◌+◌, ◌<◌, ◌^◌, ◌≡◌, ◌≢◌, refl, sym, subst, Bool, true, false, List, [], ◌∷◌, Option, none,
  some, mod_small,
}
use cpp_lockfree_core.Family.{update, update-update, update_self}
use cpp_lockfree_core.LockFreeStack.{
  free, linked, busy, Mem, Pc, idle, Move, begin_push, push_load_ptr, push_load_tag, push_link,
  push_cas, begin_pop, pop_null, pop_load_ptr, pop_load_tag, pop_load_next, pop_cas, next_tag,
  Event, silent, pushed, popped, found_empty,
}
use cpp_lockfree_core.LockFreeStack.Chain.{
  In, Distinct, Chain, Chain-head, Chain-null, Chain-update,
}
use cpp_lockfree_core.LockFreeStack.Owners.{Inside, Inside-cons, Inside-tail}
use cpp_lockfree_core.LockFreeStack.Invariant.{MemInv}

unfoldable pub push : Mem → ℕ → Mem
push m n = record m {
  head_ptr = some n;
  head_tag = next_tag m.head_tag;
  next = update m.next n m.head_ptr;
  owner = update m.owner n linked;
}

pop_from : Mem → Option ℕ → Option ℕ × Mem
pop_from m none = (none, m)
pop_from m (some x) = (
  some x,
  record m { head_ptr = m.next x; head_tag = next_tag m.head_tag; owner = update m.owner x free },
)

unfoldable pub pop : Mem → Option ℕ × Mem
unfolding pop_from
pop m = pop_from m m.head_ptr

unfoldable pub is_empty : Mem → Bool
is_empty m = elim m.head_ptr [ none ↦ true | some x ↦ false ]

-- Moves of one thread, with no other in between, and the event of each.
pub data Alone (i : ℕ) : Mem → Pc → List Event → Mem → Pc → Type 0 where
  here : {m : Mem} {p : Pc} → Alone i m p [] m p
  then :
      {m₀ m₁ m₂ : Mem} {p₀ p₁ p₂ : Pc} {e : Event} {es : List Event}
      → Move i m₀ p₀ e m₁ p₁
      → Alone i m₁ p₁ es m₂ p₂
      → Alone i m₀ p₀ (e ∷ es) m₂ p₂

-- The five steps of an operation that ends with its first `cas`: the call, the two loads of the head,
-- the access to the node's link, and the `cas`.
abbrev pub round : Event → List Event
round e = silent ∷ silent ∷ silent ∷ silent ∷ e ∷ []

-- The moves of a `pop` with the given result.
abbrev pub pop_round : Option ℕ → List Event
pop_round none = silent ∷ found_empty ∷ []
pop_round (some x) = round (popped x)

push_alone :
    (i : ℕ) (m : Mem) (n : ℕ) → m.owner n ≡ free → Alone i m idle (round (pushed n)) (push m n) idle
unfolding push
push_alone i m n o =
    subst
      (λ f.
        Alone i m idle (round (pushed n))
          (record m {
            head_ptr = some n;
            head_tag = next_tag m.head_tag;
            next = update m.next n m.head_ptr;
            owner = f;
          })
          idle)
      (update-update m.owner n (busy i) linked)
      (then (begin_push o)
        (then push_load_ptr (then push_load_tag (then push_link (then (push_cas refl refl) here)))))

pop_alone : (i : ℕ) (m : Mem) → Alone i m idle (pop_round (pop m).0) (pop m).1 idle
unfolding pop
pop_alone i m = go m.head_ptr refl
  where
    go :
        (p : Option ℕ)
        → m.head_ptr ≡ p
        → Alone i m idle (pop_round (pop_from m p).0) (pop_from m p).1 idle
    go none e = then begin_pop (then (pop_null e) here)
    go (some x) e = then begin_pop (
        then (pop_load_ptr e) (then pop_load_tag (then pop_load_next (then (pop_cas e refl) here))))

-- A thread that is alone gets through `push` of a node that is the client's, and through `pop`, in
-- five steps, of which the last is the push or the pop as the client sees it; or in two steps, where
-- it finds the stack empty. The node pushed or popped, the answer "empty" and the state afterwards are
-- those of the sequential functions.
pub Alone-runs :
    (i : ℕ) (m : Mem)
    → ((n : ℕ) → m.owner n ≡ free → Alone i m idle (round (pushed n)) (push m n) idle)
      × Alone i m idle (pop_round (pop m).0) (pop m).1 idle
Alone-runs i m = (push_alone i m, pop_alone i m)

module _ {k : ℕ} {m : Mem} {xs : List ℕ} (inv : MemInv k m xs) (few : k + 1 < 2 ^ 64) where
  pub push-MemInv : (n : ℕ) → m.owner n ≢ linked → MemInv (k + 1) (push m n) (n ∷ xs)
  unfolding push
  push-MemInv n out =
      let absent : ¬ In n xs = λ q. out ((inv.inside n).1 q) in
      record {
        tag = rw inv.tag (mod_small (2 ^ 64) (k + 1) few);
        chain = (
          refl,
          subst (λ q. Chain (update m.next n m.head_ptr) q xs)
              (sym (update_self m.next n m.head_ptr))
              (Chain-update m.next n m.head_ptr m.head_ptr xs absent inv.chain),
        );
        distinct = (absent, inv.distinct);
        inside = Inside-cons m.owner n xs inv.inside;
      }

  -- A pop gives the first node of the list.
  pub data Pops : Option ℕ × Mem → Type 0 where
    empty : xs ≡ [] → Pops (none, m)
    first :
        (x : ℕ) (ys : List ℕ) (m' : Mem)
        → xs ≡ x ∷ ys
        → MemInv (k + 1) m' ys
        → m'.owner ≡ update m.owner x free
        → Pops (some x, m')

  pub pop-Pops : Pops (pop m)
  unfolding pop
  pop-Pops = go m.head_ptr refl
    where
      go : (p : Option ℕ) → m.head_ptr ≡ p → Pops (pop_from m p)
      go none e = empty (Chain-null m.next xs (subst (λ q. Chain m.next q xs) e inv.chain))
      go (some x) e =
          let (ys, shape, c) = Chain-head m.next x m.head_ptr xs e inv.chain in
          let d : Distinct (x ∷ ys) = subst Distinct shape inv.distinct in
          first x ys _ shape
            (record {
              tag = rw inv.tag (mod_small (2 ^ 64) (k + 1) few);
              chain = c;
              distinct = d.1;
              inside = Inside-tail m.owner x ys d.0 (subst (Inside m.owner) shape inv.inside);
            })
            refl
