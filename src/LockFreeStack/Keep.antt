-- ===== src/LockFreeStack/Keep.antt =====
-- What a step of one thread leaves of what holds of another.
use cpp_lockfree_core.Base.{
  ℕ, ◌≤◌, ◌<◌, ◌≡◌, ◌≢◌, ◌⊎◌, inl, inr, refl, sym, ◌∙◌, subst, List, Option, some, arith,
}
use cpp_lockfree_core.LockFreeStack.{
  linked, busy, Mem, Pc, idle, push_start, push_ptr, push_snap, push_linked, pop_start, pop_ptr,
  pop_snap, pop_next,
}
use cpp_lockfree_core.LockFreeStack.Chain.{In, Chain-head}
use cpp_lockfree_core.LockFreeStack.Invariant.{Fresh, Holds, MemInv}

-- The step of thread `i` from `m` to `m'` keeps its hands off the nodes of others, and changes the
-- head only with a new tag.
pub record Keeps (i k k' : ℕ) (m m' : Mem) : Type 0 where
  pub head_kept : ((k' ≡ k) × (m'.head_ptr ≡ m.head_ptr) × (m'.head_tag ≡ m.head_tag)) ⊎ (k < k')
  pub next_kept : (x : ℕ) → m.owner x ≢ busy i → m'.next x ≡ m.next x
  pub busy_kept : (x j : ℕ) → j ≢ i → m.owner x ≡ busy j → m'.owner x ≡ busy j

module _ {i k k' : ℕ} {m m' : Mem} {xs : List ℕ} (kp : Keeps i k k' m m') (inv : MemInv k m xs)
    (tag' : m'.head_tag ≡ k') where
  Fresh-keep : {p : Option ℕ} {t a : ℕ} → Fresh k m p t a → Fresh k' m' p t a
  Fresh-keep f = elim kp.head_kept [
    | inl (e, hp, ht) ↦ record {
      begun = omega (arith, f.begun);
      read = omega (arith, f.read);
      current = λ q. let c = f.current (sym e ∙ q) in (hp ∙ c.0, c.1 ∙ sym e);
    }
    | inr lt ↦ record {
      begun = omega (arith, f.begun);
      read = omega (arith, f.read);
      current = λ q. absurd (omega (arith, f.begun));
    }
  ]

  ptr-keep :
      {p : Option ℕ} {a : ℕ}
      → (a ≤ k) × (k ≡ a → m.head_ptr ≡ p)
      → (a ≤ k') × (k' ≡ a → m'.head_ptr ≡ p)
  ptr-keep (b, c) = elim kp.head_kept [
    | inl (e, hp, ht) ↦ (omega arith, λ q. hp ∙ c (sym e ∙ q))
    | inr lt ↦ (omega arith, λ q. absurd (omega arith))
  ]

  head-linked : (x : ℕ) → m.head_ptr ≡ some x → m.owner x ≡ linked
  head-linked x e =
      let (ys, f, _) = Chain-head m.next x m.head_ptr xs e inv.chain in
      (inv.inside x).1 (subst (In x) (sym f) (inl refl))

  next-keep :
      {x t : ℕ} {nx : Option ℕ}
      → t ≤ k
      → (m.head_ptr ≡ some x → m.head_tag ≡ t → nx ≡ m.next x)
      → m'.head_ptr ≡ some x
      → m'.head_tag ≡ t
      → nx ≡ m'.next x
  next-keep {x} h c p q = elim kp.head_kept [
    | inl (e, hp, ht) ↦
        c (sym hp ∙ p) (sym ht ∙ q)
        ∙ sym (kp.next_kept x (λ b. let l = head-linked x (sym hp ∙ p) in cc))
    | inr lt ↦ absurd (omega arith)
  ]

  -- So all that holds of another thread still does.
  pub Holds-keep : (j : ℕ) → j ≢ i → (p : Pc) → Holds k m j p → Holds k' m' j p
  Holds-keep j ne idle h = tt
  Holds-keep j ne (push_start n) h = kp.busy_kept n j ne h
  Holds-keep j ne (push_ptr n p a) (o, b, c) =
      let r = ptr-keep (b, c) in (kp.busy_kept n j ne o, r.0, r.1)
  Holds-keep j ne (push_snap n p t a) (o, f) = (kp.busy_kept n j ne o, Fresh-keep f)
  Holds-keep j ne (push_linked n p t a) (o, f, e) =
      (kp.busy_kept n j ne o, Fresh-keep f, kp.next_kept n (λ b. ne (other (sym o ∙ b))) ∙ e)
    where
      other : busy j ≡ busy i → j ≡ i
      other q = cc
  Holds-keep j ne pop_start h = tt
  Holds-keep j ne (pop_ptr x a) h = ptr-keep h
  Holds-keep j ne (pop_snap x t a) f = Fresh-keep f
  Holds-keep j ne (pop_next x t nx a) (f, c) = (Fresh-keep f, next-keep f.read c)
