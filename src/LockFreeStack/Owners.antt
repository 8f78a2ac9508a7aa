-- ===== src/LockFreeStack/Owners.antt =====
-- The owners of nodes, as nodes enter and leave the stack.
use cpp_lockfree_core.Base.{ℕ, ◌≡◌, ◌≢◌, ◌↔◌, inl, inr, sym, ◌∙◌, subst, List, ◌∷◌, ℕ_discrete}
use cpp_lockfree_core.Family.{update, update_self, update_ne}
use cpp_lockfree_core.LockFreeStack.{Owner, free, linked, busy}
use cpp_lockfree_core.LockFreeStack.Chain.{In}

-- The linked nodes are those of the list.
abbrev pub Inside : (ℕ → Owner) → List ℕ → Type 0
Inside owner xs = (x : ℕ) → (owner x ≡ linked) ↔ In x xs

module _ (owner : ℕ → Owner) (n : ℕ) where
  pub Inside-outside :
      (o : Owner) (xs : List ℕ)
      → owner n ≢ linked
      → o ≢ linked
      → Inside owner xs
      → Inside (update owner n o) xs
  Inside-outside o xs out new h x = elim (ℕ_discrete n x) [
    | yes e ↦
        let gone : owner x ≢ linked = subst (λ y. owner y ≢ linked) e out in
        let now : update owner n o x ≡ o =
          subst (λ y. update owner n o y ≡ o) e (update_self owner n o) in
        (λ l. absurd (new (sym now ∙ l)), λ q. absurd (gone ((h x).1 q)))
    | no ne ↦
        let now : update owner n o x ≡ owner x = update_ne owner n o x (λ e. ne (sym e)) in
        (λ l. (h x).0 (sym now ∙ l), λ q. now ∙ (h x).1 q)
  ]

  pub Inside-cons : (xs : List ℕ) → Inside owner xs → Inside (update owner n linked) (n ∷ xs)
  Inside-cons xs h x = elim (ℕ_discrete n x) [
    | yes e ↦ (
      λ _. inl (sym e),
      λ _. subst (λ y. update owner n linked y ≡ linked) e (update_self owner n linked),
    )
    | no ne ↦
        let now : update owner n linked x ≡ owner x =
          update_ne owner n linked x (λ e. ne (sym e)) in
        (
          λ l. inr ((h x).0 (sym now ∙ l)),
          λ q. elim q [ inl e ↦ absurd (ne (sym e)) | inr r ↦ now ∙ (h x).1 r ],
        )
  ]

  pub Inside-tail :
      (xs : List ℕ) → ¬ In n xs → Inside owner (n ∷ xs) → Inside (update owner n free) xs
  Inside-tail xs out h x = elim (ℕ_discrete n x) [
    | yes e ↦
        let now : update owner n free x ≡ free =
          subst (λ y. update owner n free y ≡ free) e (update_self owner n free) in
        (λ l. absurd (cc (now, l)), λ q. absurd (out (subst (λ y. In y xs) (sym e) q)))
    | no ne ↦
        let now : update owner n free x ≡ owner x = update_ne owner n free x (λ e. ne (sym e)) in
        (
          λ l. elim ((h x).0 (sym now ∙ l)) [ inl e ↦ absurd (ne (sym e)) | inr r ↦ r ],
          λ q. now ∙ (h x).1 (inr q),
        )
  ]

  -- A node that thread `j` is pushing is not the one that changes hands.
  pub busy-kept :
      (o : Owner) (x j : ℕ) → owner n ≢ busy j → owner x ≡ busy j → update owner n o x ≡ busy j
  busy-kept o x j h e = update_ne owner n o x (λ q. h (subst (λ y. owner y ≡ busy j) q e)) ∙ e
