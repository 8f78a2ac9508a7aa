-- ===== src/HashTable/Chains.antt =====
-- One chain of nodes.
use cpp_lockfree_core.Base.{
  ◌+◌, ◌≡◌, refl, sym, ◌∙◌, true, false, List, [], ◌∷◌, Option, none, some, length, arith,
  if◌then◌else◌, Bool-cases, inl, inr,
}
use cpp_lockfree_core.HashTable.{Key, IsLawful, find_in, assign_in, cut_out}

module _ {ℓ} {K : Type ℓ} {key : Key K} (law : IsLawful key) where
  pub same-congr : (a b c : K) → key.same a b ≡ true → key.same c a ≡ key.same c b
  same-congr a b c e = ground (arith, law.same_trans c a b, law.same_trans c b a, law.same_sym a b)

  pub same-congr_left : (a b c : K) → key.same a b ≡ true → key.same a c ≡ key.same b c
  same-congr_left a b c e = rw (law.same_sym a c, law.same_sym b c) (same-congr a b c e)

  same_apart : (a b c : K) → key.same a b ≡ false → key.same b c ≡ true → key.same a c ≡ false
  same_apart a b c e f = sym (same-congr b c a f) ∙ e

-- No two nodes of a chain have the same key.
abbrev pub Unique {ℓ} : {K V : Type ℓ} → Key K → List (K × V) → Type ℓ
Unique key [] = Unit
Unique key ((c, _) ∷ ns) = (find_in key c ns ≡ none) × Unique key ns

module _ {ℓ} {K V : Type ℓ} {key : Key K} (law : IsLawful key) where
  pub find_in-same :
      (k k' : K) (ns : List (K × V)) → key.same k k' ≡ true → find_in key k ns ≡ find_in key k' ns
  unfolding find_in
  find_in-same k k' [] e = refl
  find_in-same k k' ((c, v) ∷ ns) e = rw (same-congr law k k' c e, find_in-same k k' ns e) refl

  -- What the loop of `insert` gives: nothing if no node has the key, and else the chain with the new
  -- value there.
  pub data Assigned (k : K) (v : V) (ns : List (K × V)) : Option (List (K × V)) → Type ℓ where
    absent : find_in key k ns ≡ none → Assigned k v ns none
    present :
        (ms : List (K × V)) (w : V)
        → find_in key k ns ≡ some w
        → ((k' : K) → find_in key k' ms ≡ (if key.same k k' then some v else find_in key k' ns))
        → length ms ≡ length ns
        → (Unique key ns → Unique key ms)
        → Assigned k v ns (some ms)

  assign_past :
      (k : K) (v : V) (c : K) (w : V) (ns : List (K × V)) (o : Option (List (K × V)))
      → key.same c k ≡ false
      → Assigned k v ns o
      → Assigned k v ((c, w) ∷ ns) (elim o [ none ↦ none | some ms ↦ some ((c, w) ∷ ms) ])
  unfolding find_in
  assign_past k v c w ns o e (absent f) = absent (rw e f)
  assign_past k v c w ns o e (present ms u f a l un) =
      present ((c, w) ∷ ms) u (rw e f)
        (λ k'. elim (Bool-cases (key.same k k')) [
          | inl s ↦ rw (same_apart law c k k' e s, a k', s) refl
          | inr s ↦ rw (a k', s) refl
        ])
        (omega (arith, l)) (λ q. (rw (a c, law.same_sym k c, e) q.0, un q.1))

  pub assign_in-Assigned :
      (k : K) (v : V) (ns : List (K × V)) → Assigned k v ns (assign_in key k v ns)
  unfolding assign_in find_in
  assign_in-Assigned k v [] = absent refl
  assign_in-Assigned k v ((c, w) ∷ ns) = elim (Bool-cases (key.same c k)) [
    | inl e ↦ rw e (
        present ((c, v) ∷ ns) w (rw e refl)
          (λ k'. elim (Bool-cases (key.same k k')) [
            | inl s ↦ rw (same-congr_left law c k k' e, s) refl
            | inr s ↦ rw (same-congr_left law c k k' e, s) refl
          ])
          refl (λ u. u))
    | inr e ↦ rw e (assign_past k v c w ns _ e (assign_in-Assigned k v ns))
  ]

  -- What the loop of `erase` gives.
  pub data Cut (k : K) (ns : List (K × V)) : Option (List (K × V)) → Type ℓ where
    missing : find_in key k ns ≡ none → Cut k ns none
    out :
        (ms : List (K × V)) (w : V)
        → find_in key k ns ≡ some w
        → ((k' : K) → find_in key k' ms ≡ (if key.same k k' then none else find_in key k' ns))
        → length ms + 1 ≡ length ns
        → Unique key ms
        → Cut k ns (some ms)

  cut_past :
      (k c : K) (w : V) (ns : List (K × V)) (o : Option (List (K × V)))
      → key.same c k ≡ false
      → find_in key c ns ≡ none
      → Cut k ns o
      → Cut k ((c, w) ∷ ns) (elim o [ none ↦ none | some ms ↦ some ((c, w) ∷ ms) ])
  unfolding find_in
  cut_past k c w ns o e q (missing f) = missing (rw e f)
  cut_past k c w ns o e q (out ms u f a l un) =
      out ((c, w) ∷ ms) u (rw e f)
        (λ k'. elim (Bool-cases (key.same k k')) [
          | inl s ↦ rw (same_apart law c k k' e s, a k', s) refl
          | inr s ↦ rw (a k', s) refl
        ])
        (omega (arith, l)) (rw (a c, law.same_sym k c, e) q, un)

  pub cut_out-Cut : (k : K) (ns : List (K × V)) → Unique key ns → Cut k ns (cut_out key k ns)
  unfolding cut_out find_in
  cut_out-Cut k [] u = missing refl
  cut_out-Cut k ((c, w) ∷ ns) u = elim (Bool-cases (key.same c k)) [
    | inl e ↦ rw e (
        out ns w (rw e refl)
          (λ k'. elim (Bool-cases (key.same k k')) [
            | inl s ↦ rw s (sym (find_in-same c k' ns (same-congr_left law c k k' e ∙ s)) ∙ u.0)
            | inr s ↦ rw (same-congr_left law c k k' e, s) refl
          ])
          (omega arith) u.1)
    | inr e ↦ rw e (cut_past k c w ns _ e u.0 (cut_out-Cut k ns u.1))
  ]
