-- ===== src/Map/Attach.antt =====
-- A new node, and its place in the tree.
use cpp_lockfree_core.Base.{
  ℕ, suc, ◌+◌, ◌≡◌, ◌≢◌, ◌≤◌, ◌<◌, refl, sym, ◌∙◌, subst, false, List, [], ◌∷◌, ◌++◌, arith, ◌==◌,
  ℕ_discrete, length, length-append,
}
use cpp_lockfree_core.Family.{update_self, update_ne}
use cpp_lockfree_core.Map.{
  Keys, Map, red, Side, left, right, new_node, attach, adopt, hang, set_child,
}
use cpp_lockfree_core.Map.Shape.{
  Tree, leaf, node, Frame, above, top, inorder, one, occ, occ_above, Zip, one_self,
}
use cpp_lockfree_core.Map.Keep.{Same, Holds-Same, Above-Same}
use cpp_lockfree_core.Map.Rotate.{set_child_self, set_child_ne, set_child-other}
use cpp_lockfree_core.Map.Turn.{one_eq}
use cpp_lockfree_core.Map.Descend.{Hangs, before, after}

abbrev pub AllBelow : ℕ → List ℕ → Type 0
AllBelow n [] = Unit {0}
AllBelow n (i ∷ l) = (i < n) × AllBelow n l

pub AllBelow-split :
    (n : ℕ) (xs ys : List ℕ) → AllBelow n (xs ++ ys) → AllBelow n xs × AllBelow n ys
AllBelow-split n [] ys a = (tt, a)
AllBelow-split n (x ∷ xs) ys (h, a) = let (p, q) = AllBelow-split n xs ys a in ((h, p), q)

pub AllBelow-append :
    (n : ℕ) (xs ys : List ℕ) → AllBelow n xs → AllBelow n ys → AllBelow n (xs ++ ys)
AllBelow-append n [] ys a b = b
AllBelow-append n (x ∷ xs) ys (h, a) b = (h, AllBelow-append n xs ys a b)

pub AllBelow-more : (n : ℕ) (l : List ℕ) → AllBelow n l → AllBelow (n + 1) l
AllBelow-more n [] a = tt
AllBelow-more n (x ∷ l) (h, a) = (omega arith, AllBelow-more n l a)

-- The addresses of a tree are among those of its list.
pub occ-below : (n : ℕ) (t : Tree) → AllBelow n (inorder t) → (i : ℕ) → 1 ≤ occ i t → i < n
occ-below n leaf a i h = absurd (omega arith)
occ-below n (node j c l r) a i h =
    let (al, aj) = AllBelow-split n (inorder l) (j ∷ inorder r) a in
    elim (ℕ_discrete i j) [
      | yes e ↦ subst (λ x. x < n) (sym e) aj.0
      | no ne ↦ elim (ℕ_discrete (occ i l) 0) [
        | no some_left ↦ occ-below n l al i (omega (arith, some_left))
        | yes none_left ↦
            let e : one i j ≡ 0 = ground (arith, ne) in
            occ-below n r aj.1 i (omega (arith, h, e, none_left))
      ]
    ]

pub one_small : (i j : ℕ) → one i j ≤ 1
one_small i j = ground arith

pub length-around : (ctx : List Frame) → length ctx ≤ length (before ctx) + length (after ctx)
length-around [] = omega arith
length-around (f ∷ ctx) = by_side f.side (length-around ctx)
  where
    by_side :
        (s : Side)
        → length ctx ≤ length (before ctx) + length (after ctx)
        → suc (length ctx)
          ≤ length (before (record f { side = s } ∷ ctx))
            + length (after (record f { side = s } ∷ ctx))
    by_side left h = omega (arith, h, length-append (inorder f.sibling) (after ctx))
    by_side right h = omega (
      arith,
      h,
      length-append (before ctx) (inorder f.sibling ++ (f.at ∷ [])),
      length-append (inorder f.sibling) (f.at ∷ []),
    )

pub Zip-Same :
    {K V : Type 0} (m m' : Map K V) (ctx : List Frame) (t : Tree)
    → m'.root ≡ m.root
    → ((i : ℕ) → 1 ≤ occ_above i ctx + occ i t → Same m m' i)
    → Zip m ctx t
    → Zip m' ctx t
Zip-Same m m' ctx t root same z = record {
  here = Holds-Same m m' (above ctx) t (λ i q. same i (omega (arith, q))) z.here;
  around = Above-Same m m' ctx (top t) root (λ i q. same i (omega (arith, q))) z.around;
  once = z.once;
}

pub new_node-Same :
    {K V : Type 0} (m : Map K V) (k : K) (v : V) (i : ℕ) → i ≢ m.fresh → Same m (new_node m k v) i
unfolding new_node
new_node-Same m k v i ne = record {
  color = update_ne m.color m.fresh red i ne;
  parent = update_ne m.parent m.fresh 0 i ne;
  child = λ s.
      set_child_ne (set_child m.child left m.fresh 0) m.fresh 0 right s i ne
      ∙ set_child_ne m.child m.fresh 0 left s i ne;
}

-- The fields of the new node.
pub record New {K V : Type 0} (m : Map K V) (i : ℕ) (k : K) (v : V) : Type 0 where
  pub child : (s : Side) → m.child s i ≡ 0
  pub color : m.color i ≡ red
  pub key : m.key i ≡ k
  pub value : m.value i ≡ v

pub new_node-New : {K V : Type 0} (m : Map K V) (k : K) (v : V) → New (new_node m k v) m.fresh k v
unfolding new_node
new_node-New m k v = record {
  child = childless;
  color = update_self m.color m.fresh red;
  key = update_self m.key m.fresh k;
  value = update_self m.value m.fresh v;
}
  where
    childless :
        (s : Side) → set_child (set_child m.child left m.fresh 0) right m.fresh 0 s m.fresh ≡ 0
    childless left = update_self (m.child left) m.fresh 0
    childless right = update_self (m.child right) m.fresh 0

-- The node is hung at its place.
module _ {K V : Type 0} (keys : Keys K) (m : Map K V) (k : K) (z : ℕ) (nz : z ≢ 0)
    (childless : (s : Side) → m.child s z ≡ 0) (is_new : m.color z ≡ red) where
  pub attach-Zip :
      (ctx : List Frame)
      → ((i : ℕ) → 1 ≤ occ_above i ctx → i ≢ z)
      → Hangs keys m k ctx
      → Zip m ctx leaf
      → Zip (attach keys m k (above ctx) z) ctx (node z red leaf leaf)
  unfolding attach
  attach-Zip [] other_nodes hangs zip = record {
    here = (nz, is_new, update_self m.parent z 0, childless left, childless right, tt, tt);
    around = refl;
    once = λ i. omega (arith, one_small i z);
  }
  attach-Zip (f ∷ ctx) other_nodes hangs zip =
      let (r, c, u, n, b, h, rest) = zip.around in
      let real : f.at == 0 ≡ false = ground (arith, r) in
      let here_z : f.at ≢ z = other_nodes f.at (omega (arith, one_self f.at)) in
      let m2 = adopt m z f.at in
      let m3 : Map K V = record (hang m2 f.side f.at z) { count = m2.count + 1 } in
      let same : (i : ℕ) → i ≢ f.at → i ≢ z → Same m m3 i = λ i na ne. record {
        color = refl;
        parent = update_ne m.parent z f.at i ne;
        child = λ s. set_child_ne m.child f.at z f.side s i na;
      } in
      let apart : (i : ℕ) → 1 ≤ occ i f.sibling + occ_above i ctx → (i ≢ f.at) × (i ≢ z) = λ i q.
        (λ e. omega (arith, zip.once i, one_eq i f.at e, q), other_nodes i (omega (arith, q))) in
      let done : Zip m3 (f ∷ ctx) (node z red leaf leaf) = record {
        here = (
          nz,
          is_new,
          update_self m.parent z f.at,
          set_child_ne m.child f.at z f.side left z (λ e. here_z (sym e)) ∙ childless left,
          set_child_ne m.child f.at z f.side right z (λ e. here_z (sym e)) ∙ childless right,
          tt,
          tt,
        );
        around = (
          r,
          c,
          update_ne m.parent z f.at f.at here_z ∙ u,
          set_child_self m.child f.at z f.side,
          set_child-other m.child f.at z f.side f.at ∙ b,
          Holds-Same m m3 f.at f.sibling
              (λ i q. let (na, ne) = apart i (omega (arith, q)) in same i na ne) h,
          Above-Same m m3 ctx f.at refl
              (λ i q. let (na, ne) = apart i (omega (arith, q)) in same i na ne) rest,
        );
        once = λ i. once_more i;
      } in
      rw (real, sym hangs) done
    where
      once_more : (i : ℕ) → occ_above i (f ∷ ctx) + occ i (node z red leaf leaf) ≤ 1
      once_more i = elim (ℕ_discrete i z) [
        | no ne ↦ let e : one i z ≡ 0 = ground (arith, ne) in omega (arith, zip.once i, e)
        | yes e ↦ elim (ℕ_discrete (occ_above i (f ∷ ctx)) 0) [
          | yes zero_above ↦ omega (arith, zero_above, one_small i z)
          | no some_above ↦ absurd (other_nodes i (omega (arith, some_above)) e)
        ]
      ]
