-- ===== src/Tests/Trees.antt =====
-- The red-black tree, with numbers for keys.
use cpp_lockfree_core.Base.{
  ℕ, ◌≡◌, refl, Option, none, some, Bool, true, false, arith, ltb, ◌==◌, ℕ_discrete,
}
use cpp_lockfree_core.Family.{update}
use cpp_lockfree_core.Map.{
  Keys, Map, red, black, left, right, set_child, rotate, replace_child, side_of, recolor,
  straighten, raise, fix_round, insert_fixup, find_node, descend, find, new_node, attach,
  insert_new, insert,
}
use cpp_lockfree_core.Map.Erase.{
  transplant, minimum, lower, turn_near, finish, balance, erase_round, erase_fixup, lift_out,
  put_in, erase_node, erase,
}
use cpp_lockfree_core.Map.Shape.{leaf, node}
use cpp_lockfree_core.Map.Erase.Removal.{Erased, erase-Erased}
use cpp_lockfree_core.Map.Valid.{IsValid, lookup}
use cpp_lockfree_core.Map.Insert.{Inserted}
use cpp_lockfree_core.Map.Add.{insert-Inserted}
use cpp_lockfree_core.Map.Height.{find-Bounded}

abbrev numbers : Keys ℕ
numbers = record {
  same = λ a b. a == b;
  less = ltb;
  same_eq = λ a b h. ground arith;
  same_refl = λ a. ground arith;
  less_irrefl = λ a. ground arith;
  less_trans = λ a b c h l. ground arith;
  less_total = λ a b h l. ground arith;
}

-- Key 5 at the root, and key 8 to its right.
abbrev pair : Map ℕ ℕ
pair = record {
  child = set_child (λ s i. 0) right 1 2;
  parent = update (λ i. 0) 2 1;
  color = update (λ i. black) 2 red;
  key = update (λ i. 5) 2 8;
  value = update (λ i. 50) 2 80;
  root = 1;
  count = 2;
  fresh = 3;
}

pair-IsValid : IsValid numbers pair
unfolding ℕ_discrete
pair-IsValid = record {
  t = node 1 black leaf (node 2 red leaf leaf);
  zip = record {
    here = (
      λ e. omega (arith, e),
      refl,
      refl,
      refl,
      refl,
      tt,
      (λ e. omega (arith, e), refl, refl, refl, refl, tt, tt),
    );
    around = refl;
    once = λ i. ground arith;
  };
  height = 1;
  rules = (0, refl, refl, (refl, refl, tt, tt));
  dark = tt;
  sorted = ((refl, tt), (tt, tt));
  nil = refl;
  below = (omega arith, (omega arith, tt));
  real_fresh = λ e. omega (arith, e);
  counted = refl;
}

-- The root, its children, and the count.
abbrev outline : Option (Map ℕ ℕ) → Option (ℕ × ℕ × ℕ × ℕ)
outline none = none
outline (some m) = some (m.root, m.child left m.root, m.child right m.root, m.count)

-- Three keys that go to the right: the tree turns at the root.
turned_at_root : outline (insert numbers 4 pair 9 90) ≡ some (2, 1, 3, 3)
unfolding insert insert_new find_node descend new_node attach insert_fixup fix_round side_of
    straighten raise recolor rotate replace_child ℕ_discrete
turned_at_root = refl

insert-Inserted_example :
    (m' : Map ℕ ℕ) × (insert numbers 3 pair 9 90 ≡ some m') × Inserted numbers pair m' 9 90
insert-Inserted_example = insert-Inserted numbers 3 9 90 pair-IsValid (omega arith)

find-Bounded_example :
    (r : Option ℕ) × (find numbers 3 pair 8 ≡ some r) × (lookup numbers pair 8 ≡ some r)
find-Bounded_example = find-Bounded numbers 3 1 8 pair-IsValid (omega arith) (omega arith)

-- A black node is missing to the left of the root, and the right child of the root is red.
abbrev lopsided : Map ℕ ℕ
lopsided = record {
  child = set_child (set_child (set_child (λ s i. 0) right 1 2) left 2 3) right 2 4;
  parent = update (update (update (update (λ i. 0) 0 1) 2 1) 3 2) 4 2;
  color = update (λ i. black) 2 red;
  key = update (update (update (update (λ i. 0) 1 10) 2 20) 3 15) 4 25;
  value = λ i. 7;
  root = 1;
  count = 4;
  fresh = 5;
}

-- The children of the root and the count, with what `erase` returns.
abbrev erased_outline : Option (Map ℕ ℕ × Bool) → Option (ℕ × ℕ × ℕ × ℕ × Bool)
erased_outline none = none
erased_outline (some (m, b)) = some (m.root, m.child left m.root, m.child right m.root, m.count, b)

-- The root is taken out, and its right child takes its place.
root_erased : erased_outline (erase numbers 3 pair 5) ≡ some (2, 0, 0, 1, true)
unfolding erase erase_node transplant minimum erase_fixup lift_out put_in replace_child find_node
    ℕ_discrete
root_erased = refl

nothing_erased : erased_outline (erase numbers 3 pair 6) ≡ some (1, 0, 2, 2, false)
unfolding erase find_node ℕ_discrete
nothing_erased = refl

-- The root has two children: the least node on its right takes its place, and the tree turns.
two_children_erased : erased_outline (erase numbers 5 lopsided 20) ≡ some (1, 0, 4, 3, true)
unfolding erase erase_node transplant minimum erase_fixup erase_round lower turn_near finish balance
    lift_out put_in replace_child side_of rotate find_node ℕ_discrete
two_children_erased = refl

erase-Erased_example :
    (m' : Map ℕ ℕ) × (b : Bool) × (erase numbers 3 pair 5 ≡ some (m', b))
    × Erased numbers pair m' 5 b
erase-Erased_example = erase-Erased numbers 3 5 pair-IsValid (omega arith)
