-- ===== src/AStar/Loop.antt =====
-- The search's loop ends, whatever it does with an open cell, and its path is made from a way back.
use cpp_lockfree_core.Base.{
  ℕ, zero, suc, ◌+◌, ◌*◌, ◌≡◌, ◌≤◌, ◌<◌, ◌⊎◌, inl, inr, refl, sym, ap, ap₂, ◌∙◌, subst, true, false,
  ◌&&◌, List, [], ◌∷◌, Option, some, arith, length, Bool-cases, ℕ_discrete,
}
use cpp_lockfree_core.Family.{update, update_self, update_ne}
use cpp_lockfree_core.LockFreeStack.Chain.{In}
use cpp_lockfree_core.Grid.{ℤ, pos, negsuc, Grid, is_walkable}
use cpp_lockfree_core.Grid.Cells.{IsValid, true-false}
use cpp_lockfree_core.AStar.{
  Point, PathResult, Cost, Search, point_of, take_least, loop, begin_search, same_cell, not_found,
  close,
}
use cpp_lockfree_core.AStar.Route.{Route, index_of-point_of}
use cpp_lockfree_core.AStar.Trail.{Known}
use cpp_lockfree_core.AStar.Heap.{
  unclosed_at_first, AllOpen, AllOpen-map, take_least-AllOpen, unclosed, unclosed-update,
}
use cpp_lockfree_core.AStar.Good.{Good, Visited}

same_cell_eq : (a b : ℤ) → same_cell a b ≡ true → a ≡ b
same_cell_eq (pos a) (pos b) h = ap pos (ground arith)
same_cell_eq (negsuc a) (negsuc b) h = ap negsuc (ground arith)
same_cell_eq (pos a) (negsuc b) h = absurd (true-false (sym h))
same_cell_eq (negsuc a) (pos b) h = absurd (true-false (sym h))

same_point : (a b : Point) → same_cell a.x b.x && same_cell a.y b.y ≡ true → a ≡ b
same_point a b h =
    ap₂ (λ u v. record { x = u; y = v }) (same_cell_eq a.x b.x (ground arith))
      (same_cell_eq a.y b.y (ground arith))

-- What a result says: no more cells were expanded than the board has, and either no path is said to
-- be found, and none is given, or the path leads from the start to the goal.
pub record Sound (g : Grid) (start goal : Point) (r : PathResult) : Type 0 where
  pub bounded : r.nodes_expanded ≤ g.width * g.height
  pub outcome : ((r.found ≡ false) × (r.path ≡ [])) ⊎ ((r.found ≡ true) × Route g start goal r.path)

abbrev pub Ends : Grid → Point → Point → Option PathResult → Type 0
Ends g start goal o = (r : PathResult) × (o ≡ some r) × Sound g start goal r

pub not_found-Ends :
    {g : Grid} {start goal : Point} (n : ℕ)
    → n ≤ g.width * g.height
    → Ends g start goal (some (not_found n))
not_found-Ends n h = (not_found n, refl, record { bounded = h; outcome = inl (refl, refl) })

list_cases : {A : Type 0} (l : List A) → (l ≡ []) ⊎ ((e : A) × (es : List A) × (l ≡ e ∷ es))
list_cases [] = inl refl
list_cases (e ∷ es) = inr (e, es, refl)

-- A round adds at most eight entries.
abbrev pub Expands :
    {F : Type 0} → Grid → Point → (ℕ → ℕ → Type 0) → (ℕ → Search F → Option (Search F)) → Type 0
Expands {F} g start R expand =
    (current : ℕ) (s : Search F) (ds : List ℕ)
    → Good g start R s ds
    → current < g.width * g.height
    → In current ds
    → (next : Search F) × (expand current s ≡ some next) × Visited g start R s next ds 8

-- From a closed cell a path is made.
abbrev pub Restores :
    {F : Type 0} → Grid → Point → (ℕ → ℕ → Type 0) → (ℕ → Search F → Option (List Point)) → Type 0
Restores {F} g start R restore =
    (current : ℕ) (s : Search F) (ds : List ℕ)
    → Good g start R s ds
    → In current ds
    → (l : List Point) × (restore current s ≡ some l) × Route g start (point_of g current) l

module _ {F : Type 0} (cost : Cost F) {g : Grid} (valid : IsValid g) (start goal : Point)
    (R : ℕ → ℕ → Type 0) (expand : ℕ → Search F → Option (Search F))
    (restore : ℕ → Search F → Option (List Point)) where
  -- The rounds that can be left.
  abbrev pub rounds : Search F → ℕ
  rounds s = length s.open_list + 9 * unclosed s.closed (g.width * g.height)

  Known-more :
      (came : ℕ → Option ℕ) (ds : List ℕ) (d c : ℕ)
      → Known g start R came ds c
      → Known g start R came (d ∷ ds) c
  Known-more came ds d c k = elim k [ inl a ↦ inl a | inr (q, a, b, w) ↦ inr (q, a, inr b, w) ]

  close-Good :
      (s : Search F) (ds : List ℕ) (current : ℕ)
      → Good g start R s ds
      → Known g start R s.came_from ds current
      → current < g.width * g.height
      → s.closed current ≡ false
      → Good g start R (close s current) (current ∷ ds)
  close-Good s ds current good k small unseen = record {
    closed_in = λ c h. elim (ℕ_discrete current c) [
      | yes e ↦ inl (sym e)
      | no ne ↦
          inr (good.closed_in c (sym (update_ne s.closed current true c (λ z. ne (sym z))) ∙ h))
    ];
    in_closed = λ c q. elim (ℕ_discrete current c) [
      | yes e ↦
          subst (λ i. update s.closed current true i ≡ true) e (update_self s.closed current true)
      | no ne ↦ elim q [
        | inl e ↦ absurd (ne (sym e))
        | inr r ↦ update_ne s.closed current true c (λ z. ne (sym z)) ∙ good.in_closed c r
      ]
    ];
    trail = (k, good.trail);
    known =
        AllOpen-map (λ c h. (h.0, Known-more s.came_from ds current c h.1)) s.open_list good.known;
    counted = omega (arith, good.counted);
    all_cells =
        omega (
          arith,
          good.all_cells,
          unclosed-update s.closed current (g.width * g.height) small unseen,
        );
  }

  popped-Good :
      (s : Search F) (ds : List ℕ) (l : List (F × ℕ))
      → Good g start R s ds
      → AllOpen (λ c. (c < g.width * g.height) × Known g start R s.came_from ds c) l
      → Good g start R (record s { open_list = l }) ds
  popped-Good s ds l good rest = record {
    closed_in = good.closed_in;
    in_closed = good.in_closed;
    trail = good.trail;
    known = rest;
    counted = good.counted;
    all_cells = good.all_cells;
  }

  loop-Ends :
      Expands g start R expand
      → Restores g start R restore
      → (fuel : ℕ) (s : Search F) (ds : List ℕ) → Good g start R s ds
      → rounds s < fuel
      → Ends g start goal (loop cost g goal expand restore fuel s)
  unfolding loop
  loop-Ends expands restores zero s ds good few = absurd (omega arith)
  loop-Ends expands restores (suc fuel) s ds good few = elim (list_cases s.open_list) [
    | inl q ↦ rw q (not_found-Ends s.nodes_expanded (omega (arith, good.all_cells)))
    | inr (e, es, q) ↦
        let P : ℕ → Type 0 = λ c. (c < g.width * g.height) × Known g start R s.came_from ds c in
        let all = subst (AllOpen P) q good.known in
        let current = (take_least cost e es).0.1 in
        let popped = record s { open_list = (take_least cost e es).1 } in
        let (here, rest, size) = take_least-AllOpen cost P e es all.0 all.1 in
        let long : length s.open_list ≡ suc (length es) = ap length q in
        let kept = popped-Good s ds (take_least cost e es).1 good rest in
        elim (Bool-cases (s.closed current)) [
          | inl c ↦
              rw (q, c)
                (loop-Ends expands restores fuel popped ds kept (omega (arith, few, size, long)))
          | inr c ↦
              let now = close-Good popped ds current kept here.1 here.0 c in
              elim (Bool-cases (
                same_cell (point_of g current).x goal.x
                && same_cell (point_of g current).y goal.y)) [
                  | inl at ↦
                      let (l, r, route) =
                        restores current (close popped current) (current ∷ ds) now (inl refl) in
                      rw (q, c, at, r)
                        (
                          record { found = true; path = l; nodes_expanded = s.nodes_expanded + 1 },
                          refl,
                          record {
                            bounded = omega (arith, now.all_cells);
                            outcome = inr (
                              refl,
                              subst (λ p. Route g start p l)
                                  (same_point (point_of g current) goal at) route,
                            );
                          },
                        )
                  | inr away ↦
                      let (next, r, v) =
                        expands current (close popped current) (current ∷ ds) now here.0
                          (inl refl) in
                      let fewer = unclosed-update s.closed current (g.width * g.height) here.0 c in
                      let same = ap (λ f. unclosed f (g.width * g.height)) v.same_closed in
                      rw (q, c, away, r)
                        (loop-Ends expands restores fuel next (current ∷ ds) v.good
                          (omega (arith, few, size, long, fewer, v.few, same)))
                ]
        ]
  ]

  pub begin_search-Ends :
      Expands g start R expand
      → Restores g start R restore
      → is_walkable g start.x start.y ≡ true
      → (fuel : ℕ) → 9 * (g.width * g.height) + 2 ≤ fuel
      → Ends g start goal (loop cost g goal expand restore fuel (begin_search cost g start goal))
  unfolding begin_search
  begin_search-Ends expands restores free fuel enough =
      let (small, at) = index_of-point_of valid start.x start.y free in
      let none_closed = unclosed_at_first (g.width * g.height) in
      loop-Ends expands restores fuel (begin_search cost g start goal) []
        (record {
          closed_in = λ c h. absurd (true-false (sym h));
          in_closed = λ c q. absurd q;
          trail = tt;
          known = ((small, inl (refl, at)), tt);
          counted = refl;
          all_cells = omega (arith, none_closed);
        })
        (omega (arith, none_closed))
