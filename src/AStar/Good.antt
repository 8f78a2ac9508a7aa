-- ===== src/AStar/Good.antt =====
-- What the search keeps: the closed cells, the ways back from them, and the entries of the heap.
use cpp_lockfree_core.Base.{
  ℕ, suc, ◌+◌, ◌*◌, ◌≡◌, ◌≤◌, ◌<◌, inl, inr, refl, sym, ◌∙◌, subst, true, false, List, [], ◌∷◌,
  Option, some, arith, length, ℕ_discrete,
}
use cpp_lockfree_core.Family.{update, update_self, update_ne}
use cpp_lockfree_core.LockFreeStack.Chain.{In}
use cpp_lockfree_core.Grid.{Grid}
use cpp_lockfree_core.Grid.Cells.{true-false}
use cpp_lockfree_core.AStar.{Point, Search}
use cpp_lockfree_core.AStar.Trail.{Known, Trail}
use cpp_lockfree_core.AStar.Heap.{AllOpen, AllOpen-map, unclosed}

-- The search's state, with the closed cells, the last one first.
pub record Good {F : Type 0} (g : Grid) (start : Point) (R : ℕ → ℕ → Type 0) (s : Search F)
    (ds : List ℕ) : Type 0 where
  pub closed_in : (c : ℕ) → s.closed c ≡ true → In c ds
  pub in_closed : (c : ℕ) → In c ds → s.closed c ≡ true
  pub trail : Trail g start R s.came_from ds
  pub known : AllOpen (λ c. (c < g.width * g.height) × Known g start R s.came_from ds c) s.open_list
  pub counted : s.nodes_expanded ≡ length ds
  pub all_cells : s.nodes_expanded + unclosed s.closed (g.width * g.height) ≡ g.width * g.height

module _ (g : Grid) (start : Point) (R : ℕ → ℕ → Type 0) (came : ℕ → Option ℕ) where
  Known-update :
      (ds : List ℕ) (n p c : ℕ)
      → In p ds
      → R p n
      → Known g start R came ds c
      → Known g start R (update came n (some p)) ds c
  Known-update ds n p c back m k = elim (ℕ_discrete n c) [
    | yes e ↦
        subst (Known g start R (update came n (some p)) ds) e
          (inr (p, update_self came n (some p), back, m))
    | no ne ↦
        let same : update came n (some p) c ≡ came c =
          update_ne came n (some p) c (λ z. ne (sym z)) in
        elim k [ inl (a, b) ↦ inl (same ∙ a, b) | inr (q, a, b, w) ↦ inr (q, same ∙ a, b, w) ]
  ]

  Trail-update :
      (ds : List ℕ) (n p : ℕ)
      → ¬ In n ds
      → Trail g start R came ds
      → Trail g start R (update came n (some p)) ds
  Trail-update [] n p out t = tt
  Trail-update (d ∷ ds) n p out (k, t) =
      let same : update came n (some p) d ≡ came d =
        update_ne came n (some p) d (λ z. out (inl (sym z))) in
      (
        elim k [ inl (a, b) ↦ inl (same ∙ a, b) | inr (q, a, b, w) ↦ inr (q, same ∙ a, b, w) ],
        Trail-update ds n p (λ q. out (inr q)) t,
      )

-- What a round of the loop does.
pub record Visited {F : Type 0} (g : Grid) (start : Point) (R : ℕ → ℕ → Type 0) (s s' : Search F)
    (ds : List ℕ) (k : ℕ) : Type 0 where
  pub good : Good g start R s' ds
  pub same_closed : s'.closed ≡ s.closed
  pub few : length s'.open_list ≤ length s.open_list + k

module _ {F : Type 0} {g : Grid} {start : Point} (R : ℕ → ℕ → Type 0) where
  -- Nothing was visited.
  pub unvisited :
      (s : Search F) (ds : List ℕ) (k : ℕ) → Good g start R s ds → Visited g start R s s ds k
  unvisited s ds k good = record { good = good; same_closed = refl; few = omega arith }

  pub Visited-more :
      (s s' : Search F) (ds : List ℕ) (k : ℕ)
      → Visited g start R s s' ds k
      → Visited g start R s s' ds (suc k)
  Visited-more s s' ds k v = record {
    good = v.good;
    same_closed = v.same_closed;
    few = omega (arith, v.few);
  }

  pub Visited-then :
      (s s' s'' : Search F) (ds : List ℕ) (k : ℕ)
      → Visited g start R s s' ds 1
      → Visited g start R s' s'' ds k
      → Visited g start R s s'' ds (suc k)
  Visited-then s s' s'' ds k v w = record {
    good = w.good;
    same_closed = w.same_closed ∙ v.same_closed;
    few = omega (arith, v.few, w.few);
  }

  -- A shorter way to a cell that is not closed.
  pub relaxed :
      (s : Search F) (ds : List ℕ) (current n : ℕ) (score cost : F)
      → Good g start R s ds
      → In current ds
      → n < g.width * g.height
      → R current n
      → s.closed n ≡ false
      → Visited g start R s
          (record s {
            g_score = update s.g_score n score;
            came_from = update s.came_from n (some current);
            open_list = (cost, n) ∷ s.open_list;
          })
          ds
          1
  relaxed s ds current n score cost good here small m unseen = record {
    good = record {
      closed_in = good.closed_in;
      in_closed = good.in_closed;
      trail =
          Trail-update g start R s.came_from ds n current
            (λ q. true-false (sym (good.in_closed n q) ∙ unseen)) good.trail;
      known = (
        (small, inr (current, update_self s.came_from n (some current), here, m)),
        AllOpen-map (λ c h. (h.0, Known-update g start R s.came_from ds n current c here m h.1))
            s.open_list good.known,
      );
      counted = good.counted;
      all_cells = good.all_cells;
    };
    same_closed = refl;
    few = omega arith;
  }
