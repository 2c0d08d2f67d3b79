-- ===== src/Workflow/Order/Sorted.antt =====
-- A finished walk is a topological order of all the nodes that it was started from.
use code_fleet.Prelude.{
  ℕ, zero, suc, ◌+◌, ◌≡◌, refl, sym, subst, inl, inr, ◌∙◌, true, false, Option, some, List, [], ◌∷◌,
  Text, elem, elem-cons_self, length, ok, >>=-eq-ok, All, Chain, Chain-snoc,
}
use code_fleet.Workflow.Order.{Walk, start, visit_each, enter, visit, walk}
use code_fleet.Workflow.Order.Path.{Agrees, visit_inv, visit-Lists, visit_each-Lists}

module _ (nodes : Text → Option (List Text)) where
  -- The key is a node, new to `before`, and its dependencies are all in `before`.
  pub record Follows (before : List Text) (key : Text) : Type 0 where
    pub deps : List Text
    pub found : nodes key ≡ some deps
    pub backed : All (λ d. elem before d ≡ true) deps
    pub fresh : elem before key ≡ false

  -- Each key of the list follows those before it.
  abbrev pub IsOrdered : List Text → Type 0
  IsOrdered = Chain Follows []

  visit_each-IsOrdered :
      (f : ℕ)
      → ((k : Text) (w w' : Walk)
          → Agrees w
          → IsOrdered w.ordered
          → visit nodes f k w ≡ ok w'
          → IsOrdered w'.ordered)
      → (ks : List Text) (w w' : Walk) → Agrees w
      → IsOrdered w.ordered
      → visit_each (visit nodes f) ks w ≡ ok w'
      → IsOrdered w'.ordered
  unfolding visit_each
  visit_each-IsOrdered f step [] w w' a h e =
      let same : w ≡ w' = cc in subst (λ x. IsOrdered x.ordered) same h
  visit_each-IsOrdered f step (k ∷ ks) w w' a h e =
      let (v, first, later) = >>=-eq-ok (visit nodes f k w) (visit_each (visit nodes f) ks) e in
      visit_each-IsOrdered f step ks v w' (visit-Lists nodes f k w v a first).agrees
        (step k w v a h first) later

  visit-IsOrdered :
      (f : ℕ) (key : Text) (w w' : Walk)
      → Agrees w
      → IsOrdered w.ordered
      → visit nodes f key w ≡ ok w'
      → IsOrdered w'.ordered
  visit-IsOrdered zero key w w' a h e = unfold visit in cc
  visit-IsOrdered (suc f) key w w' a h e = elim (visit_inv nodes f key w w' e) [
    | inl (old, same) ↦ subst (λ x. IsOrdered x.ordered) (sym same) h
    | inr b ↦
        let l =
          visit_each-Lists nodes f (visit-Lists nodes f) b.deps (enter key w) b.inner a b.walked in
        let kept =
          visit_each-IsOrdered f (visit-IsOrdered f) b.deps (enter key w) b.inner a h b.walked in
        subst (λ x. IsOrdered x.ordered) (sym b.left)
          (Chain-snoc Follows [] b.inner.ordered key kept (record {
            deps = b.deps;
            found = b.found;
            backed = l.listed;
            fresh =
                l.grows.path_unlisted key (elem-cons_self key w.visiting) (sym (a key) ∙ b.fresh);
          }))
  ]

  -- A walk that ends lists the nodes so that each stands after all of its dependencies and no node
  -- stands twice; every key it was started from is listed.
  pub walk-IsOrdered :
      (keys : List Text) (w : Walk)
      → walk nodes keys ≡ ok w
      → IsOrdered w.ordered × All (λ k. elem w.ordered k ≡ true) keys
  unfolding walk
  walk-IsOrdered keys w e =
      let f = length keys + 1 in
      (
        visit_each-IsOrdered f (visit-IsOrdered f) keys start w (λ k. refl) tt e,
        (visit_each-Lists nodes f (visit-Lists nodes f) keys start w (λ k. refl) e).listed,
      )
