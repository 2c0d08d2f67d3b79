-- ===== src/Workflow/Order/Path.antt =====
-- What one call of the walk does to the path it is on and to the list it builds.
use code_fleet.Prelude.{
  ℕ, zero, suc, ◌≡◌, refl, sym, ap, inl, inr, subst, ◌∙◌, ◌⊎◌, true, false, Option, none, some,
  List, [], ◌∷◌, ◌++◌, Text, ◌==◌, ==_iff, ==_refl, elem, without, elem-append,
  without-eq_of_absent, ok, err, ◌>>=◌, >>=-eq-ok, Bool-cases, Result-cases, Option-cases, All,
  arith,
}
use code_fleet.Workflow.Order.{
  Fault, missing_dependency, cyclic_dag, Walk, visit_each, enter, leave, visit,
}

-- A finished call restores the path, keeps what is listed, and lists nothing that is on the path.
pub record Grows (w w' : Walk) : Type 0 where
  pub same_path : w'.visiting ≡ w.visiting
  pub kept : (k : Text) → elem w.ordered k ≡ true → elem w'.ordered k ≡ true
  pub path_unlisted :
      (k : Text) → elem w.visiting k ≡ true → elem w.ordered k ≡ false → elem w'.ordered k ≡ false

-- The set and the list hold the same keys.
abbrev pub Agrees : Walk → Type 0
Agrees w = (k : Text) → elem w.visited k ≡ elem w.ordered k

Grows-refl : (w : Walk) → Grows w w
Grows-refl w = record { same_path = refl; kept = λ k h. h; path_unlisted = λ k p h. h }

Grows-trans : {u v w : Walk} → Grows u v → Grows v w → Grows u w
Grows-trans g h = record {
  same_path = h.same_path ∙ g.same_path;
  kept = λ k p. h.kept k (g.kept k p);
  path_unlisted = λ k p q. h.path_unlisted k (rw g.same_path p) (g.path_unlisted k p q);
}

elem-snoc : (ks : List Text) (a k : Text) → elem (ks ++ a ∷ []) k ≡ elem (a ∷ ks) k
unfolding elem
elem-snoc ks a k = ground (arith, elem-append ks (a ∷ []) k)

-- What a call from `w` to `w'` on `ks` ensures.
pub record Lists (ks : List Text) (w w' : Walk) : Type 0 where
  pub grows : Grows w w'
  pub agrees : Agrees w'
  pub listed : All (λ k. elem w'.ordered k ≡ true) ks

elem-ne : (a k : Text) (ks : List Text) → elem ks a ≡ false → elem ks k ≡ true → (a == k) ≡ false
elem-ne a k ks out held = ground (arith, ==_iff a k, λ (e : a ≡ k). ap (elem ks) e)

module _ (nodes : Text → Option (List Text)) where
  pub visit_each-Lists :
      (f : ℕ)
      → ((k : Text) (w w' : Walk) → Agrees w → visit nodes f k w ≡ ok w' → Lists (k ∷ []) w w')
      → (ks : List Text) (w w' : Walk) → Agrees w
      → visit_each (visit nodes f) ks w ≡ ok w'
      → Lists ks w w'
  unfolding visit_each
  visit_each-Lists f step [] w w' a e =
      let same : w ≡ w' = cc in
      subst (λ x. Lists [] w x) same (record { grows = Grows-refl w; agrees = a; listed = tt })
  visit_each-Lists f step (k ∷ ks) w w' a e =
      let (v, first, later) = >>=-eq-ok (visit nodes f k w) (visit_each (visit nodes f) ks) e in
      let one = step k w v a first in
      let rest = visit_each-Lists f step ks v w' one.agrees later in
      record {
        grows = Grows-trans one.grows rest.grows;
        agrees = rest.agrees;
        listed = (rest.grows.kept k one.listed.0, rest.listed);
      }

  -- The key is new, its dependencies are walked, and the path is cut back.
  visit-fresh :
      (key : Text) (deps : List Text) (w v : Walk)
      → elem w.visiting key ≡ false
      → Agrees w
      → Lists deps (enter key w) v
      → Lists (key ∷ []) w (leave key v)
  unfolding elem without
  visit-fresh key deps w v off a l = record {
    grows = record {
      same_path =
          rw l.grows.same_path (ground (arith, ==_refl key, without-eq_of_absent key w.visiting));
      kept = λ k h. rw (elem-snoc v.ordered key k) (ground (arith, l.grows.kept k h));
      path_unlisted = λ k p h.
          rw (elem-snoc v.ordered key k)
            (ground (arith, l.grows.path_unlisted k, ==_iff key k, elem-ne key k w.visiting off p));
    };
    agrees = λ k. rw (elem-snoc v.ordered key k) (ground (arith, l.agrees k));
    listed = (rw (elem-snoc v.ordered key key) (ground (arith, ==_refl key)), tt);
  }

  -- What a successful call did: nothing, or the whole body.
  pub record Entered (f : ℕ) (key : Text) (w w' : Walk) : Type 0 where
    pub deps : List Text
    pub inner : Walk
    pub found : nodes key ≡ some deps
    pub off_path : elem w.visiting key ≡ false
    pub fresh : elem w.visited key ≡ false
    pub walked : visit_each (visit nodes f) deps (enter key w) ≡ ok inner
    pub left : w' ≡ leave key inner

  pub visit_inv :
      (f : ℕ) (key : Text) (w w' : Walk)
      → visit nodes (suc f) key w ≡ ok w'
      → (elem w.visited key ≡ true) × (w' ≡ w) ⊎ Entered f key w w'
  unfolding visit
  visit_inv f key w w' e = elim (Option-cases (nodes key)) [
    | inl missing ↦ ground arith
    | inr (deps, found) ↦ elim (Bool-cases (elem w.visiting key)) [
      | inl on ↦ ground arith
      | inr off ↦ elim (Bool-cases (elem w.visited key)) [
        | inl old ↦ inl (ground arith)
        | inr new ↦
            let body : (visit_each (visit nodes f) deps (enter key w) >>= λ v. ok (leave key v))
                ≡ ok w' =
              ground arith in
            let (v, walked, out) =
              >>=-eq-ok (visit_each (visit nodes f) deps (enter key w)) (λ v. ok (leave key v))
                body in
            inr (record {
              deps = deps;
              inner = v;
              found = found;
              off_path = off;
              fresh = new;
              walked = walked;
              left = cc;
            })
      ]
    ]
  ]

  pub visit_again :
      (f : ℕ) (key : Text) (w : Walk) {deps : List Text}
      → nodes key ≡ some deps
      → elem w.visiting key ≡ false
      → elem w.visited key ≡ true
      → visit nodes (suc f) key w ≡ ok w
  unfolding visit
  visit_again f key w found off old = ground arith

  pub visit_fresh :
      (f : ℕ) (key : Text) (w v : Walk) {deps : List Text}
      → nodes key ≡ some deps
      → elem w.visiting key ≡ false
      → elem w.visited key ≡ false
      → visit_each (visit nodes f) deps (enter key w) ≡ ok v
      → visit nodes (suc f) key w ≡ ok (leave key v)
  unfolding visit
  visit_fresh f key w v found off new walked = ground arith

  -- How a call fails: at its own key, or in the body.
  pub record Failed (f : ℕ) (key : Text) (w : Walk) (x : Fault) : Type 0 where
    pub deps : List Text
    pub found : nodes key ≡ some deps
    pub off_path : elem w.visiting key ≡ false
    pub failed : visit_each (visit nodes f) deps (enter key w) ≡ err x

  pub visit_err :
      (f : ℕ) (key : Text) (w : Walk) (x : Fault)
      → visit nodes (suc f) key w ≡ err x
      → (nodes key ≡ none) × (x ≡ missing_dependency)
        ⊎ (elem w.visiting key ≡ true) × (x ≡ cyclic_dag)
        ⊎ Failed f key w x
  unfolding visit
  visit_err f key w x e = elim (Option-cases (nodes key)) [
    | inl missing ↦ inl (ground arith)
    | inr (deps, found) ↦ elim (Bool-cases (elem w.visiting key)) [
      | inl on ↦ inr (inl (ground arith))
      | inr off ↦ elim (Result-cases (visit_each (visit nodes f) deps (enter key w))) [
        | inl (v, p) ↦ absurd (ground arith)
        | inr (y, p) ↦
            inr (inr (record { deps = deps; found = found; off_path = off; failed = ground arith }))
      ]
    ]
  ]

  pub visit-Lists :
      (f : ℕ) (key : Text) (w w' : Walk)
      → Agrees w
      → visit nodes f key w ≡ ok w'
      → Lists (key ∷ []) w w'
  visit-Lists zero key w w' a e = unfold visit in cc
  visit-Lists (suc f) key w w' a e = elim (visit_inv f key w w' e) [
    | inl (old, same) ↦
        subst (λ x. Lists (key ∷ []) w x) (sym same)
          (record { grows = Grows-refl w; agrees = a; listed = (sym (a key) ∙ old, tt) })
    | inr b ↦
        subst (λ x. Lists (key ∷ []) w x) (sym b.left)
          (visit-fresh key b.deps w b.inner b.off_path a
            (visit_each-Lists f (visit-Lists f) b.deps (enter key w) b.inner a b.walked))
  ]
