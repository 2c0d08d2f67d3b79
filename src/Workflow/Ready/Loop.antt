-- ===== src/Workflow/Ready/Loop.antt =====
-- One round of the loop of `readyBatch`: what each branch returns, and what falls along it.
use mathlib.Core.List.{append-nil, append_assoc}
use code_fleet.Prelude.{
  ℕ, suc, ◌≤◌, ◌<◌, ◌≡◌, sym, ap, ◌∙◌, true, false, ◌||◌, none, some, List, [], ◌∷◌, ◌++◌, Text,
  ◌==◌, ==_iff, elem, elem-append, any, length, length-append, nat_eq, if◌then◌else◌, arith,
}
use code_fleet.Workflow.{
  WorkItem, Workflow, parallel_limit, item_of, States, is_ready, ids, overlap,
}
use code_fleet.Workflow.Ready.{next_ready, consider, batch_from}

abbrev pub resources_of : List WorkItem → List Text
resources_of [] = []
resources_of (n ∷ ns) = n.resources ++ resources_of ns

pub resources_of-snoc :
    (ns : List WorkItem) (n : WorkItem)
    → resources_of (ns ++ n ∷ []) ≡ resources_of ns ++ n.resources
resources_of-snoc [] n = append-nil n.resources
resources_of-snoc (m ∷ ns) n =
    ap (λ r. m.resources ++ r) (resources_of-snoc ns n)
    ∙ sym (append_assoc m.resources (resources_of ns) n.resources)

pub overlap-append : (xs ys zs : List Text) → overlap xs ys ≡ true → overlap xs (ys ++ zs) ≡ true
overlap-append [] ys zs h = h
overlap-append (x ∷ xs) ys zs h = ground (arith, elem-append ys zs x, overlap-append xs ys zs)

pub ids-snoc :
    (ns : List WorkItem) (n : WorkItem) (k : Text)
    → elem (ids (ns ++ n ∷ [])) k ≡ (elem (ids ns) k || n.id == k)
unfolding elem
ids-snoc [] n k = ground arith
ids-snoc (m ∷ ns) n k = ground (arith, ids-snoc ns n k)

pub ready_count : States → List WorkItem → ℕ
ready_count remaining [] = 0
ready_count remaining (n ∷ ns) =
    let rest = ready_count remaining ns in if is_ready (remaining n.id) then suc rest else rest

pub ready_count-le_length : (s : States) (ns : List WorkItem) → ready_count s ns ≤ length ns
unfolding ready_count
ready_count-le_length s [] = omega arith
ready_count-le_length s (n ∷ ns) = ground (arith, ready_count-le_length s ns)

ready_count-le :
    (k : Text) (s : States) (ns : List WorkItem) → ready_count (consider k s) ns ≤ ready_count s ns
unfolding ready_count
ready_count-le k s [] = omega arith
ready_count-le k s (n ∷ ns) = ground (arith, ready_count-le k s ns)

pub ready_count-lt :
    (k : Text) (s : States) (ns : List WorkItem)
    → any (λ n. n.id == k) ns ≡ true
    → is_ready (s k) ≡ true
    → ready_count (consider k s) ns < ready_count s ns
unfolding ready_count
ready_count-lt k s [] h r = cc
ready_count-lt k s (n ∷ ns) h r = ground (
  arith,
  ==_iff n.id k,
  ==_iff k n.id,
  ready_count-le k s ns,
  ready_count-lt k s ns,
  λ (e : n.id ≡ k). ap s e,
)

pub still_room :
    (chosen : List WorkItem) (m : WorkItem) (limit : ℕ)
    → length chosen < limit
    → nat_eq (length (chosen ++ m ∷ [])) limit ≡ false
    → length (chosen ++ m ∷ []) < limit
still_room chosen m limit few more = ground (arith, length-append chosen (m ∷ []))

pub item_of-any :
    (ns : List WorkItem) (k : Text) (n : WorkItem)
    → item_of ns k ≡ some n
    → any (λ m. m.id == k) ns ≡ true
unfolding item_of
item_of-any [] k n h = cc
item_of-any (m ∷ ns) k n h = ground (arith, item_of-any ns k n)

module _ (f : ℕ) (w : Workflow) (remaining : States) (chosen : List WorkItem)
    (resources : List Text) where
  pub batch_stop :
      next_ready w remaining ≡ none → batch_from (suc f) w remaining chosen resources ≡ chosen
  unfolding batch_from
  batch_stop stop = ground arith

  module _ (m : WorkItem) (found : next_ready w remaining ≡ some m) where
    pub batch_skip :
        overlap m.resources resources ≡ true
        → batch_from (suc f) w remaining chosen resources
          ≡ batch_from f w (consider m.id remaining) chosen resources
    unfolding batch_from
    batch_skip shared = ground arith

    pub batch_full :
        overlap m.resources resources ≡ false
        → nat_eq (length (chosen ++ m ∷ [])) (parallel_limit w) ≡ true
        → batch_from (suc f) w remaining chosen resources ≡ chosen ++ m ∷ []
    unfolding batch_from
    batch_full apart full = ground arith

    pub batch_more :
        overlap m.resources resources ≡ false
        → nat_eq (length (chosen ++ m ∷ [])) (parallel_limit w) ≡ false
        → batch_from (suc f) w remaining chosen resources
          ≡ batch_from f w (consider m.id remaining) (chosen ++ m ∷ []) (resources ++ m.resources)
    unfolding batch_from
    batch_more apart more = ground arith
