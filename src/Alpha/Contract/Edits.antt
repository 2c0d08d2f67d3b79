-- ===== src/Alpha/Contract/Edits.antt =====
-- What applying a proposal's edits can change.
use code_fleet.Prelude.{
  ◌≤◌, ◌≡◌, ◌≢◌, sym, ◌∙◌, length, cut_first, contains-absent, inl, inr, true, false, none, some,
  List, [], ◌∷◌, ◌++◌, Text, ==_iff, elem, cut, cut_lem, contains, ok, >>=-eq-ok, Option-cases,
  Result-cases, Bool-cases, ap, arith,
}
use code_fleet.Alpha.Contract.{
  Contract, Edit, Files, put, replace_once, apply_edit, apply_each, apply_edits,
}

-- `source` is split at the first occurrence of `old`, which does not occur again in what follows it, and
-- `out` has `new` in its place.
pub record Replaced (old new source out : Text) : Type 0 where
  pub before : Text
  pub after : Text
  pub source_split : source ≡ before ++ (old ++ after)
  pub is_first : (p q : Text) → source ≡ p ++ (old ++ q) → length before ≤ length p
  pub no_further : (p q : Text) → after ≢ p ++ (old ++ q)
  pub out_split : out ≡ before ++ (new ++ after)

replace_once-Replaced :
    (old new source out : Text)
    → replace_once old new source ≡ some out
    → Replaced old new source out
unfolding replace_once
replace_once-Replaced old new source out h = elim (Option-cases (cut old source)) [
  | inl absent ↦ absurd (ground arith)
  | inr ((a, b), found) ↦ elim (Bool-cases (contains old b)) [
    | inl again ↦ absurd (ground arith)
    | inr once ↦ record {
      before = a;
      after = b;
      source_split = cut_lem old source a b found;
      is_first = λ p q e. cut_first old source a b p q found e;
      no_further = λ p q. contains-absent old b p q once;
      out_split = ground arith;
    }
  ]
]

-- An accepted edit names a delegated file, replaces one occurrence in it and touches no other file.
pub record Edited (c : Contract) (e : Edit) (files files' : Files) : Type 0 where
  pub delegated : elem c.files e.path ≡ true
  pub source : Text
  pub out : Text
  pub held : files e.path ≡ some source
  pub replaced : Replaced e.old_text e.new_text source out
  pub result : files' ≡ put files e.path out

apply_edit-Edited :
    (c : Contract) (e : Edit) (files files' : Files)
    → apply_edit c e files ≡ ok files'
    → Edited c e files files'
unfolding apply_edit
apply_edit-Edited c e files files' h = elim (Option-cases (files e.path)) [
  | inl missing ↦ absurd (ground arith)
  | inr (source, held) ↦ elim (Option-cases (replace_once e.old_text e.new_text source)) [
    | inl unmatched ↦ absurd (ground arith)
    | inr (out, done) ↦ record {
      delegated = ground arith;
      source = source;
      out = out;
      held = held;
      replaced = replace_once-Replaced e.old_text e.new_text source out done;
      result = ground arith;
    }
  ]
]

-- No file outside the contract's changes, and none is created or removed.
pub record Contained (c : Contract) (files files' : Files) : Type 0 where
  pub outside : (p : Text) → elem c.files p ≡ false → files' p ≡ files p
  pub absent : (p : Text) → files p ≡ none → files' p ≡ none
  pub kept : (p : Text) → files' p ≡ none → files p ≡ none

apply_edit-Contained :
    (c : Contract) (e : Edit) (files files' : Files)
    → Edited c e files files'
    → Contained c files files'
apply_edit-Contained c e files files' d = record {
  outside = λ p out.
      rw d.result
        (ground (arith, ==_iff e.path p, d.delegated, λ (q : e.path ≡ p). ap (elem c.files) q));
  absent = λ p gone.
      rw d.result (ground (arith, ==_iff e.path p, d.held, λ (q : e.path ≡ p). ap files q));
  kept = λ p gone.
      let there : put files e.path d.out p ≡ none = ap (λ (f : Files). f p) (sym d.result) ∙ gone in
      ground arith;
}

apply_each-Contained :
    (c : Contract) (es : List Edit) (files files' : Files)
    → apply_each c es files ≡ ok files'
    → Contained c files files'
unfolding apply_each
apply_each-Contained c [] files files' h =
    let same : files ≡ files' = cc in
    record {
      outside = λ p out. ap (λ (f : Files). f p) (sym same);
      absent = λ p gone. ap (λ (f : Files). f p) (sym same) ∙ gone;
      kept = λ p gone. ap (λ (f : Files). f p) same ∙ gone;
    }
apply_each-Contained c (e ∷ es) files files' h =
    let (mid, first, later) = >>=-eq-ok (apply_edit c e files) (apply_each c es) h in
    let one = apply_edit-Contained c e files mid (apply_edit-Edited c e files mid first) in
    let rest = apply_each-Contained c es mid files' later in
    record {
      outside = λ p out. rest.outside p out ∙ one.outside p out;
      absent = λ p gone. rest.absent p (one.absent p gone);
      kept = λ p gone. one.kept p (rest.kept p gone);
    }

-- A proposal whose edits are accepted leaves every file outside the contract's `files` as it was,
-- and creates and removes no file.
pub apply_edits-Contained :
    (c : Contract) (originals files : Files) (summary : Text) (edits : List Edit)
    → apply_edits c originals summary edits ≡ ok files
    → Contained c originals files
unfolding apply_edits
apply_edits-Contained c originals files summary edits h =
    apply_each-Contained c edits originals files (ground arith)

-- A proposal of one edit, if accepted, replaces the old text in a delegated file at its first occurrence,
-- after which it does not occur again, and that is all it changes.
pub apply_edits-Edited :
    (c : Contract) (originals files : Files) (summary : Text) (e : Edit)
    → apply_edits c originals summary (e ∷ []) ≡ ok files
    → Edited c e originals files
unfolding apply_edits apply_each
apply_edits-Edited c originals files summary e h = elim (Result-cases (apply_edit c e originals)) [
  | inl (mid, done) ↦ apply_edit-Edited c e originals files (done ∙ ground (arith))
  | inr (x, refused) ↦ absurd (ground arith)
]
