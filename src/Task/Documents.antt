-- ===== src/Task/Documents.antt =====
-- The documents of the approved revisions, for src/task-revision.ts: a number is claimed once, and reading
-- verifies the hash of the content. The snapshot of the relations is given.
use code_fleet.Prelude.{
  ℕ, Bool, false, not, Option, none, some, List, [], ◌∷◌, ◌++◌, ◌≡◌, arith, Text, ◌==◌, ==_iff, any,
  find?, nat_eq, Result, ok, err, if◌then◌else◌,
}

pub record TaskRevisionDocument : Type 0 where
  pub document_task_id : Text
  pub document_revision : ℕ
  pub created_at : Text
  pub source : Text
  pub content_hash : Text
  pub document_target_hash : Text
  pub document_guardrail_hash : Text
  pub document_mutation_id : Text
  pub document_event_id : Text
  pub document_actor_id : Text
  pub document_reason : Text
  pub objective_relations : List Text

pub data RevisionDefect : Type 0 where
  no_stored_revision stored_revision_altered : RevisionDefect

pub of_document : ℕ → TaskRevisionDocument → Bool
of_document revision d = nat_eq d.document_revision revision

-- `writeTaskRevision`: a revision number is claimed once.
pub write_task_revision :
    TaskRevisionDocument → List TaskRevisionDocument → Option (List TaskRevisionDocument)
write_task_revision document revisions =
    if any (of_document document.document_revision) revisions
    then none
    else some (revisions ++ document ∷ [])

module _ (sha256 : Text → Text) where
  -- `readTaskRevision`
  pub read_task_revision :
      ℕ → List TaskRevisionDocument → Result RevisionDefect TaskRevisionDocument
  read_task_revision revision revisions = elim (find? (of_document revision) revisions) [
    | none ↦ err no_stored_revision
    | some document ↦
        if not (sha256 document.source == document.content_hash)
        then err stored_revision_altered
        else ok document
  ]

find?-append :
    (revision : ℕ) (documents : List TaskRevisionDocument) (d : TaskRevisionDocument)
    → any (of_document revision) documents ≡ false
    → d.document_revision ≡ revision
    → find? (of_document revision) (documents ++ d ∷ []) ≡ some d
unfolding of_document
find?-append revision [] d h e = ground arith
find?-append revision (x ∷ xs) d h e =
    let rest = find?-append revision xs d (ground arith) e in ground arith

pub document-written :
    (d : TaskRevisionDocument) (documents : List TaskRevisionDocument)
    → any (of_document d.document_revision) documents ≡ false
    → write_task_revision d documents ≡ some (documents ++ d ∷ [])
unfolding write_task_revision
document-written d documents h = ground arith

module _ (sha256 : Text → Text) where
  pub document-read :
      (revision : ℕ) (d : TaskRevisionDocument) (documents : List TaskRevisionDocument)
      → any (of_document revision) documents ≡ false
      → d.document_revision ≡ revision
      → sha256 d.source ≡ d.content_hash
      → read_task_revision sha256 revision (documents ++ d ∷ []) ≡ ok d
  unfolding read_task_revision
  document-read revision d documents h e k =
      let found = find?-append revision documents d h e in
      let same = (==_iff (sha256 d.source) d.content_hash).1 k in ground arith
