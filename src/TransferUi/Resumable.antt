-- ===== src/TransferUi/Resumable.antt =====
-- The downloads that a page load finds unfinished, and their resumption.
use wosh.Prelude.{
  ℕ, ◌==◌, ◌≡◌, refl, sym, ap, ◌∙◌, subst, ==_iff, Bool, true, false, ◌&&◌, ◌||◌, not, List, [],
  ◌∷◌, ◌++◌, Option, none, some, ◌⊎◌, inl, inr, if◌then◌else◌, leb, arith, Bool-cases,
}

-- A record of a transfer, as IndexedDB keeps it. Numbers stand for its id and its staging id.
pub record SavedTransfer : Type 0 where
  pub id : ℕ
  pub is_download : Bool
  pub total : Option ℕ
  pub staging_id : ℕ

-- The records, the lengths of the staged files that there are, and the keys of the map `transfers`,
-- a resumable one with the length of its file.
pub record TransferStore : Type 0 where
  pub records : List SavedTransfer
  pub files : ℕ → Option ℕ
  pub transfers : List (ℕ × Option ℕ)

-- `transfers.has`
abbrev pub has_transfer : ℕ → List (ℕ × Option ℕ) → Bool
has_transfer k [] = false
has_transfer k ((j, n) ∷ ts) = k == j || has_transfer k ts

-- `idbDelete`
unfoldable pub idb_delete : ℕ → List SavedTransfer → List SavedTransfer
idb_delete k [] = []
idb_delete k (r ∷ rs) = let rest = idb_delete k rs in if k == r.id then rest else r ∷ rest

-- `removeStaged`
abbrev pub remove_staged : ℕ → (ℕ → Option ℕ) → ℕ → Option ℕ
remove_staged k files j = if j == k then none else files j

-- `record.total != null && stagedBytes >= record.total`
abbrev pub is_complete : Option ℕ → ℕ → Bool
is_complete none staged_bytes = false
is_complete (some total) staged_bytes = leb total staged_bytes

abbrev pub self_heal : SavedTransfer → TransferStore → TransferStore
self_heal r s = record s {
  records = idb_delete r.id s.records;
  files = remove_staged r.staging_id s.files;
}

abbrev pub offer_resumable : SavedTransfer → ℕ → TransferStore → TransferStore
offer_resumable r n s = record s { transfers = s.transfers ++ (r.id, some n) ∷ [] }

-- What is done with a record, by the length of its file.
abbrev pub visit_file : SavedTransfer → Option ℕ → TransferStore → TransferStore
visit_file r none s = record s { records = idb_delete r.id s.records }
visit_file r (some n) s = if is_complete r.total n then self_heal r s else offer_resumable r n s

unfoldable pub visit : SavedTransfer → TransferStore → TransferStore
unfolding idb_delete
visit r s =
    if not r.is_download || has_transfer r.id s.transfers
    then s
    else visit_file r (s.files r.staging_id) s

-- The loop of `loadResumable`, over the records that `idbAll` gave.
unfoldable pub visit_all : List SavedTransfer → TransferStore → TransferStore
unfolding visit
visit_all [] s = s
visit_all (r ∷ rs) s = visit_all rs (visit r s)

-- `loadResumable`
unfoldable pub load_resumable : TransferStore → TransferStore
unfolding visit_all
load_resumable s = visit_all s.records s

-- `transfers.delete`
unfoldable pub drop_transfer : ℕ → List (ℕ × Option ℕ) → List (ℕ × Option ℕ)
drop_transfer k [] = []
drop_transfer k ((j, n) ∷ ts) =
    let rest = drop_transfer k ts in if k == j then ts else (j, n) ∷ rest

-- `resumeDownload` with what `beginDownload` stores, for the id that is drawn. The order that
-- IndexedDB keeps records in is left out.
unfoldable pub resume_download : SavedTransfer → ℕ → TransferStore → TransferStore
unfolding drop_transfer
resume_download r fresh_id s = record s {
  records = s.records ++ (record r { id = fresh_id }) ∷ [];
  transfers = drop_transfer r.id s.transfers ++ (fresh_id, none) ∷ [];
}

-- `retryTransfer` of a download, through `beginDownload`: with `overwrite` ("start over") the staged
-- file is removed first, where the browser does that.
unfoldable pub retry_download : SavedTransfer → Bool → Bool → ℕ → TransferStore → TransferStore
unfolding drop_transfer
retry_download r overwrite removes fresh_id s = record s {
  records = s.records ++ (record r { id = fresh_id }) ∷ [];
  files = (if overwrite && removes then remove_staged r.staging_id s.files else s.files);
  transfers = drop_transfer r.id s.transfers ++ (fresh_id, none) ∷ [];
}

-- `discardResumable`
unfoldable pub discard_resumable : SavedTransfer → TransferStore → TransferStore
unfolding drop_transfer idb_delete
discard_resumable r s = record s {
  records = idb_delete r.id s.records;
  files = remove_staged r.staging_id s.files;
  transfers = drop_transfer r.id s.transfers;
}

-- A record of a download into a file has reached its total, with the file of this length.
abbrev pub IsComplete : ℕ → ℕ → SavedTransfer → Type 0
IsComplete k n r = (r.is_download ≡ true) × (r.staging_id ≡ k) × (is_complete r.total n ≡ true)

abbrev pub SomeComplete : ℕ → ℕ → List SavedTransfer → Type 0
SomeComplete k n [] = ⊥
SomeComplete k n (r ∷ rs) = IsComplete k n r ⊎ SomeComplete k n rs

visit_file_careful :
    (k n : ℕ) (r : SavedTransfer) (o : Option ℕ) (s : TransferStore)
    → r.is_download ≡ true
    → s.files r.staging_id ≡ o
    → s.files k ≡ some n
    → ((visit_file r o s).files k ≡ some n) ⊎ IsComplete k n r
visit_file_careful k n r none s d e h = inl h
visit_file_careful k n r (some m) s d e h = elim (Bool-cases (is_complete r.total m)) [
  | inl c ↦ elim (Bool-cases (k == r.staging_id)) [
    | inl q ↦
        let here : r.staging_id ≡ k = sym ((==_iff k r.staging_id).0 q) in
        let same : m ≡ n = some_injective (sym e ∙ ap s.files here ∙ h) in
        inr (d, here, subst (λ x. is_complete r.total x ≡ true) same c)
    | inr q ↦ inl (rw c (rw q h))
  ]
  | inr c ↦ inl (rw c h)
]
  where
    some_injective : {a b : ℕ} → some a ≡ some b → a ≡ b
    some_injective h = cc

visit_careful :
    (k n : ℕ) (r : SavedTransfer) (s : TransferStore)
    → s.files k ≡ some n
    → ((visit r s).files k ≡ some n) ⊎ IsComplete k n r
unfolding visit
visit_careful k n r s h = elim (Bool-cases (not r.is_download || has_transfer r.id s.transfers)) [
  | inl e ↦ inl (rw e h)
  | inr e ↦ rw e (visit_file_careful k n r (s.files r.staging_id) s (ground arith) refl h)
]

visit_all_careful :
    (k n : ℕ) (rs : List SavedTransfer) (s : TransferStore)
    → s.files k ≡ some n
    → ((visit_all rs s).files k ≡ some n) ⊎ SomeComplete k n rs
unfolding visit_all
visit_all_careful k n [] s h = inl h
visit_all_careful k n (r ∷ rs) s h = elim (visit_careful k n r s h) [
  | inl kept ↦ elim (visit_all_careful k n rs (visit r s) kept) [
    | inl e ↦ inl e
    | inr c ↦ inr (inr c)
  ]
  | inr c ↦ inr (inl c)
]

-- Looking for downloads to resume removes no staged file but one that has reached the total of a
-- record of a download into it.
pub load_resumable_careful :
    (k n : ℕ) (s : TransferStore)
    → s.files k ≡ some n
    → ((load_resumable s).files k ≡ some n) ⊎ SomeComplete k n s.records
unfolding load_resumable
load_resumable_careful k n s h = visit_all_careful k n s.records s h
