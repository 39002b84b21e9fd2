-- ===== src/TransferWorker/Refinement.antt =====
-- What the worker promises about one staging id while no write falls short: its file holds the bytes
-- of the writes that did not throw, and the resume anchor counts bytes that the file has.
use wosh.Prelude.{
  ℕ, ◌+◌, ◌≤◌, ◌==◌, ◌≡◌, refl, sym, ◌∙◌, ap, true, false, List, [], ◌∷◌, ◌++◌, Option, none, some,
  if◌then◌else◌, length, take-length_le, length-append, arith, Bool-cases, inl, inr,
}
use wosh.TransferWorker.{
  no_directory, kept_entry, removed_entry, Opfs, Entry, Message, opening, writing, flushing,
  committing, closing, removing, unknown, Reply, ok, not_open, unknown_op, browser_error, Slot,
  Worker, set, on_slot, on_message, run,
}

-- One id as its user sees it: the bytes, and for an open one how many of them are durable.
pub data Staged : Type 0 where
  missing : Staged
  closed : List ℕ → Staged
  opened : List ℕ → ℕ → Staged

abbrev pub promised : Message → Staged → Staged × Reply
promised (opening create granted) (opened bs n) = (opened bs n, ok (some n))
promised (opening create true) (closed bs) = (opened bs (length bs), ok (some (length bs)))
promised (opening create false) (closed bs) = (closed bs, browser_error)
promised (opening false granted) missing = (missing, browser_error)
promised (opening true true) missing = (opened [] 0, ok (some 0))
promised (opening true false) missing = (closed [], browser_error)
promised (writing more (some took)) (opened bs n) = (opened (bs ++ more) n, ok none)
promised (writing more none) (opened bs n) = (opened bs n, browser_error)
promised (writing more took) s = (s, not_open)
promised (flushing true) (opened bs n) = (opened bs (length bs), ok (some (length bs)))
promised (flushing false) (opened bs n) = (opened bs n, browser_error)
promised (flushing flushes) s = (s, not_open)
promised committing (opened bs n) = (opened bs n, ok (some n))
promised committing s = (s, not_open)
promised closing (opened bs n) = (closed bs, ok none)
promised closing s = (s, ok none)
promised (removing removed_entry) s = (missing, ok none)
promised (removing kept_entry) (opened bs n) = (closed bs, ok none)
promised (removing kept_entry) s = (s, ok none)
promised (removing no_directory) (opened bs n) = (closed bs, browser_error)
promised (removing no_directory) s = (s, browser_error)
promised unknown s = (s, unknown_op)

-- The browser takes all of the bytes of a write, unless it throws.
abbrev pub IsWhole : Message → Type 0
IsWhole (writing bytes (some took)) = took ≡ length bytes
IsWhole m = Unit

abbrev pub AreWhole : List (ℕ × Message) → Type 0
AreWhole [] = Unit
AreWhole ((id, m) ∷ ms) = IsWhole m × AreWhole ms

abbrev pub Promise : Type 0
Promise = ℕ → Staged

abbrev pub set_staged : Promise → ℕ → Staged → Promise
set_staged p id s j = if j == id then s else p j

abbrev pub promised_all : List (ℕ × Message) → Promise → Promise × List Reply
promised_all [] p = (p, [])
promised_all ((id, m) ∷ ms) p =
    let done = promised m (p id) in
    let rest = promised_all ms (set_staged p id done.0) in (rest.0, done.1 ∷ rest.1)

module _ (fs : Opfs) where
  -- The worker's state at an id, seen as its user sees it. The offset is the length of the file.
  abbrev pub Shows : Option Entry → Option fs.File → Staged → Type 0
  Shows none none missing = Unit
  Shows none (some f) (closed bs) = fs.content f ≡ bs
  Shows (some e) (some f) (opened bs n) =
      (fs.content f ≡ bs) × (e.offset ≡ length bs) × (e.flushed ≡ n) × (n ≤ length bs)
  Shows e f s = ⊥

  -- The step shows what was promised, and replies so.
  IsKept : Message → Slot fs → Staged → Type 0
  IsKept m slot s =
      Shows (on_slot fs m slot).0.entry (on_slot fs m slot).0.file (promised m s).0
      × ((on_slot fs m slot).1 ≡ (promised m s).1)

  sized :
      (f : fs.File) (bs : List ℕ)
      → fs.content f ≡ bs
      → Shows
          (some (record { offset = length (fs.content f); flushed = length (fs.content f) }))
          (some f)
          (opened bs (length bs))
        × (ok (some (length (fs.content f))) ≡ ok (some (length bs)))
  sized f bs h = ((h, ap length h, ap length h, ground arith), ap (λ cs. ok (some (length cs))) h)

  missing-IsKept : (m : Message) → IsKept m (record { entry = none; file = none }) missing
  unfolding IsKept on_slot
  missing-IsKept (opening true true) = sized fs.empty_file [] fs.content-empty_file
  missing-IsKept (opening true false) = (fs.content-empty_file, refl)
  missing-IsKept (opening false granted) = (tt, refl)
  missing-IsKept (writing more none) = (tt, refl)
  missing-IsKept (writing more (some took)) = (tt, refl)
  missing-IsKept (flushing true) = (tt, refl)
  missing-IsKept (flushing false) = (tt, refl)
  missing-IsKept committing = (tt, refl)
  missing-IsKept closing = (tt, refl)
  missing-IsKept (removing removed_entry) = (tt, refl)
  missing-IsKept (removing kept_entry) = (tt, refl)
  missing-IsKept (removing no_directory) = (tt, refl)
  missing-IsKept unknown = (tt, refl)

  closed-IsKept :
      (m : Message) (f : fs.File) (bs : List ℕ)
      → fs.content f ≡ bs
      → IsKept m (record { entry = none; file = some f }) (closed bs)
  unfolding IsKept on_slot
  closed-IsKept (opening create true) f bs h = sized f bs h
  closed-IsKept (opening create false) f bs h = (h, refl)
  closed-IsKept (writing more none) f bs h = (h, refl)
  closed-IsKept (writing more (some took)) f bs h = (h, refl)
  closed-IsKept (flushing true) f bs h = (h, refl)
  closed-IsKept (flushing false) f bs h = (h, refl)
  closed-IsKept committing f bs h = (h, refl)
  closed-IsKept closing f bs h = (h, refl)
  closed-IsKept (removing removed_entry) f bs h = (tt, refl)
  closed-IsKept (removing kept_entry) f bs h = (h, refl)
  closed-IsKept (removing no_directory) f bs h = (h, refl)
  closed-IsKept unknown f bs h = (h, refl)

  opened-IsKept :
      (m : Message) (e : Entry) (f : fs.File) (bs : List ℕ) (n : ℕ)
      → IsWhole m
      → Shows (some e) (some f) (opened bs n)
      → IsKept m (record { entry = some e; file = some f }) (opened bs n)
  unfolding IsKept on_slot
  opened-IsKept (opening create granted) e f bs n a h = (h, ap (λ i. ok (some i)) h.2)
  opened-IsKept (writing more none) e f bs n a h = (h, refl)
  opened-IsKept (writing more (some took)) e f bs n a h = (
    (
      ap (λ bytes. fs.content (fs.write_at bytes e.offset f))
            (take-length_le took more (omega (arith, a)))
          ∙ ap (λ k. fs.content (fs.write_at more k f)) (h.1 ∙ sym (ap length h.0))
          ∙ (fs.content-write_at more f ∙ ap (λ cs. cs ++ more) h.0),
      ap (λ k. k + length more) h.1 ∙ sym (length-append bs more),
      h.2,
      ground (arith, length-append bs more, h.3),
    ),
    refl,
  )
  opened-IsKept (flushing false) e f bs n a h = (h, refl)
  opened-IsKept (flushing true) e f bs n a h =
      ((h.0, h.1, h.1, ground arith), ap (λ i. ok (some i)) h.1)
  opened-IsKept committing e f bs n a h = (h, ap (λ i. ok (some i)) h.2)
  opened-IsKept closing e f bs n a h = (h.0, refl)
  opened-IsKept (removing removed_entry) e f bs n a h = (tt, refl)
  opened-IsKept (removing kept_entry) e f bs n a h = (h.0, refl)
  opened-IsKept (removing no_directory) e f bs n a h = (h.0, refl)
  opened-IsKept unknown e f bs n a h = (h, refl)

  on_slot-IsKept :
      (m : Message) (e : Option Entry) (f : Option fs.File) (s : Staged)
      → IsWhole m
      → Shows e f s
      → IsKept m (record { entry = e; file = f }) s
  on_slot-IsKept m none none missing a h = missing-IsKept m
  on_slot-IsKept m none (some f) (closed bs) a h = closed-IsKept m f bs h
  on_slot-IsKept m (some e) (some f) (opened bs n) a h = opened-IsKept m e f bs n a h
  on_slot-IsKept m none none (closed bs) a h = elim h [ ]
  on_slot-IsKept m none none (opened bs n) a h = elim h [ ]
  on_slot-IsKept m none (some f) missing a h = elim h [ ]
  on_slot-IsKept m none (some f) (opened bs n) a h = elim h [ ]
  on_slot-IsKept m (some e) none s a h = elim h [ ]
  on_slot-IsKept m (some e) (some f) missing a h = elim h [ ]
  on_slot-IsKept m (some e) (some f) (closed bs) a h = elim h [ ]

  -- The whole worker shows what its user was promised.
  pub IsShown : Worker fs → Promise → Type 0
  IsShown w p = (j : ℕ) → Shows (w j).entry (w j).file (p j)

  set-IsShown :
      (w : Worker fs) (p : Promise) (id : ℕ) (slot : Slot fs) (s : Staged)
      → IsShown w p
      → Shows slot.entry slot.file s
      → IsShown (set fs w id slot) (set_staged p id s)
  unfolding IsShown
  set-IsShown w p id slot s h hs j = elim (Bool-cases (j == id)) [
    | inl e ↦ rw e hs
    | inr e ↦ rw e (h j)
  ]

  -- The worker replies what is promised and goes on showing it.
  pub run-IsShown :
      (ms : List (ℕ × Message)) (w : Worker fs) (p : Promise)
      → AreWhole ms
      → IsShown w p
      → IsShown (run fs ms w).0 (promised_all ms p).0 × ((run fs ms w).1 ≡ (promised_all ms p).1)
  unfolding run on_message IsShown IsKept
  run-IsShown [] w p a h = (h, refl)
  run-IsShown ((id, m) ∷ ms) w p (a, b) h =
      let kept = on_slot-IsKept m (w id).entry (w id).file (p id) a (h id) in
      let rest =
        run-IsShown ms _ _ b
          (set-IsShown w p id (on_slot fs m (w id)).0 (promised m (p id)).0 h kept.0) in
      (
        rest.0,
        ap (λ r. r ∷ (run fs ms (on_message fs id m w).0).1) kept.1
            ∙ ap (λ rs. (promised m (p id)).1 ∷ rs) rest.1,
      )

pub run-IsShown_of_empty :
    (fs : Opfs) (ms : List (ℕ × Message))
    → AreWhole ms
    → IsShown fs
        (run fs ms (λ j. record { entry = none; file = none })).0
        (promised_all ms (λ j. missing)).0
      × ((run fs ms (λ j. record { entry = none; file = none })).1
          ≡ (promised_all ms (λ j. missing)).1)
unfolding IsShown
run-IsShown_of_empty fs ms a = run-IsShown fs ms _ _ a (λ j. tt)
