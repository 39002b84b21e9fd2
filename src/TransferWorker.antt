-- ===== src/TransferWorker.antt =====
-- The worker of site/transfer-worker.mjs, which owns the handles of staged download files. The file
-- system is the browser's: `Opfs` says what the worker relies on, and what it answers to a call comes
-- with the message. A number stands for a staging id.
pub mod Refinement
mod Tests
use wosh.Prelude.{
  ℕ, ◌+◌, ◌==◌, ◌≡◌, Bool, true, false, List, [], ◌∷◌, ◌++◌, Option, none, some, if◌then◌else◌,
  length, take,
}

-- Files with a synchronous access handle: a write at the end appends, and a new file is empty.
pub record Opfs : Type 1 where
  pub File : Type 0
  pub empty_file : File
  pub content : File → List ℕ
  pub write_at : List ℕ → ℕ → File → File
  pub content-empty_file : content empty_file ≡ []
  pub content-write_at :
      (bytes : List ℕ) (f : File)
      → content (write_at bytes (length (content f)) f) ≡ content f ++ bytes

-- An entry of the map `open`, without its handle.
pub record Entry : Type 0 where
  pub offset : ℕ
  pub flushed : ℕ

-- What the browser answers to a removal: it does not give the directory, does not remove the entry, or
-- removes it.
pub data Removal : Type 0 where
  no_directory kept_entry removed_entry : Removal

-- A message without its id. What the browser answers comes with it: whether it opens the handle, how
-- many of the bytes its `write` takes, if that does not throw and leave the file, whether its `flush`
-- does not throw, and how a removal goes.
pub data Message : Type 0 where
  opening : Bool → Bool → Message
  writing : List ℕ → Option ℕ → Message
  flushing : Bool → Message
  committing closing : Message
  removing : Removal → Message
  unknown : Message

-- `{ok: true, result}`, and the errors: `not_open` and `unknown_op` are the worker's own.
pub data Reply : Type 0 where
  ok : Option ℕ → Reply
  not_open unknown_op browser_error : Reply

module _ (fs : Opfs) where
  -- What there is of one id: its entry in the map, and its file.
  pub record Slot : Type 0 where
    pub entry : Option Entry
    pub file : Option fs.File

  -- `getFileHandle`
  unfoldable pub file_handle : Bool → Option fs.File → Option fs.File
  file_handle create (some f) = some f
  file_handle true none = some fs.empty_file
  file_handle false none = none

  unfoldable pub open_file : Bool → Option fs.File → Slot × Reply
  open_file granted none = (record { entry = none; file = none }, browser_error)
  open_file false (some f) = (record { entry = none; file = some f }, browser_error)
  open_file true (some f) =
      let size = length (fs.content f) in
      (
        record { entry = some (record { offset = size; flushed = size }); file = some f },
        ok (some size),
      )

  unfoldable pub do_open : Bool → Bool → Slot → Slot × Reply
  unfolding file_handle open_file
  do_open create granted s = elim s.entry [
    | some e ↦ (s, ok (some e.flushed))
    | none ↦ open_file granted (file_handle create s.file)
  ]

  -- `handle.write` and what follows it. The count that it returns is not looked at.
  unfoldable pub written_to : List ℕ → Option ℕ → Entry → Slot → Slot × Reply
  written_to bytes none e s = (s, browser_error)
  written_to bytes (some took) e s = (
    record {
      entry = some (record { offset = e.offset + length bytes; flushed = e.flushed });
      file = elim s.file [ none ↦ none | some f ↦ some (fs.write_at (take took bytes) e.offset f) ];
    },
    ok none,
  )

  -- The handle writes to the file that it was made of.
  unfoldable pub do_write : List ℕ → Option ℕ → Slot → Slot × Reply
  unfolding written_to
  do_write bytes took s = elim s.entry [ none ↦ (s, not_open) | some e ↦ written_to bytes took e s ]

  unfoldable pub flushed_to : Bool → Entry → Slot → Slot × Reply
  flushed_to false e s = (s, browser_error)
  flushed_to true e s = (
    record s { entry = some (record { offset = e.offset; flushed = e.offset }) },
    ok (some e.offset),
  )

  unfoldable pub do_flush : Bool → Slot → Slot × Reply
  unfolding flushed_to
  do_flush flushes s = elim s.entry [ none ↦ (s, not_open) | some e ↦ flushed_to flushes e s ]

  unfoldable pub do_committed : Slot → Slot × Reply
  do_committed s = elim s.entry [ none ↦ (s, not_open) | some e ↦ (s, ok (some e.flushed)) ]

  unfoldable pub do_close : Slot → Slot
  do_close s = record s { entry = none }

  -- The handle is closed before the directory is asked for; an entry that stays is not reported.
  unfoldable pub do_remove : Removal → Slot → Slot × Reply
  unfolding do_close
  do_remove no_directory s = (do_close s, browser_error)
  do_remove kept_entry s = (do_close s, ok none)
  do_remove removed_entry s = (record (do_close s) { file = none }, ok none)

  unfoldable pub on_slot : Message → Slot → Slot × Reply
  unfolding do_open do_write do_flush do_committed do_close do_remove
  on_slot (opening create granted) s = do_open create granted s
  on_slot (writing bytes took) s = do_write bytes took s
  on_slot (flushing flushes) s = do_flush flushes s
  on_slot committing s = do_committed s
  on_slot closing s = (do_close s, ok none)
  on_slot (removing r) s = do_remove r s
  on_slot unknown s = (s, unknown_op)

  -- The map and the directory, by id
  abbrev pub Worker : Type 0
  Worker = ℕ → Slot

  abbrev pub set : Worker → ℕ → Slot → Worker
  set w id s j = if j == id then s else w j

  -- `onmessage`
  unfoldable pub on_message : ℕ → Message → Worker → Worker × Reply
  unfolding on_slot
  on_message id m w = let done = on_slot m (w id) in (set w id done.0, done.1)

  -- A sequence of messages, with the replies in order.
  unfoldable pub run : List (ℕ × Message) → Worker → Worker × List Reply
  unfolding on_message
  run [] w = (w, [])
  run ((id, m) ∷ ms) w =
      let done = on_message id m w in let rest = run ms done.0 in (rest.0, done.1 ∷ rest.1)
