-- ===== src/DiskQueue.antt =====
-- src/internal/delivery/DiskSpillQueue.ts: the files behind a lane.
--
-- The file system and JSON are parameters. A `FileSystem` is what node's calls do with the files of
-- the queue's directory, which are named without the directory. A call that is made and not awaited
-- is pending until it is settled, and a `Write` is what it has taken with it.
pub mod Reliable
pub mod Stored
pub mod Contents
pub mod Recovery
pub mod Calls
pub mod Writing
pub mod Clearing
pub mod Reopening
pub mod Fifo
pub mod Interface
pub mod Failures
pub mod Interleaving
pub mod Reordering
pub mod Lanes
use Prim.Native.String.{String, ◌++◌ as str_append}
use stream_fence_js.Prelude.{
  ℕ, zero, suc, Bool, true, false, ◌||◌, Option, none, some, List, [], ◌∷◌, ◌++◌, length, ℤ, pos,
  negsuc, lt_ℤ, is_negative, Result, ok, throws, ◌>>=◌, if◌then◌else◌,
}
use stream_fence_js.Message.{LaneEntry, Heap}
use stream_fence_js.Spill.Entry.{SpilledEntryData, serialize, deserialize}
use stream_fence_js.FileNames
use stream_fence_js.FileNames.{
  sort, ends_with, having_suffix, file_name, next_number, number_of_name,
}

-- A call that may be refused says whether it was done.
pub record FileSystem : Type 1 where
  pub Disk : Type 0
  pub mkdir : Disk → Result Disk
  pub readdir : Disk → Result (List String)
  pub write_file : String → String → Disk → Bool × Disk
  pub rename : String → String → Disk → Bool × Disk
  pub read_file : String → Disk → Option String
  pub unlink : String → Disk → Bool × Disk

-- `JSON.stringify` may refuse a value, and `JSON.parse` a text.
pub record Json (P : Type 0) : Type 0 where
  pub stringify : SpilledEntryData P → Option String
  pub parse : String → Option (SpilledEntryData P)

pub record Write : Type 0 where
  pub filename : String
  pub text : Option String

-- `nextSeq` is NaN where `none` stands.
pub record DiskSpillQueue (f : FileSystem) : Type 0 where
  pub disk : f.Disk
  pub count : ℤ
  pub next_seq : Option ℤ
  pub flush_promises : List Write

abbrev pub sub_one : ℤ → ℤ
sub_one (pos zero) = negsuc zero
sub_one (pos (suc n)) = pos n
sub_one (negsuc n) = negsuc (suc n)

-- `Math.max(0, n)`
abbrev pub max_zero : ℤ → ℤ
max_zero n = if is_negative n then pos 0 else n

abbrev pub take : {A : Type 0} → ℕ → List A → List A
take zero xs = []
take (suc n) [] = []
take (suc n) (x ∷ xs) = x ∷ take n xs

abbrev pub last_name : String → List String → String
last_name name [] = name
last_name name (next ∷ names) = last_name next names

unfoldable pub first_seq : List String → Option ℤ
unfolding number_of_name
first_seq [] = some (pos 1)
first_seq (name ∷ names) = next_number (number_of_name (last_name name names))

-- The files of entries, in their order.
unfoldable pub entry_files : List String → List String
unfolding sort having_suffix
entry_files names = sort (having_suffix ".json" names)

abbrev pub tmp_name : String → String
tmp_name filename = str_append filename ".tmp"

module _ (f : FileSystem) where
  unfoldable pub unlink_leftovers : List String → f.Disk → f.Disk
  unlink_leftovers [] disk = disk
  unlink_leftovers (name ∷ names) disk =
      unlink_leftovers names
        (if ends_with ".json" name || ends_with ".tmp" name then (f.unlink name disk).1 else disk)

  -- What `clear` does with the files that it finds, if it can list them.
  unfoldable pub clear_files : Result (List String) → f.Disk → f.Disk
  unfolding unlink_leftovers
  clear_files (ok names) disk = unlink_leftovers names disk
  clear_files (throws _) disk = disk

module _ {f : FileSystem} where
  -- the constructor
  unfoldable pub new_queue : f.Disk → Result (DiskSpillQueue f)
  unfolding entry_files first_seq
  new_queue disk = do
    disk' ← f.mkdir disk
    names ← f.readdir disk'
    let existing = entry_files names
    ok (record {
      disk = disk';
      count = pos (length existing);
      next_seq = first_seq existing;
      flush_promises = [];
    })

  abbrev pub write_failed : DiskSpillQueue f → DiskSpillQueue f
  write_failed q = record q { count = max_zero (sub_one q.count) }

  abbrev pub after_rename : Bool × f.Disk → DiskSpillQueue f → DiskSpillQueue f
  after_rename (true, disk) q = record q { disk = disk }
  after_rename (false, disk) q = write_failed (record q { disk = disk })

  abbrev pub after_write : String → Bool × f.Disk → DiskSpillQueue f → DiskSpillQueue f
  after_write filename (true, disk) q = after_rename (f.rename (tmp_name filename) filename disk) q
  after_write filename (false, disk) q = write_failed (record q { disk = disk })

  -- The calls of `writeEntry` on the files.
  unfoldable pub write_entry : Write → DiskSpillQueue f → DiskSpillQueue f
  write_entry w q = elim w.text [
    | none ↦ write_failed q
    | some text ↦ after_write w.filename (f.write_file (tmp_name w.filename) text q.disk) q
  ]

  unfoldable pub settle : List Write → DiskSpillQueue f → DiskSpillQueue f
  unfolding write_entry
  settle [] q = q
  settle (w ∷ writes) q = settle writes (write_entry w q)

  -- The pending writes are done, in the order in which they were made.
  unfoldable pub flush : DiskSpillQueue f → DiskSpillQueue f
  unfolding settle
  flush q = settle q.flush_promises (record q { flush_promises = [] })

  abbrev pub after_unlink : Bool × f.Disk → DiskSpillQueue f → DiskSpillQueue f
  after_unlink (true, disk) q = record q { disk = disk; count = sub_one q.count }
  after_unlink (false, disk) q = record q { disk = disk }

  unfoldable pub has_spilled : DiskSpillQueue f → Bool
  has_spilled q = lt_ℤ (pos 0) q.count

  unfoldable pub spilled_count : DiskSpillQueue f → ℤ
  spilled_count q = q.count

  unfoldable pub clear : DiskSpillQueue f → DiskSpillQueue f
  unfolding settle clear_files
  clear q =
      let settled = settle q.flush_promises (record q { flush_promises = []; count = pos 0 }) in
      record settled { disk = clear_files f (f.readdir settled.disk) settled.disk }

module _ {P : Type 0} (f : FileSystem) (j : Json P) where
  -- The entry of a file, or `none` if the file is skipped.
  unfoldable pub read_entry : String → Heap → f.Disk → Option (LaneEntry P × Heap)
  unfolding deserialize
  read_entry file h disk = elim (f.read_file file disk) [
    | none ↦ none
    | some raw ↦ elim (j.parse raw) [
      | none ↦ none
      | some spilled_data ↦ elim (deserialize spilled_data h) [
        | ok restored ↦ some restored
        | throws _ ↦ none
      ]
    ]
  ]

module _ {P : Type 0} {f : FileSystem} (j : Json P) where
  -- `spill`, which calls `writeEntry` and does not wait for it.
  unfoldable pub spill : Heap → LaneEntry P → DiskSpillQueue f → DiskSpillQueue f
  unfolding serialize file_name
  spill h entry q = record {
    disk = q.disk;
    count = FileNames.add_one q.count;
    next_seq = next_number q.next_seq;
    flush_promises =
        q.flush_promises
        ++ record { filename = file_name q.next_seq; text = j.stringify (serialize h entry) } ∷ [];
  }

  -- The loop over the files to recover; an entry is pushed before its file is removed.
  unfoldable pub recover_loop :
      List String → Heap → DiskSpillQueue f → List (LaneEntry P) × Heap × DiskSpillQueue f
  unfolding read_entry
  recover_loop [] h q = ([], h, q)
  recover_loop (file ∷ files) h q = elim (read_entry f j file h q.disk) [
    | none ↦ recover_loop files h q
    | some (entry, h') ↦
        let (entries, h'', q') = recover_loop files h' (after_unlink (f.unlink file q.disk) q) in
        (entry ∷ entries, h'', q')
  ]

  unfoldable pub recover_names :
      ℕ → List String → Heap → DiskSpillQueue f → List (LaneEntry P) × Heap × DiskSpillQueue f
  unfolding recover_loop entry_files
  recover_names max_count names h q = recover_loop (take max_count (entry_files names)) h q

  -- `recover`, with no other call between its awaits.
  unfoldable pub recover :
      ℕ → Heap → DiskSpillQueue f → Result (List (LaneEntry P) × Heap × DiskSpillQueue f)
  unfolding flush recover_names
  recover max_count h q = do
    names ← f.readdir (flush q).disk
    ok (recover_names max_count names h (flush q))
