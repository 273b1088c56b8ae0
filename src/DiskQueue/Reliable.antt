-- ===== src/DiskQueue/Reliable.antt =====
-- What DiskSpillQueue relies on of the file system: its calls are done, and act on the files of the
-- directory as one expects.
use Prim.Native.String.{String}
use stream_fence_js.Prelude.{
  Bool, true, none, some, List, ◌≡◌, ok, str_eq, if◌then◌else◌, refl, ◌∙◌, eq_refl, false, arith,
}
use stream_fence_js.Prelude.Dict.{is_some}
use stream_fence_js.FileNames.Sorted.{occurrences}
use stream_fence_js.DiskQueue.{
  FileSystem, DiskSpillQueue, tmp_name, after_write, after_rename, after_unlink, sub_one,
  write_entry,
}

pub record IsReliable (f : FileSystem) : Type 0 where
  pub makes :
      (d : f.Disk)
      → (d' : f.Disk) × (f.mkdir d ≡ ok d') × ((x : String) → f.read_file x d' ≡ f.read_file x d)
  pub writes : (x s : String) (d : f.Disk) → (f.write_file x s d).0 ≡ true
  pub written :
      (x s y : String) (d : f.Disk)
      → f.read_file y (f.write_file x s d).1 ≡ (if str_eq x y then some s else f.read_file y d)
  pub renames : (x y s : String) (d : f.Disk) → f.read_file x d ≡ some s → (f.rename x y d).0 ≡ true
  pub renamed :
      (x y s z : String) (d : f.Disk)
      → f.read_file x d ≡ some s
      → f.read_file z (f.rename x y d).1
        ≡ (if str_eq y z then some s else if str_eq x z then none else f.read_file z d)
  pub unlinks : (x s : String) (d : f.Disk) → f.read_file x d ≡ some s → (f.unlink x d).0 ≡ true
  pub unlinked :
      (x z : String) (d : f.Disk)
      → f.read_file z (f.unlink x d).1 ≡ (if str_eq x z then none else f.read_file z d)
  -- Each file is listed once, in whatever order.
  pub lists :
      (d : f.Disk)
      → (names : List String) × (f.readdir d ≡ ok names)
        × ((x : String) → occurrences x names ≡ (if is_some (f.read_file x d) then 1 else 0))

abbrev pub written_disk : (f : FileSystem) → String → String → f.Disk → f.Disk
written_disk f name s d = (f.rename (tmp_name name) name (f.write_file (tmp_name name) s d).1).1

module _ {f : FileSystem} where
  after_write_done :
      (name : String) (d : Bool × f.Disk) (q : DiskSpillQueue f)
      → d.0 ≡ true
      → after_write name d q ≡ after_rename (f.rename (tmp_name name) name d.1) q
  after_write_done name (true, d) q h = refl
  after_write_done name (false, d) q h = absurd (ground (arith, h))

  after_rename_done :
      (d : Bool × f.Disk) (q : DiskSpillQueue f)
      → d.0 ≡ true
      → after_rename d q ≡ record q { disk = d.1 }
  after_rename_done (true, d) q h = refl
  after_rename_done (false, d) q h = absurd (ground (arith, h))

  pub after_unlink_done :
      (d : Bool × f.Disk) (q : DiskSpillQueue f)
      → d.0 ≡ true
      → after_unlink d q ≡ record q { disk = d.1; count = sub_one q.count }
  after_unlink_done (true, d) q h = refl
  after_unlink_done (false, d) q h = absurd (ground (arith, h))

module _ {f : FileSystem} (r : IsReliable f) where
  tmp_there :
      (name s : String) (d : f.Disk)
      → f.read_file (tmp_name name) (f.write_file (tmp_name name) s d).1 ≡ some s
  tmp_there name s d =
      r.written (tmp_name name) s (tmp_name name) d ∙ rw (eq_refl (tmp_name name)) refl

  -- A reliable file system does the write.
  pub write_entry_lem :
      (name s : String) (q : DiskSpillQueue f)
      → write_entry (record { filename = name; text = some s }) q
        ≡ record q { disk = written_disk f name s q.disk }
  unfolding write_entry
  write_entry_lem name s q =
      after_write_done name (f.write_file (tmp_name name) s q.disk) q
        (r.writes (tmp_name name) s q.disk)
      ∙ after_rename_done (f.rename (tmp_name name) name (f.write_file (tmp_name name) s q.disk).1)
          q
          (r.renames (tmp_name name) name s (f.write_file (tmp_name name) s q.disk).1
            (tmp_there name s q.disk))

  -- It leaves one file with the text, under the final name.
  pub written-disk_lem :
      (name s x : String) (d : f.Disk)
      → f.read_file x (written_disk f name s d) ≡ (
          if str_eq name x
          then some s
          else if str_eq (tmp_name name) x
          then none
          else f.read_file x d)
  written-disk_lem name s x d =
      r.renamed (tmp_name name) name s x (f.write_file (tmp_name name) s d).1 (tmp_there name s d)
      ∙ ground (arith, r.written (tmp_name name) s x d)
