-- ===== src/DiskQueue/Interface.antt =====
-- The disk queue as a lane sees it, on a file system that can list the directory.
use Prim.Native.String.{String}
use stream_fence_js.Prelude.{
  ℕ, zero, suc, ◌≤◌, ◌≡◌, ap, inl, inr, List, [], ◌∷◌, length, arith, ok, ◌>>=◌, Result,
  Option-cases,
}
use stream_fence_js.Message.{Heap}
use stream_fence_js.Spill.{SpillQueue}
use stream_fence_js.DiskQueue.{
  FileSystem, Json, DiskSpillQueue, take, flush, spill, has_spilled, clear, read_entry, recover,
  recover_names, recover_loop, entry_files, after_unlink,
}

length-take : {A : Type 0} (n : ℕ) (xs : List A) → length (take n xs) ≤ n
length-take zero xs = omega arith
length-take (suc n) [] = omega arith
length-take (suc n) (x ∷ xs) = omega (arith, length-take n xs)

module _ {P : Type 0} {f : FileSystem} (j : Json P) where
  length-recover_loop :
      (files : List String) (h : Heap) (q : DiskSpillQueue f)
      → length (recover_loop j files h q).0 ≤ length files
  unfolding recover_loop
  length-recover_loop [] h q = omega arith
  length-recover_loop (file ∷ files) h q = elim (Option-cases (read_entry f j file h q.disk)) [
    | inl skipped ↦ rw (skipped, recover_loop) (omega (arith, length-recover_loop files h q))
    | inr ((e, h'), read) ↦
        rw (read, recover_loop)
          (omega (arith, length-recover_loop files h' (after_unlink (f.unlink file q.disk) q)))
  ]

  pub recover_names-le :
      (n : ℕ) (names : List String) (h : Heap) (q : DiskSpillQueue f)
      → length (recover_names j n names h q).0 ≤ n
  unfolding recover_names
  recover_names-le n names h q = omega (
    arith,
    length-recover_loop (take n (entry_files names)) h q,
    length-take n (entry_files names),
  )

module _ {P : Type 0} (f : FileSystem) (j : Json P)
    (reads : (disk : f.Disk) → (names : List String) × (f.readdir disk ≡ ok names)) where
  abbrev pub disk_spill_queue : SpillQueue P
  disk_spill_queue = record {
    State = DiskSpillQueue f;
    spill = spill j;
    has_spilled = has_spilled;
    recover = λ n h q. recover_names j n (reads (flush q).disk).0 h (flush q);
    clear = clear;
    recover-le = λ n h q. recover_names-le j n (reads (flush q).disk).0 h (flush q);
  }

  -- The lane's `recover` is that of the disk queue.
  pub recover-disk_spill_queue :
      (n : ℕ) (h : Heap) (q : DiskSpillQueue f)
      → recover j n h q ≡ ok (disk_spill_queue.recover n h q)
  unfolding recover
  recover-disk_spill_queue n h q =
      ap (λ (r : Result (List String)). r >>= λ names. ok (recover_names j n names h (flush q)))
        (reads (flush q).disk).1
