-- ===== src/DiskQueue/Interleaving.antt =====
-- Calls of `spill` while `recover` waits for the file system.
use Prim.Native.String.{String}
use stream_fence_js.Prelude.{
  zero, suc, ◌≡◌, refl, sym, ap, ◌∙◌, inl, inr, Bool, true, false, none, some, Option-cases, List,
  [], ◌∷◌, ℤ, pos, negsuc,
}
use stream_fence_js.Message.{LaneEntry, Heap}
use stream_fence_js.FileNames
use stream_fence_js.DiskQueue.{
  FileSystem, Json, DiskSpillQueue, sub_one, spill, read_entry, recover_loop, after_unlink,
}

add_one-sub_one : (z : ℤ) → FileNames.add_one (sub_one z) ≡ sub_one (FileNames.add_one z)
add_one-sub_one (pos zero) = refl
add_one-sub_one (pos (suc n)) = refl
add_one-sub_one (negsuc zero) = refl
add_one-sub_one (negsuc (suc n)) = refl

module _ {P : Type 0} {f : FileSystem} where
  abbrev push :
      LaneEntry P
      → List (LaneEntry P) × Heap × DiskSpillQueue f
      → List (LaneEntry P) × Heap × DiskSpillQueue f
  push x (entries, g, q) = (x ∷ entries, g, q)

module _ {P : Type 0} {f : FileSystem} (j : Json P) where
  skip_step :
      (file : String) (files : List String) (g : Heap) (q : DiskSpillQueue f)
      → read_entry f j file g q.disk ≡ none
      → recover_loop j (file ∷ files) g q ≡ recover_loop j files g q
  unfolding recover_loop
  skip_step file files g q skipped = rw (skipped, recover_loop) refl

  read_step :
      (file : String) (files : List String) (g : Heap) (q : DiskSpillQueue f) (x : LaneEntry P)
      (g' : Heap)
      → read_entry f j file g q.disk ≡ some (x, g')
      → recover_loop j (file ∷ files) g q
        ≡ push x (recover_loop j files g' (after_unlink (f.unlink file q.disk) q))
  unfolding recover_loop
  read_step file files g q x g' read = rw (read, recover_loop) refl

module _ {P : Type 0} {f : FileSystem} (j : Json P) (h : Heap) (e : LaneEntry P) where
  after_unlink-spill :
      (d : Bool × f.Disk) (q : DiskSpillQueue f)
      → after_unlink d (spill j h e q) ≡ spill j h e (after_unlink d q)
  unfolding spill
  after_unlink-spill (true, disk) q =
      ap (λ z. record (spill j h e q) { disk = disk; count = z }) (sym (add_one-sub_one q.count))
  after_unlink-spill (false, disk) q = refl

  abbrev with_spill :
      List (LaneEntry P) × Heap × DiskSpillQueue f → List (LaneEntry P) × Heap × DiskSpillQueue f
  with_spill (entries, g, q) = (entries, g, spill j h e q)

  -- A message that is spilled while the loop of `recover` waits, with whatever files left to read and
  -- whatever the file system does, changes neither the entries that `recover` returns nor the
  -- objects that it makes, and leaves the queue as a message that is spilled when `recover` is done.
  pub recover_loop-spill :
      (files : List String) (g : Heap) (q : DiskSpillQueue f)
      → let (entries, g', q') = recover_loop j files g q in
        recover_loop j files g (spill j h e q) ≡ (entries, g', spill j h e q')
  unfolding recover_loop spill
  recover_loop-spill [] g q = refl
  recover_loop-spill (file ∷ files) g q = elim (Option-cases (read_entry f j file g q.disk)) [
    | inl skipped ↦
        skip_step j file files g (spill j h e q) skipped
        ∙ recover_loop-spill files g q
        ∙ ap with_spill (sym (skip_step j file files g q skipped))
    | inr ((x, g'), read) ↦
        read_step j file files g (spill j h e q) x g' read
        ∙ ap (λ q'. push x (recover_loop j files g' q'))
            (after_unlink-spill (f.unlink file q.disk) q)
        ∙ ap (push x) (recover_loop-spill files g' (after_unlink (f.unlink file q.disk) q))
        ∙ ap with_spill (sym (read_step j file files g q x g' read))
  ]
