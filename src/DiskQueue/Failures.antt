-- ===== src/DiskQueue/Failures.antt =====
-- `recover` where the file system refuses to remove files.
use Prim.Native.String.{String}
use stream_fence_js.Prelude.{
  ℕ, ◌≡◌, refl, sym, ap, ◌∙◌, Result, ◌>>=◌, none, some, inl, inr, Bool, false, Option-cases, List,
  [], ◌∷◌, ok,
}
use stream_fence_js.Message.{LaneEntry, Heap}
use stream_fence_js.DiskQueue.{
  FileSystem, Json, DiskSpillQueue, take, read_entry, recover_loop, recover_names, recover, flush,
  settle, entry_files, after_unlink,
}

-- The entries that files hold: what cannot be read or parsed is passed over, and each entry is a new
-- object.
abbrev pub entries_in :
    {P : Type 0} (f : FileSystem) (j : Json P)
    → List String
    → Heap
    → f.Disk
    → List (LaneEntry P) × Heap
entries_in f j [] h d = ([], h)
entries_in f j (file ∷ files) h d = elim (read_entry f j file h d) [
  | none ↦ entries_in f j files h d
  | some (e, h') ↦ let (es, h'') = entries_in f j files h' d in (e ∷ es, h'')
]

module _ {P : Type 0} {f : FileSystem} (j : Json P) where
  after_unlink_refused :
      (d : Bool × f.Disk) (q : DiskSpillQueue f) → d ≡ (false, q.disk) → after_unlink d q ≡ q
  after_unlink_refused d q e = ap (λ d. after_unlink d q) e

  recover_loop-refused :
      (files : List String) (h : Heap) (q : DiskSpillQueue f)
      → ((file : String) → f.unlink file q.disk ≡ (false, q.disk))
      → recover_loop j files h q
        ≡ ((entries_in f j files h q.disk).0, (entries_in f j files h q.disk).1, q)
  unfolding recover_loop
  recover_loop-refused [] h q refused = refl
  recover_loop-refused (file ∷ files) h q refused =
      elim (Option-cases (read_entry f j file h q.disk)) [
        | inl skipped ↦
            rw (skipped, recover_loop, entries_in) (recover_loop-refused files h q refused)
        | inr ((e, h'), read) ↦
            rw (read, recover_loop, entries_in)
              (ap (λ q'. let r = recover_loop j files h' q' in (e ∷ r.0, r.1, r.2))
                  (after_unlink_refused (f.unlink file q.disk) q (refused file))
                ∙ ap (λ r. (e ∷ r.0, r.1, r.2)) (recover_loop-refused files h' q refused))
      ]

  flush-idle : (q : DiskSpillQueue f) → q.flush_promises ≡ [] → flush q ≡ q
  unfolding flush settle
  flush-idle q idle =
      ap (λ writes. settle writes (record q { flush_promises = [] })) idle
      ∙ ap (λ writes. record q { flush_promises = writes }) (sym idle)

  recover_refused_once :
      (n : ℕ) (h : Heap) (q : DiskSpillQueue f) (names : List String)
      → q.flush_promises ≡ []
      → f.readdir q.disk ≡ ok names
      → ((file : String) → f.unlink file q.disk ≡ (false, q.disk))
      → let (es, h') = entries_in f j (take n (entry_files names)) h q.disk in
        recover j n h q ≡ ok (es, h', q)
  unfolding recover recover_names
  recover_refused_once n h q names idle listed refused =
      ap
        (λ (q' : DiskSpillQueue f).
          f.readdir q'.disk >>= λ names. ok (recover_names j n names h q'))
        (flush-idle q idle)
      ∙ ap (λ (r : Result (List String)). r >>= λ names. ok (recover_names j n names h q)) listed
      ∙ ap ok (recover_loop-refused (take n (entry_files names)) h q refused)

  -- If nothing is being written and the file system lists the directory but refuses to remove
  -- files, `recover` returns the entries of the first files all the same and leaves the queue as it
  -- was, and so the next `recover` returns the entries of the same files once more.
  pub recover-refused :
      (n : ℕ) (h : Heap) (q : DiskSpillQueue f) (names : List String)
      → q.flush_promises ≡ []
      → f.readdir q.disk ≡ ok names
      → ((file : String) → f.unlink file q.disk ≡ (false, q.disk))
      → let files = take n (entry_files names) in
        let (es, h') = entries_in f j files h q.disk in
        let (es', h'') = entries_in f j files h' q.disk in
        (recover j n h q ≡ ok (es, h', q)) × (recover j n h' q ≡ ok (es', h'', q))
  recover-refused n h q names idle listed refused =
      (once h, once (entries_in f j (take n (entry_files names)) h q.disk).1)
    where
      once :
          (h : Heap)
          → let (es, h') = entries_in f j (take n (entry_files names)) h q.disk in
            recover j n h q ≡ ok (es, h', q)
      once h = recover_refused_once n h q names idle listed refused
