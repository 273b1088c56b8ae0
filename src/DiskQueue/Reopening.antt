-- ===== src/DiskQueue/Reopening.antt =====
-- `recover` and a new queue on the same directory, as changes to what a disk queue holds.
use Prim.Native.String.{String}
use stream_fence_js.Prelude.{
  ℕ, zero, suc, ◌+◌, ◌<◌, ◌≤◌, ◌≡◌, refl, ap, ◌∙◌, some, List, [], ◌∷◌, ◌++◌, map, length, arith,
  All, pos, Result, ok, ◌>>=◌, append-nil, length-append,
}
use stream_fence_js.Message.{Heap}
use stream_fence_js.Spill.Entry.{SpilledEntryData}
use stream_fence_js.FileNames
use stream_fence_js.FileNames.{file_name, number_of_name}
use stream_fence_js.FileNames.Reading.{number_of_name-file_name}
use stream_fence_js.FileNames.Sorted.{name_of, names_from}
use stream_fence_js.DiskQueue.{
  FileSystem, Json, DiskSpillQueue, take, flush, recover, recover_names, new_queue, recover_loop,
  entry_files, first_seq, last_name,
}
use stream_fence_js.DiskQueue.Reliable.{IsReliable}
use stream_fence_js.DiskQueue.Stored.{stored}
use stream_fence_js.DiskQueue.Contents.{Holds, IsText, revive_all, drop}
use stream_fence_js.DiskQueue.Recovery.{entry_files-names, recover_loop-Recovers}
use stream_fence_js.DiskQueue.Calls.{revived, revived-map, map-take, map-drop, All-drop, Represents}
use stream_fence_js.DiskQueue.Writing.{Text, flush-Holds}

triple :
    {A B C : Type 0} (x : A × B × C) (a : A) (b : B)
    → x.0 ≡ a
    → x.1 ≡ b
    → ◌≡◌ {A = Result (A × B × C)} (ok x) (ok (a, b, x.2))
triple x a b p q = rw (← p) (rw (← q) refl)

-- The number that follows those of a range of names.
last-names_from : (lo n : ℕ) → last_name (name_of lo) (names_from (suc lo) n) ≡ name_of (lo + n)
last-names_from lo zero = let e : lo ≡ lo + 0 = omega arith in ap name_of e
last-names_from lo (suc n) =
    let e : suc lo + n ≡ lo + suc n = omega arith in last-names_from (suc lo) n ∙ ap name_of e

first_seq-names_from : (lo n : ℕ) → first_seq (names_from lo (suc n)) ≡ some (pos (lo + suc n))
unfolding first_seq
first_seq-names_from lo n =
    let e : suc (lo + n) ≡ lo + suc n = omega arith in
    ap (λ name. FileNames.next_number (number_of_name name)) (last-names_from lo n)
    ∙ ap FileNames.next_number (number_of_name-file_name (lo + n))
    ∙ ap (λ k. some (pos k)) e

length-names_from : (lo n : ℕ) → length (names_from lo n) ≡ n
length-names_from lo zero = refl
length-names_from lo (suc n) = ap suc (length-names_from (suc lo) n)

module _ {P : Type 0} {f : FileSystem} (j : Json P) (r : IsReliable f) where
  recover-names :
      (j : Json P) (n : ℕ) (h : Heap) (q : DiskSpillQueue f) (names : List String)
      → f.readdir (flush q).disk ≡ ok names
      → recover j n h q ≡ ok (recover_loop j (take n (entry_files names)) h (flush q))
  unfolding recover recover_names
  recover-names j n h q names listed =
      ap (λ r. r >>= λ names. ok (recover_names j n names h (flush q))) listed

  pub recover-Represents :
      (hi : ℕ) (ds : List (SpilledEntryData P)) (q : DiskSpillQueue f) (n : ℕ) (h : Heap)
      → Represents j hi ds q
      → hi ≤ 100000000
      → (q' : DiskSpillQueue f) × (recover j n h q
          ≡ ok ((revived (take n ds) h).0, (revived (take n ds) h).1, q'))
        × Represents j hi (drop n ds) q'
  recover-Represents hi ds q n h v small =
      let ts = v.done ++ v.waiting in
      let (holds, none_left) = flush-Holds j r hi ds q v in
      let (names, listed, once) = r.lists (flush q).disk in
      let sorted =
        entry_files-names r v.start 0 ts (flush q) names
          (omega (arith, length-append v.done v.waiting, v.below, small)) holds once in
      let result = recover_loop j (take n (names_from v.start (length ts))) h (flush q) in
      let recovered = recover_loop-Recovers r j n v.start ts h (flush q) v.texts holds in
      let taken : revive_all (take n ts) h ≡ revived (take n ds) h =
        revived-map (take n ts) h
        ∙ ap (λ us. revived us h) (map-take n ts ∙ ap (take n) v.contents) in
      (
        result.2,
        recover-names j n h q names listed
            ∙ ap (λ files. ok (recover_loop j (take n files) h (flush q))) sorted
            ∙ triple result (revived (take n ds) h).0 (revived (take n ds) h).1
                (recovered.entries ∙ ap (λ p. p.0) taken) (recovered.heap ∙ ap (λ p. p.1) taken),
        record {
          start = recovered.start;
          done = drop n ts;
          waiting = [];
          positive = omega (arith, v.positive, recovered.later);
          holds = recovered.holds;
          pending = recovered.waiting ∙ none_left;
          texts = rw (append-nil (drop n ts)) (All-drop (λ x. IsText j x) n ts v.texts);
          contents =
              ap (map (λ x. x.0)) (append-nil (drop n ts)) ∙ map-drop n ts ∙ ap (drop n) v.contents;
          below = omega (arith, v.below, recovered.end, length-append v.done v.waiting);
        },
      )

  abbrev pub opened : f.Disk → List String → DiskSpillQueue f
  opened disk files = record {
    disk = disk;
    count = pos (length files);
    next_seq = first_seq files;
    flush_promises = [];
  }

  pub new_queue-names :
      (disk disk' : f.Disk) (names : List String)
      → f.mkdir disk ≡ ok disk'
      → f.readdir disk' ≡ ok names
      → new_queue disk ≡ ok (opened disk' (entry_files names))
  unfolding new_queue
  new_queue-names disk disk' names made listed = rw made (rw listed refl)

  pub restarted :
      (hi : ℕ) (ds : List (SpilledEntryData P)) (disk : f.Disk) (lo : ℕ) (ts : List (Text P))
      → 0 < lo
      → ((x : String) → f.read_file x disk ≡ stored lo ts x)
      → All (λ x. IsText j x) ts
      → map (λ x. x.0) ts ≡ ds
      → lo + length ts ≤ hi
      → Represents j hi ds (opened disk (names_from lo (length ts)))
  restarted hi ds disk lo [] positive files texts contents below = record {
    start = 1;
    done = [];
    waiting = [];
    positive = omega arith;
    holds = record { files = files; counted = refl; next = unfold first_seq in refl };
    pending = refl;
    texts = tt;
    contents = contents;
    below = omega (arith, positive, below);
  }
  restarted hi ds disk lo (x ∷ ts) positive files texts contents below =
      let all = append-nil (x ∷ ts) in
      let size : length (names_from lo (suc (length ts))) ≡ suc (length ts) + 0 =
        omega (arith, length-names_from lo (suc (length ts))) in
      let end : lo + suc (length ts) ≡ lo + suc (length ts) + 0 = omega arith in
      record {
        start = lo;
        done = x ∷ ts;
        waiting = [];
        positive = positive;
        holds = record {
          files = files;
          counted = ap pos size;
          next = first_seq-names_from lo (length ts) ∙ ap (λ k. some (pos k)) end;
        };
        pending = refl;
        texts = (texts.0, rw (append-nil ts) texts.1);
        contents = ap (map (λ x. x.0)) all ∙ contents;
        below = omega (arith, below);
      }

  pub restart-Represents :
      (hi : ℕ) (ds : List (SpilledEntryData P)) (q : DiskSpillQueue f)
      → Represents j hi ds q
      → hi ≤ 100000000
      → (q' : DiskSpillQueue f) × (new_queue (flush q).disk ≡ ok q') × Represents j hi ds q'
  restart-Represents hi ds q v small =
      let ts = v.done ++ v.waiting in
      let (holds, none_left) = flush-Holds j r hi ds q v in
      let (disk, made, same) = r.makes (flush q).disk in
      let (names, listed, once) = r.lists disk in
      let again : DiskSpillQueue f = record (flush q) { disk = disk } in
      let moved : Holds v.start ts 0 again = record {
        files = λ x. same x ∙ holds.files x;
        counted = holds.counted;
        next = holds.next;
      } in
      let small' : v.start + length ts ≤ hi =
        omega (arith, length-append v.done v.waiting, v.below) in
      let sorted =
        entry_files-names r v.start 0 ts again names (omega (arith, small', small)) moved once in
      (
        opened disk (names_from v.start (length ts)),
        new_queue-names (flush q).disk disk names made listed
            ∙ ap (λ files. ok (opened disk files)) sorted,
        restarted hi ds disk v.start ts v.positive moved.files v.texts v.contents small',
      )
