-- ===== src/DiskQueue/Fifo.antt =====
-- A disk queue is a queue: its calls do what those of a list of the waiting data do.
use Prim.Native.String.{String}
use stream_fence_js.Prelude.{
  ℕ, suc, ◌+◌, ◌<◌, ◌≤◌, ◌≡◌, refl, sym, ap, ◌∙◌, none, List, [], ◌∷◌, ◌++◌, map, length, arith,
  All, pos, ok, ◌>>=◌, length-append,
}
use stream_fence_js.Spill.Entry.{SpilledEntryData}
use stream_fence_js.DiskQueue.{
  FileSystem, Json, DiskSpillQueue, spill, new_queue, first_seq, clear, spilled_count,
}
use stream_fence_js.DiskQueue.Reliable.{IsReliable}
use stream_fence_js.DiskQueue.Contents.{Holds}
use stream_fence_js.DiskQueue.Recovery.{entry_files-names}
use stream_fence_js.DiskQueue.Calls.{
  Call, spilling, recovering, writing, restarting, clearing, act, replay, spills, write_first,
  perform, run_calls, Represents, CanStore,
}
use stream_fence_js.DiskQueue.Writing.{Text, spill-Represents, write_first-Represents}
use stream_fence_js.DiskQueue.Clearing.{clear-Represents}
use stream_fence_js.DiskQueue.Reopening.{
  recover-Represents, restart-Represents, restarted, opened, new_queue-names,
}

length-map : {P : Type 0} (ts : List (Text P)) → length (map (λ x. x.0) ts) ≡ length ts
length-map [] = refl
length-map (x ∷ ts) = ap suc (length-map ts)

spills-cons :
    {P : Type 0} (hi : ℕ) (c : Call P) (calls : List (Call P))
    → hi + spills (c ∷ []) + spills calls ≡ hi + spills (c ∷ calls)
spills-cons hi (spilling h e) calls = omega arith
spills-cons hi (recovering n h) calls = omega arith
spills-cons hi writing calls = omega arith
spills-cons hi restarting calls = omega arith
spills-cons hi clearing calls = omega arith

module _ {P : Type 0} {f : FileSystem} (j : Json P) (r : IsReliable f) where
  -- One call does what it does to the list of the data.
  perform-Represents :
      (hi : ℕ) (ds : List (SpilledEntryData P)) (q : DiskSpillQueue f) (c : Call P)
      → Represents j hi ds q
      → CanStore j c
      → hi ≤ 100000000
      → (q' : DiskSpillQueue f) × (perform j c q ≡ ok ((act c ds).0, q'))
        × Represents j (hi + spills (c ∷ [])) (act c ds).1 q'
  unfolding perform
  perform-Represents hi ds q (spilling h e) v stores small =
      let e' : hi + 1 ≡ suc hi = omega arith in
      (spill j h e q, refl, rw e' (spill-Represents j hi ds q h e v stores))
  perform-Represents hi ds q (recovering n h) v stores small =
      let (q', read, v') = recover-Represents j r hi ds q n h v small in
      let e' : hi + 0 ≡ hi = omega arith in (q', rw read refl, rw e' v')
  perform-Represents hi ds q writing v stores small =
      let e' : hi + 0 ≡ hi = omega arith in
      (write_first q, refl, rw e' (write_first-Represents j r hi ds q v))
  perform-Represents hi ds q restarting v stores small =
      let (q', made, v') = restart-Represents j r hi ds q v small in
      let e' : hi + 0 ≡ hi = omega arith in (q', rw made refl, rw e' v')
  perform-Represents hi ds q clearing v stores small =
      let e' : hi + 0 ≡ hi = omega arith in (clear q, refl, rw e' (clear-Represents r j hi ds q v))

  -- The calls, in whatever order, return what those of the list return, and leave the queue with
  -- the list's data.
  run_calls-replay :
      (calls : List (Call P)) (hi : ℕ) (ds : List (SpilledEntryData P)) (q : DiskSpillQueue f)
      → Represents j hi ds q
      → All (CanStore j) calls
      → hi + spills calls ≤ 100000000
      → (q' : DiskSpillQueue f) × (run_calls j calls q ≡ ok ((replay calls ds).0, q'))
        × Represents j (hi + spills calls) (replay calls ds).1 q'
  unfolding run_calls
  run_calls-replay [] hi ds q v stores small =
      let e : hi + 0 ≡ hi = omega arith in (q, refl, rw e v)
  run_calls-replay (c ∷ calls) hi ds q v stores small =
      let (q1, first, v1) = perform-Represents hi ds q c v stores.0 (omega (arith, small)) in
      let e : hi + spills (c ∷ []) + spills calls ≡ hi + spills (c ∷ calls) =
        spills-cons hi c calls in
      let (q2, rest, v2) =
        run_calls-replay calls (hi + spills (c ∷ [])) (act c ds).1 q1 v1 stores.1
          (omega (arith, e, small)) in
      (q2, rw first (rw rest refl), rw (← e) v2)

  -- A queue counts what it holds.
  pub counted :
      (hi : ℕ) (ds : List (SpilledEntryData P)) (q : DiskSpillQueue f)
      → Represents j hi ds q
      → spilled_count q ≡ pos (length ds)
  unfolding spilled_count
  counted hi ds q v =
      v.holds.counted
      ∙ ap pos (
          sym (length-append v.done v.waiting)
          ∙ sym (length-map (v.done ++ v.waiting))
          ∙ ap length v.contents)

  -- A queue made on a directory without files.
  new_queue-Represents :
      (disk : f.Disk)
      → ((x : String) → f.read_file x disk ≡ none)
      → (q : DiskSpillQueue f) × (new_queue disk ≡ ok q) × Represents j 1 [] q
  new_queue-Represents disk empty =
      let (disk', made, same) = r.makes disk in
      let (names, listed, once) = r.lists disk' in
      let files : (x : String) → f.read_file x disk' ≡ none = λ x. same x ∙ empty x in
      let holds : Holds {P = P} 1 [] 0 (opened j r disk' []) = record {
        files = files;
        counted = refl;
        next = unfold first_seq in refl;
      } in
      let sorted =
        entry_files-names r 1 0 [] (opened j r disk' []) names (omega arith) holds once in
      (
        opened j r disk' [],
        new_queue-names j r disk disk' names made listed
            ∙ ap (λ files. ok (opened j r disk' files)) sorted,
        restarted j r 1 [] disk' 1 [] (omega arith) files tt refl (omega arith),
      )

  -- On a reliable file system, from the constructor on a directory without files, spilling entries
  -- that JSON keeps and whose sizes are positive, at most 99999999 in all, in whatever order with
  -- recovering, clearing, the completion of writes and new queues on the directory: no call throws,
  -- each `recover` returns the oldest entries that wait, as many as it is asked for at most, in the
  -- order in which they were spilled, and `spilledCount` is the number of those that still wait.
  pub run_calls-new_queue :
      (disk : f.Disk) (calls : List (Call P))
      → ((x : String) → f.read_file x disk ≡ none)
      → All (CanStore j) calls
      → spills calls < 100000000
      → (q' : DiskSpillQueue f) × ((new_queue disk >>= run_calls j calls)
          ≡ ok ((replay calls []).0, q'))
        × (spilled_count q' ≡ pos (length (replay calls []).1))
  run_calls-new_queue disk calls empty stores small =
      let (q, made, v) = new_queue-Represents disk empty in
      let (q', ran, v') = run_calls-replay calls 1 [] q v stores (omega (arith, small)) in
      (q', rw made ran, counted (1 + spills calls) (replay calls []).1 q' v')
