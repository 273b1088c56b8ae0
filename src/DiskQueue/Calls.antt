-- ===== src/DiskQueue/Calls.antt =====
-- The calls of a disk queue, and the same calls of a list of the data that wait.
use Prim.Native.String.{String}
use stream_fence_js.Prelude.{
  ℕ, zero, suc, ◌+◌, ◌<◌, ◌≤◌, ◌≡◌, refl, ap, some, List, [], ◌∷◌, ◌++◌, map, length, arith, All,
  Result, ok, ◌>>=◌,
}
use stream_fence_js.Message.{LaneEntry, Heap}
use stream_fence_js.Spill.Entry.{SpilledEntryData, serialize}
use stream_fence_js.FileNames.Sorted.{name_of}
use stream_fence_js.DiskQueue.{
  FileSystem, Json, DiskSpillQueue, Write, take, write_entry, flush, spill, recover, new_queue,
  clear,
}
use stream_fence_js.DiskQueue.Contents.{Holds, IsText, revive, revive_all, drop, writes_from}

-- A call of the queue; `writing` is the first pending write that is done, and `restarting` the
-- constructor on the same directory after all of them.
pub data Call (P : Type 0) : Type 0 where
  spilling : Heap → LaneEntry P → Call P
  recovering : ℕ → Heap → Call P
  writing restarting clearing : Call P

abbrev pub Output : Type 0 → Type 0
Output P = List (List (LaneEntry P) × Heap)

-- The first pending write is done.
unfoldable pub write_next : {f : FileSystem} → List Write → DiskSpillQueue f → DiskSpillQueue f
unfolding write_entry
write_next [] q = q
write_next (w ∷ writes) q = write_entry w (record q { flush_promises = writes })

unfoldable pub write_first : {f : FileSystem} → DiskSpillQueue f → DiskSpillQueue f
unfolding write_next
write_first q = write_next q.flush_promises q

module _ {P : Type 0} where
  abbrev pub revived : List (SpilledEntryData P) → Heap → List (LaneEntry P) × Heap
  revived [] h = ([], h)
  revived (t ∷ ts) h = let (e, h') = revive t h in let (es, h'') = revived ts h' in (e ∷ es, h'')

  -- The calls of a list of data.
  abbrev pub act : Call P → List (SpilledEntryData P) → Output P × List (SpilledEntryData P)
  act (spilling h e) ts = ([], ts ++ serialize h e ∷ [])
  act (recovering n h) ts = (revived (take n ts) h ∷ [], drop n ts)
  act writing ts = ([], ts)
  act restarting ts = ([], ts)
  act clearing ts = ([], [])

  abbrev pub replay :
      List (Call P) → List (SpilledEntryData P) → Output P × List (SpilledEntryData P)
  replay [] ts = ([], ts)
  replay (c ∷ calls) ts =
      let (out, ts') = act c ts in let (outs, ts'') = replay calls ts' in (out ++ outs, ts'')

  abbrev pub spills : List (Call P) → ℕ
  spills [] = 0
  spills (spilling h e ∷ calls) = suc (spills calls)
  spills (_ ∷ calls) = spills calls

  pub revived-map :
      (ts : List (SpilledEntryData P × String)) (h : Heap)
      → revive_all ts h ≡ revived (map (λ x. x.0) ts) h
  revived-map [] h = refl
  revived-map ((t, s) ∷ ts) h = rw (revived-map ts (revive t h).1) refl

  pub map-take :
      (n : ℕ) (ts : List (SpilledEntryData P × String))
      → map (λ x. x.0) (take n ts) ≡ take n (map (λ x. x.0) ts)
  map-take zero ts = refl
  map-take (suc n) [] = refl
  map-take (suc n) (x ∷ ts) = ap (λ us. x.0 ∷ us) (map-take n ts)

  pub map-drop :
      (n : ℕ) (ts : List (SpilledEntryData P × String))
      → map (λ x. x.0) (drop n ts) ≡ drop n (map (λ x. x.0) ts)
  map-drop zero ts = refl
  map-drop (suc n) [] = refl
  map-drop (suc n) (x ∷ ts) = map-drop n ts

  pub All-drop :
      (Q : SpilledEntryData P × String → Type 0) (n : ℕ) (ts : List (SpilledEntryData P × String))
      → All Q ts
      → All Q (drop n ts)
  All-drop Q zero ts q = q
  All-drop Q (suc n) [] q = q
  All-drop Q (suc n) (x ∷ ts) q = All-drop Q n ts q.1

  pub map-append :
      (ts us : List (SpilledEntryData P × String))
      → map (λ x. x.0) (ts ++ us) ≡ map (λ x. x.0) ts ++ map (λ x. x.0) us
  map-append [] us = refl
  map-append (x ∷ ts) us = ap (λ vs. x.0 ∷ vs) (map-append ts us)

  pub writes_from-append :
      (k : ℕ) (ps : List (SpilledEntryData P × String)) (t : SpilledEntryData P) (s : String)
      → writes_from k (ps ++ (t, s) ∷ [])
        ≡ writes_from k ps ++ record { filename = name_of (k + length ps); text = some s } ∷ []
  writes_from-append k [] t s = let e : k + 0 ≡ k = omega arith in rw e refl
  writes_from-append k ((u, v) ∷ ps) t s =
      let e : k + suc (length ps) ≡ suc k + length ps = omega arith in
      rw e (
        ap (λ ws. record { filename = name_of k; text = some v } ∷ ws)
          (writes_from-append (suc k) ps t s))

  -- The data of a call can be written and read back.
  abbrev pub CanStore : Json P → Call P → Type 0
  CanStore j (spilling h e) = (s : String) × IsText j (serialize h e, s)
  CanStore j _ = Unit

  module _ {f : FileSystem} (j : Json P) where
    unfoldable pub perform : Call P → DiskSpillQueue f → Result (Output P × DiskSpillQueue f)
    unfolding spill recover new_queue flush write_first clear
    perform (spilling h e) q = ok ([], spill j h e q)
    perform (recovering n h) q = do
      result ← recover j n h q
      ok ((result.0, result.1) ∷ [], result.2)
    perform writing q = ok ([], write_first q)
    perform restarting q = do q' ← new_queue (flush q).disk; ok ([], q')
    perform clearing q = ok ([], clear q)

    unfoldable pub run_calls :
        List (Call P) → DiskSpillQueue f → Result (Output P × DiskSpillQueue f)
    unfolding perform
    run_calls [] q = ok ([], q)
    run_calls (c ∷ calls) q = do
      first ← perform c q
      rest ← run_calls calls first.1
      ok (first.0 ++ rest.0, rest.1)

    -- The queue holds the data, in files and in pending writes; its next number is at most `hi`.
    pub record Represents (hi : ℕ) (ds : List (SpilledEntryData P)) (q : DiskSpillQueue f)
        : Type 0 where
      pub start : ℕ
      pub done : List (SpilledEntryData P × String)
      pub waiting : List (SpilledEntryData P × String)
      pub positive : 0 < start
      pub holds : Holds start done (length waiting) q
      pub pending : q.flush_promises ≡ writes_from (start + length done) waiting
      pub texts : All (λ x. IsText j x) (done ++ waiting)
      pub contents : map (λ x. x.0) (done ++ waiting) ≡ ds
      pub below : start + length done + length waiting ≤ hi
