-- ===== src/DiskQueue/Recovery.antt =====
-- `recover` on the files of a queue: the oldest entries, in their order.
use Prim.Native.String.{String}
use stream_fence_js.Prelude.{
  ℕ, zero, suc, ◌+◌, ◌<◌, ◌≤◌, ◌≡◌, refl, sym, ap, subst, ◌∙◌, true, false, some, List, [], ◌∷◌,
  length, arith, eq_refl, All, if◌then◌else◌, Bool,
}
use stream_fence_js.Prelude.Dict.{is_some}
use stream_fence_js.Message.{LaneEntry, Heap}
use stream_fence_js.Spill.Entry.{SpilledEntryData}
use stream_fence_js.FileNames.Sorted.{name_of, names_from, occurrences, sort-names_from}
use stream_fence_js.DiskQueue.{
  FileSystem, Json, DiskSpillQueue, take, sub_one, read_entry, recover_loop, entry_files,
}
use stream_fence_js.DiskQueue.Reliable.{IsReliable, after_unlink_done}
use stream_fence_js.DiskQueue.Stored.{stored, stored_named, stored_within}
use stream_fence_js.DiskQueue.Contents.{
  Holds, IsText, revive, revive_all, drop, read_entry_lem, unlink-Holds,
}

module _ {P : Type 0} {f : FileSystem} (r : IsReliable f) where
  first_file :
      (lo : ℕ) (x : SpilledEntryData P × String) (ts : List (SpilledEntryData P × String)) (n : ℕ)
      (q : DiskSpillQueue f)
      → Holds lo (x ∷ ts) n q
      → f.read_file (name_of lo) q.disk ≡ some x.1
  first_file lo x ts n q v = v.files (name_of lo) ∙ rw (eq_refl (name_of lo)) refl

  -- The names that are listed, sorted, are those of the entries.
  pub entry_files-names :
      (lo n : ℕ) (ts : List (SpilledEntryData P × String)) (q : DiskSpillQueue f)
      (names : List String)
      → lo + length ts ≤ 100000000
      → Holds lo ts n q
      → ((x : String) → occurrences x names ≡ (if is_some (f.read_file x q.disk) then 1 else 0))
      → entry_files names ≡ names_from lo (length ts)
  unfolding entry_files
  entry_files-names lo n ts q names small v listed =
      let found : (x : String) → occurrences x names ≡ (if is_some (stored lo ts x) then 1 else 0) =
        λ x. listed x ∙ ap (λ o. if is_some o then 1 else 0) (v.files x) in
      sort-names_from lo (length ts) names small
        (λ x p.
          stored_named lo ts x
            (is_there (is_some (stored lo ts x)) (occurrences x names) p (found x)))
        (λ k. found (name_of k) ∙ ap (λ (b : Bool). if b then 1 else 0) (stored_within lo ts k))
    where
      is_there : (b : Bool) (c : ℕ) → 0 < c → c ≡ (if b then 1 else 0) → b ≡ true
      is_there true c p e = refl
      is_there false c p e = absurd (omega (arith, p, e))

  recover_loop_step :
      (j : Json P) (file : String) (files : List String) (h : Heap) (q : DiskSpillQueue f)
      (e : LaneEntry P) (h' : Heap)
      → read_entry f j file h q.disk ≡ some (e, h')
      → (f.unlink file q.disk).0 ≡ true
      → recover_loop j (file ∷ files) h q ≡ (
          let rest =
            recover_loop j files h'
              (record q { disk = (f.unlink file q.disk).1; count = sub_one q.count }) in
          (e ∷ rest.0, rest.1, rest.2))
  unfolding recover_loop
  recover_loop_step j file files h q e h' read gone =
      rw (read, recover_loop) (rw (after_unlink_done (f.unlink file q.disk) q gone) refl)

  -- What a recovery of at most `n` entries gives and leaves.
  pub record Recovers (n lo : ℕ) (ts : List (SpilledEntryData P × String)) (h : Heap)
      (q : DiskSpillQueue f) (result : List (LaneEntry P) × Heap × DiskSpillQueue f) : Type 0 where
    pub entries : result.0 ≡ (revive_all (take n ts) h).0
    pub heap : result.1 ≡ (revive_all (take n ts) h).1
    pub start : ℕ
    pub holds : Holds start (drop n ts) 0 result.2
    pub end : start + length (drop n ts) ≡ lo + length ts
    pub later : lo ≤ start
    pub waiting : result.2.flush_promises ≡ q.flush_promises

  nothing-Recovers :
      (lo : ℕ) (h : Heap) (q : DiskSpillQueue f) (ts : List (SpilledEntryData P × String)) (n : ℕ)
      → take n ts ≡ []
      → drop n ts ≡ ts
      → Holds lo ts 0 q
      → Recovers n lo ts h q ([], h, q)
  nothing-Recovers lo h q ts n none_taken all_left v = record {
    entries = ap (λ us. (revive_all us h).0) (sym none_taken);
    heap = ap (λ us. (revive_all us h).1) (sym none_taken);
    start = lo;
    holds = rw all_left v;
    end = ap (λ us. lo + length us) all_left;
    later = omega arith;
    waiting = refl;
  }

  recover_nothing :
      (j : Json P) (h : Heap) (q : DiskSpillQueue f) → recover_loop j [] h q ≡ ([], h, q)
  unfolding recover_loop
  recover_nothing j h q = refl

  pub recover_loop-Recovers :
      (j : Json P) (n lo : ℕ) (ts : List (SpilledEntryData P × String)) (h : Heap)
      (q : DiskSpillQueue f)
      → All (λ x. IsText j x) ts
      → Holds lo ts 0 q
      → Recovers n lo ts h q (recover_loop j (take n (names_from lo (length ts))) h q)
  recover_loop-Recovers j zero lo ts h q texts v =
      subst (Recovers zero lo ts h q) (sym (recover_nothing j h q))
        (nothing-Recovers lo h q ts zero refl refl v)
  recover_loop-Recovers j (suc n) lo [] h q texts v =
      subst (Recovers (suc n) lo [] h q) (sym (recover_nothing j h q))
        (nothing-Recovers lo h q [] (suc n) refl refl v)
  recover_loop-Recovers j (suc n) lo (x ∷ ts) h q texts v =
      let there = first_file lo x ts 0 q v in
      let q' : DiskSpillQueue f = record q {
        disk = (f.unlink (name_of lo) q.disk).1;
        count = sub_one q.count;
      } in
      let rest =
        recover_loop-Recovers j n (suc lo) ts (revive x.0 h).1 q' texts.1
          (unlink-Holds r lo 0 x ts q v) in
      subst (Recovers (suc n) lo (x ∷ ts) h q)
        (sym (
          recover_loop_step j (name_of lo) (take n (names_from (suc lo) (length ts))) h q
            (revive x.0 h).0 (revive x.0 h).1
            (read_entry_lem r j x (name_of lo) h q.disk texts.0 there)
            (r.unlinks (name_of lo) x.1 q.disk there)))
        (record {
          entries = ap (λ es. (revive x.0 h).0 ∷ es) rest.entries;
          heap = rest.heap;
          start = rest.start;
          holds = rest.holds;
          end = omega (arith, rest.end);
          later = omega (arith, rest.later);
          waiting = rest.waiting;
        })
