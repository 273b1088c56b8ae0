-- ===== src/DiskQueue/Clearing.antt =====
-- `clear` of a disk queue takes every entry away, those that are still being written included.
use Prim.Native.String.{String}
use stream_fence_js.Prelude.{
  ℕ, suc, ◌+◌, ◌<◌, ◌≡◌, refl, sym, ap, subst, ◌∙◌, inl, inr, true, ◌||◌, none, some, Option-cases,
  Bool-cases, List, [], ◌∷◌, ◌++◌, length, length-append, arith, ok, pos, ℤ, str_eq, eq_iff,
  if◌then◌else◌,
}
use stream_fence_js.Prelude.Dict.{is_some}
use stream_fence_js.Spill.Entry.{SpilledEntryData}
use stream_fence_js.FileNames.{ends_with}
use stream_fence_js.FileNames.Sorted.{name_of, occurrences, ends_with-name_of}
use stream_fence_js.DiskQueue.{
  FileSystem, Json, DiskSpillQueue, settle, flush, clear, clear_files, unlink_leftovers,
}
use stream_fence_js.DiskQueue.Reliable.{IsReliable, write_entry_lem, written_disk}
use stream_fence_js.DiskQueue.Stored.{stored, stored_named}
use stream_fence_js.DiskQueue.Contents.{writes_from}
use stream_fence_js.DiskQueue.Calls.{Represents}
use stream_fence_js.DiskQueue.Writing.{Text, flush-Holds}

module _ {f : FileSystem} (r : IsReliable f) where
  -- A file that is not there is not there afterwards.
  unlink_leftovers-none :
      (names : List String) (d : f.Disk) (x : String)
      → f.read_file x d ≡ none
      → f.read_file x (unlink_leftovers f names d) ≡ none
  unfolding unlink_leftovers
  unlink_leftovers-none [] d x h = h
  unlink_leftovers-none (name ∷ names) d x h =
      unlink_leftovers-none names
        (if ends_with ".json" name || ends_with ".tmp" name then (f.unlink name d).1 else d) x
        (ground (arith, r.unlinked name x d))

  -- A listed file of an entry is taken away.
  unlink_leftovers-listed :
      (names : List String) (d : f.Disk) (x : String)
      → 0 < occurrences x names
      → ends_with ".json" x ≡ true
      → f.read_file x (unlink_leftovers f names d) ≡ none
  unfolding unlink_leftovers
  unlink_leftovers-listed [] d x p h = absurd (omega (arith, p))
  unlink_leftovers-listed (name ∷ names) d x p h = elim (Bool-cases (str_eq name x)) [
    | inl here ↦ unlink_leftovers-none names _ x (taken name x d here h)
    | inr later ↦ unlink_leftovers-listed names _ x (ground arith) h
  ]
    where
      taken :
          (name x : String) (d : f.Disk)
          → str_eq name x ≡ true
          → ends_with ".json" x ≡ true
          → f.read_file x
              (if ends_with ".json" name || ends_with ".tmp" name then (f.unlink name d).1 else d)
            ≡ none
      taken name x d here h =
          let same : ends_with ".json" name ≡ true =
            ap (ends_with ".json") ((eq_iff name x).0 here) ∙ h in
          ground (arith, r.unlinked name x d)

module _ {P : Type 0} {f : FileSystem} (r : IsReliable f) where
  -- The writes do not look at the count.
  settle-count :
      (k : ℕ) (ps : List (Text P)) (q : DiskSpillQueue f) (c : ℤ)
      → settle (writes_from k ps) (record q { count = c })
        ≡ record (settle (writes_from k ps) q) { count = c }
  unfolding settle
  settle-count k [] q c = refl
  settle-count k ((t, s) ∷ ps) q c =
      let q' : DiskSpillQueue f = record q { disk = written_disk f (name_of k) s q.disk } in
      ap (settle (writes_from (suc k) ps))
        (write_entry_lem r (name_of k) s (record q { count = c }))
      ∙ settle-count (suc k) ps q' c
      ∙ ap (λ (p : DiskSpillQueue f). record (settle (writes_from (suc k) ps) p) { count = c })
          (sym (write_entry_lem r (name_of k) s q))

  cleared_file :
      (lo : ℕ) (ts : List (Text P)) (d : f.Disk) (names : List String) (x : String)
      → f.read_file x d ≡ stored lo ts x
      → occurrences x names ≡ (if is_some (f.read_file x d) then 1 else 0)
      → f.read_file x (unlink_leftovers f names d) ≡ none
  cleared_file lo ts d names x held once = elim (Option-cases (f.read_file x d)) [
    | inl gone ↦ unlink_leftovers-none r names d x gone
    | inr (s, there) ↦
        let (k, named) = stored_named lo ts x (ap is_some (sym held ∙ there)) in
        unlink_leftovers-listed r names d x (ground (arith, ap is_some there))
          (ap (ends_with ".json") named ∙ ends_with-name_of k)
  ]

  module _ (j : Json P) where
    clear-flush :
        (hi : ℕ) (ds : List (SpilledEntryData P)) (q : DiskSpillQueue f) (names : List String)
        → Represents j hi ds q
        → f.readdir (flush q).disk ≡ ok names
        → clear q
          ≡ record (flush q) { count = pos 0; disk = unlink_leftovers f names (flush q).disk }
    unfolding clear flush clear_files
    clear-flush hi ds q names v listed =
        let q' : DiskSpillQueue f = record q { flush_promises = [] } in
        let settled : settle q.flush_promises (record q' { count = pos 0 })
            ≡ record (flush q) { count = pos 0 } =
          ap (λ writes. settle writes (record q' { count = pos 0 })) v.pending
          ∙ settle-count (v.start + length v.done) v.waiting q' (pos 0)
          ∙ ap (λ writes. record (settle writes q') { count = pos 0 }) (sym v.pending) in
        ap (λ (p : DiskSpillQueue f). record p { disk = clear_files f (f.readdir p.disk) p.disk })
          settled
        ∙ ap
            (λ result. record (flush q) {
              count = pos 0;
              disk = clear_files f result (flush q).disk;
            })
            listed

    pub clear-Represents :
        (hi : ℕ) (ds : List (SpilledEntryData P)) (q : DiskSpillQueue f)
        → Represents j hi ds q
        → Represents j hi [] (clear q)
    clear-Represents hi ds q v =
        let ts = v.done ++ v.waiting in
        let (holds, none_left) = flush-Holds j r hi ds q v in
        let (names, listed, once) = r.lists (flush q).disk in
        let all : length ts ≡ length v.done + length v.waiting = length-append v.done v.waiting in
        subst (Represents j hi []) (sym (clear-flush hi ds q names v listed)) (record {
          start = v.start + length ts;
          done = [];
          waiting = [];
          positive = omega (arith, v.positive);
          holds = record {
            files = λ x. cleared_file v.start ts (flush q).disk names x (holds.files x) (once x);
            counted = refl;
            next = holds.next ∙ ap (λ k. some (pos k)) (still (v.start + length ts));
          };
          pending = none_left;
          texts = tt;
          contents = refl;
          below = omega (arith, v.below, all);
        })
      where
        still : (n : ℕ) → n + 0 ≡ n + 0 + 0
        still n = omega arith
