-- ===== src/DiskQueue/Writing.antt =====
-- `spill` and the writes of a disk queue, as changes to what it holds.
use Prim.Native.String.{String}
use stream_fence_js.Prelude.{
  ℕ, suc, ◌+◌, ◌<◌, ◌≤◌, ◌≡◌, refl, sym, ap, subst, ◌∙◌, some, List, [], ◌∷◌, ◌++◌, map, length,
  arith, All, All-append, pos, append_assoc, length-append,
}
use stream_fence_js.Message.{LaneEntry, Heap}
use stream_fence_js.Spill.Entry.{SpilledEntryData, serialize}
use stream_fence_js.FileNames
use stream_fence_js.FileNames.{file_name, number_of_name}
use stream_fence_js.FileNames.Sorted.{name_of}
use stream_fence_js.DiskQueue.{FileSystem, Json, DiskSpillQueue, Write, write_entry, flush, spill}
use stream_fence_js.DiskQueue.Reliable.{IsReliable, write_entry_lem}
use stream_fence_js.DiskQueue.Contents.{Holds, IsText, writes_from, settle-Holds, write_entry-Holds}
use stream_fence_js.DiskQueue.Calls.{
  spilling, map-append, writes_from-append, write_first, write_next, Represents, CanStore,
}

abbrev pub Text : Type 0 → Type 0
Text P = SpilledEntryData P × String

longer : (a b c : ℕ) → c ≡ suc b → FileNames.add_one (pos (a + b)) ≡ pos (a + c)
longer a b c e = let e' : suc (a + b) ≡ a + c = omega (arith, e) in ap pos e'

length-more :
    {P : Type 0} (ts : List (Text P)) (x : Text P) → length (ts ++ x ∷ []) ≡ suc (length ts)
length-more ts x = omega (arith, length-append ts (x ∷ []))

module _ {P : Type 0} {f : FileSystem} (j : Json P) where
  pub spill-Represents :
      (hi : ℕ) (ds : List (SpilledEntryData P)) (q : DiskSpillQueue f) (h : Heap) (e : LaneEntry P)
      → Represents j hi ds q
      → CanStore j (spilling h e)
      → Represents j (suc hi) (ds ++ serialize h e ∷ []) (spill j h e q)
  unfolding spill
  spill-Represents hi ds q h e v (s, text) =
      let x : Text P = (serialize h e, s) in
      record {
        start = v.start;
        done = v.done;
        waiting = v.waiting ++ x ∷ [];
        positive = v.positive;
        holds = record {
          files = v.holds.files;
          counted =
              ap FileNames.add_one v.holds.counted
              ∙ longer (length v.done) (length v.waiting) (length (v.waiting ++ x ∷ []))
                  (length-more v.waiting x);
          next =
              ap FileNames.next_number v.holds.next
              ∙ ap some (
                  longer (v.start + length v.done) (length v.waiting) (length (v.waiting ++ x ∷ []))
                    (length-more v.waiting x));
        };
        pending =
            rw (v.pending, v.holds.next, text.written)
              (sym (writes_from-append (v.start + length v.done) v.waiting (serialize h e) s));
        texts =
            rw (← append_assoc v.done v.waiting (x ∷ []))
              (All-append (λ x. IsText j x) (v.done ++ v.waiting) (x ∷ []) v.texts (text, tt));
        contents =
            ap (map (λ x. x.0)) (sym (append_assoc v.done v.waiting (x ∷ [])))
            ∙ map-append (v.done ++ v.waiting) (x ∷ [])
            ∙ ap (λ us. us ++ serialize h e ∷ []) v.contents;
        below = omega (arith, v.below, length-more v.waiting x);
      }

module _ {P : Type 0} {f : FileSystem} (j : Json P) (r : IsReliable f) where
  -- After its writes the queue holds everything in files.
  pub flush-Holds :
      (hi : ℕ) (ds : List (SpilledEntryData P)) (q : DiskSpillQueue f)
      → (v : Represents j hi ds q)
      → Holds v.start (v.done ++ v.waiting) 0 (flush q) × ((flush q).flush_promises ≡ [])
  unfolding flush
  flush-Holds hi ds q v = rw v.pending (
      settle-Holds r v.start (v.start + length v.done) v.done v.waiting
        (record q { flush_promises = [] }) refl
        (record { files = v.holds.files; counted = v.holds.counted; next = v.holds.next }))

  write_first_none : (q : DiskSpillQueue f) → q.flush_promises ≡ [] → write_first q ≡ q
  unfolding write_first write_next
  write_first_none q e = ap (λ writes. write_next writes q) e

  write_first_some :
      (q : DiskSpillQueue f) (w : Write) (writes : List Write)
      → q.flush_promises ≡ w ∷ writes
      → write_first q ≡ write_entry w (record q { flush_promises = writes })
  unfolding write_first write_next
  write_first_some q w writes e = ap (λ writes. write_next writes q) e

  written_first :
      (hi : ℕ) (ds : List (SpilledEntryData P)) (q : DiskSpillQueue f) (lo : ℕ)
      (done waiting : List (Text P))
      → 0 < lo
      → Holds lo done (length waiting) q
      → q.flush_promises ≡ writes_from (lo + length done) waiting
      → All (λ x. IsText j x) (done ++ waiting)
      → map (λ x. x.0) (done ++ waiting) ≡ ds
      → lo + length done + length waiting ≤ hi
      → Represents j hi ds (write_first q)
  written_first hi ds q lo done [] positive v pending texts contents below =
      subst (Represents j hi ds) (sym (write_first_none q pending)) (record {
        start = lo;
        done = done;
        waiting = [];
        positive = positive;
        holds = v;
        pending = pending;
        texts = texts;
        contents = contents;
        below = below;
      })
  written_first hi ds q lo done ((t, s) ∷ waiting) positive v pending texts contents below =
      let rest = writes_from (suc (lo + length done)) waiting in
      let q' : DiskSpillQueue f = record q { flush_promises = rest } in
      let next : suc (lo + length done) ≡ lo + length (done ++ (t, s) ∷ []) =
        omega (arith, length-more done (t, s)) in
      subst (Represents j hi ds)
        (sym
          (write_first_some q _ rest pending ∙ write_entry_lem r (name_of (lo + length done)) s q'))
        (record {
          start = lo;
          done = done ++ (t, s) ∷ [];
          waiting = waiting;
          positive = positive;
          holds =
              write_entry-Holds r lo (lo + length done) (length waiting) done t s q' refl
                (record { files = v.files; counted = v.counted; next = v.next });
          pending = ap (λ k. writes_from k waiting) next;
          texts = rw (append_assoc done ((t, s) ∷ []) waiting) texts;
          contents = rw (append_assoc done ((t, s) ∷ []) waiting) contents;
          below = omega (arith, below, next);
        })

  pub write_first-Represents :
      (hi : ℕ) (ds : List (SpilledEntryData P)) (q : DiskSpillQueue f)
      → Represents j hi ds q
      → Represents j hi ds (write_first q)
  write_first-Represents hi ds q v =
      written_first hi ds q v.start v.done v.waiting v.positive v.holds v.pending v.texts v.contents
        v.below
