-- ===== src/DiskQueue/Contents.antt =====
-- What a disk queue holds, and how its operations change it.
use Prim.Native.String.{String}
use stream_fence_js.Prelude.{
  ℕ, zero, suc, ◌+◌, ◌<◌, ◌≡◌, refl, sym, ap, subst, ◌∙◌, false, none, some, List, [], ◌∷◌, ◌++◌,
  length, length-append, append_assoc, append-nil, arith, str_eq, if◌then◌else◌, pos, ok,
}
use stream_fence_js.Message.{LaneEntry, Heap, new_lane_entry, create_outbound_topic_message}
use stream_fence_js.Spill.Entry.{SpilledEntryData, deserialize}
use stream_fence_js.FileNames.Sorted.{name_of}
use stream_fence_js.DiskQueue.{FileSystem, Json, DiskSpillQueue, Write, settle, read_entry, sub_one}
use stream_fence_js.DiskQueue.Reliable.{IsReliable, written_disk, write_entry_lem, written-disk_lem}
use stream_fence_js.DiskQueue.Stored.{stored, stored_taken, stored-append, stored_unwritten}

abbrev pub drop : {A : Type 0} → ℕ → List A → List A
drop zero xs = xs
drop (suc n) [] = []
drop (suc n) (x ∷ xs) = drop n xs

sub_one-suc : (a b : ℕ) → sub_one (pos (suc a + b)) ≡ pos (a + b)
sub_one-suc a b = let e : suc a + b ≡ suc (a + b) = omega arith in rw e refl

module _ {P : Type 0} where
  -- The entry that the data of a file become.
  abbrev pub revive : SpilledEntryData P → Heap → LaneEntry P × Heap
  revive t h =
      new_lane_entry
        (record {
          outbound_message = record {
            event_name = t.event_name;
            metadata = t.metadata;
            event_arguments = t.event_arguments;
            estimated_bytes = t.estimated_bytes;
          };
          coalesce_key = t.coalesce_key;
        })
        t.retry_count false h

  abbrev pub revive_all : List (SpilledEntryData P × String) → Heap → List (LaneEntry P) × Heap
  revive_all [] h = ([], h)
  revive_all ((t, s) ∷ ts) h =
      let (e, h') = revive t h in let (es, h'') = revive_all ts h' in (e ∷ es, h'')

  -- The pending writes of entries.
  abbrev pub writes_from : ℕ → List (SpilledEntryData P × String) → List Write
  writes_from k [] = []
  writes_from k ((t, s) ∷ ts) =
      record { filename = name_of k; text = some s } ∷ writes_from (suc k) ts

  -- A text that is read back as the data it was written for.
  pub record IsText (j : Json P) (x : SpilledEntryData P × String) : Type 0 where
    pub written : j.stringify x.0 ≡ some x.1
    pub read : j.parse x.1 ≡ some x.0
    pub positive : 0 < x.0.estimated_bytes

  -- The files hold entries under successive numbers, and `n` more are pending.
  pub record Holds {f : FileSystem} (lo : ℕ) (ts : List (SpilledEntryData P × String)) (n : ℕ)
      (q : DiskSpillQueue f) : Type 0 where
    pub files : (x : String) → f.read_file x q.disk ≡ stored lo ts x
    pub counted : q.count ≡ pos (length ts + n)
    pub next : q.next_seq ≡ some (pos (lo + length ts + n))

  deserialize-revive :
      (t : SpilledEntryData P) (h : Heap)
      → 0 < t.estimated_bytes
      → deserialize t h ≡ ok (revive t h)
  unfolding deserialize create_outbound_topic_message
  deserialize-revive t h positive = ground arith

  module _ {f : FileSystem} (r : IsReliable f) where
    write_files :
        (lo : ℕ) (ts : List (SpilledEntryData P × String)) (t : SpilledEntryData P) (s x : String)
        (q : DiskSpillQueue f)
        → f.read_file x q.disk ≡ stored lo ts x
        → f.read_file x (written_disk f (name_of (lo + length ts)) s q.disk)
          ≡ stored lo (ts ++ (t, s) ∷ []) x
    write_files lo ts t s x q h =
        let name = name_of (lo + length ts) in
        written-disk_lem r name s x q.disk
        ∙ ground (arith, h, stored_unwritten lo ts name x)
        ∙ sym (stored-append lo ts t s x)

    pub write_entry-Holds :
        (lo k n : ℕ) (ts : List (SpilledEntryData P × String)) (t : SpilledEntryData P) (s : String)
        (q : DiskSpillQueue f)
        → k ≡ lo + length ts
        → Holds lo ts (suc n) q
        → Holds lo (ts ++ (t, s) ∷ []) n (record q { disk = written_disk f (name_of k) s q.disk })
    write_entry-Holds lo k n ts t s q e v = record {
      files = λ x. rw e (write_files lo ts t s x q (v.files x));
      counted = v.counted ∙ ap pos (omega (arith, length-append ts ((t, s) ∷ [])));
      next = v.next ∙ ap (λ k. some (pos k)) (omega (arith, length-append ts ((t, s) ∷ [])));
    }

    -- The queue holds entries, and is waiting for nothing more than before.
    abbrev IsSettled :
        ℕ → List (SpilledEntryData P × String) → List Write → DiskSpillQueue f → Type 0
    IsSettled lo ts waiting q = Holds lo ts 0 q × (q.flush_promises ≡ waiting)

    settle_first :
        (lo k : ℕ) (ts : List (SpilledEntryData P × String)) (t : SpilledEntryData P) (s : String)
        (ps : List (SpilledEntryData P × String)) (q : DiskSpillQueue f)
        → IsSettled lo ((ts ++ (t, s) ∷ []) ++ ps) q.flush_promises (
            settle
              (writes_from (suc k) ps)
              (record q { disk = written_disk f (name_of k) s q.disk }))
        → IsSettled lo (ts ++ (t, s) ∷ ps) q.flush_promises (settle (writes_from k ((t, s) ∷ ps)) q)
    unfolding settle
    settle_first lo k ts t s ps q h =
        subst
          (λ q'.
            IsSettled lo (ts ++ (t, s) ∷ ps) q.flush_promises (settle (writes_from (suc k) ps) q'))
          (sym (write_entry_lem r (name_of k) s q)) (rw (append_assoc ts ((t, s) ∷ []) ps) at h)

    pub settle-Holds :
        (lo k : ℕ) (ts ps : List (SpilledEntryData P × String)) (q : DiskSpillQueue f)
        → k ≡ lo + length ts
        → Holds lo ts (length ps) q
        → IsSettled lo (ts ++ ps) q.flush_promises (settle (writes_from k ps) q)
    unfolding settle
    settle-Holds lo k ts [] q e v = (rw (append-nil ts) v, refl)
    settle-Holds lo k ts ((t, s) ∷ ps) q e v = settle_first lo k ts t s ps q (
        settle-Holds lo (suc k) (ts ++ (t, s) ∷ []) ps
          (record q { disk = written_disk f (name_of k) s q.disk })
          (omega (arith, length-append ts ((t, s) ∷ [])))
          (write_entry-Holds lo k (length ps) ts t s q e v))

    -- An entry is read back.
    pub read_entry_lem :
        (j : Json P) (x : SpilledEntryData P × String) (file : String) (h : Heap) (d : f.Disk)
        → IsText j x
        → f.read_file file d ≡ some x.1
        → read_entry f j file h d ≡ some (revive x.0 h)
    unfolding read_entry
    read_entry_lem j x file h d p e =
        rw (e, read_entry) (rw p.read (rw (deserialize-revive x.0 h p.positive) refl))

    unlinked_files :
        (lo : ℕ) (x : SpilledEntryData P × String) (ts : List (SpilledEntryData P × String))
        (y : String) (q : DiskSpillQueue f)
        → f.read_file y q.disk ≡ stored lo (x ∷ ts) y
        → (if str_eq (name_of lo) y then none else f.read_file y q.disk) ≡ stored (suc lo) ts y
    unlinked_files lo x ts y q h = ground (arith, stored_taken lo y ts)

    pub unlink-Holds :
        (lo n : ℕ) (x : SpilledEntryData P × String) (ts : List (SpilledEntryData P × String))
        (q : DiskSpillQueue f)
        → Holds lo (x ∷ ts) n q
        → Holds
            (suc lo)
            ts
            n
            (record q { disk = (f.unlink (name_of lo) q.disk).1; count = sub_one q.count })
    unlink-Holds lo n x ts q v = record {
      files = λ y. r.unlinked (name_of lo) y q.disk ∙ unlinked_files lo x ts y q (v.files y);
      counted = ap sub_one v.counted ∙ sub_one-suc (length ts) n;
      next = v.next ∙ ap (λ k. some (pos k)) (omega arith);
    }
