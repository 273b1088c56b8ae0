-- ===== src/DiskQueue/Reordering.antt =====
-- Pending writes of a disk queue that are done in another order than they were made.
use Prim.Native.String.{String}
use stream_fence_js.Prelude.{
  ℕ, ◌≡◌, ◌≢◌, refl, sym, ap, subst, ◌∙◌, true, false, none, some, List, [], ◌∷◌, ◌++◌, str_eq,
  eq_iff, arith, if◌then◌else◌, Bool-cases, inl, inr, append-nil, length-append, map,
}
use stream_fence_js.Spill.Entry.{SpilledEntryData}
use stream_fence_js.FileNames.Sorted.{name_of, str_eq-name_of}
use stream_fence_js.DiskQueue.{FileSystem, Json, DiskSpillQueue, Write, settle, tmp_name, flush}
use stream_fence_js.DiskQueue.Reliable.{IsReliable, written_disk, write_entry_lem, written-disk_lem}
use stream_fence_js.DiskQueue.Stored.{tmp_name-ne}
use stream_fence_js.DiskQueue.Contents.{Holds}
use stream_fence_js.DiskQueue.Calls.{Represents}
use stream_fence_js.DiskQueue.Writing.{Text, flush-Holds}

-- The writes of texts under numbers.
abbrev pub entry_writes : List (ℕ × String) → List Write
entry_writes [] = []
entry_writes ((k, s) ∷ ws) = record { filename = name_of k; text = some s } ∷ entry_writes ws

-- Neighbours with different numbers change places, any number of times.
pub data Reordered : List (ℕ × String) → List (ℕ × String) → Type 0 where
  kept : (ws : List (ℕ × String)) → Reordered ws ws
  swapped :
      (i j : ℕ) (s t : String) (ws : List (ℕ × String))
      → i ≢ j
      → Reordered ((i, s) ∷ (j, t) ∷ ws) ((j, t) ∷ (i, s) ∷ ws)
  behind :
      (w : ℕ × String) (vs ws : List (ℕ × String)) → Reordered vs ws → Reordered (w ∷ vs) (w ∷ ws)
  both : (us vs ws : List (ℕ × String)) → Reordered us vs → Reordered vs ws → Reordered us ws

-- Two queues with the same files and fields.
pub record AreAlike {f : FileSystem} (q q' : DiskSpillQueue f) : Type 0 where
  pub files : (x : String) → f.read_file x q.disk ≡ f.read_file x q'.disk
  pub counted : q.count ≡ q'.count
  pub next : q.next_seq ≡ q'.next_seq
  pub pending : q.flush_promises ≡ q'.flush_promises

module _ {f : FileSystem} (r : IsReliable f) where
  alike_trans : (p q s : DiskSpillQueue f) → AreAlike p q → AreAlike q s → AreAlike p s
  alike_trans p q s a b = record {
    files = λ x. a.files x ∙ b.files x;
    counted = a.counted ∙ b.counted;
    next = a.next ∙ b.next;
    pending = a.pending ∙ b.pending;
  }

  alike_refl : (q : DiskSpillQueue f) → AreAlike q q
  alike_refl q = record { files = λ x. refl; counted = refl; next = refl; pending = refl }

  abbrev put : ℕ × String → DiskSpillQueue f → DiskSpillQueue f
  put (k, s) q = record q { disk = written_disk f (name_of k) s q.disk }

  put-AreAlike :
      (w : ℕ × String) (q q' : DiskSpillQueue f) → AreAlike q q' → AreAlike (put w q) (put w q')
  put-AreAlike (k, s) q q' a = record {
    files = λ x.
        written-disk_lem r (name_of k) s x q.disk
        ∙ ap
            (λ o.
              if str_eq (name_of k) x
              then some s
              else if str_eq (tmp_name (name_of k)) x
              then none
              else o)
            (a.files x)
        ∙ sym (written-disk_lem r (name_of k) s x q'.disk);
    counted = a.counted;
    next = a.next;
    pending = a.pending;
  }

  settle-put :
      (w : ℕ × String) (ws : List (ℕ × String)) (q : DiskSpillQueue f)
      → settle (entry_writes (w ∷ ws)) q ≡ settle (entry_writes ws) (put w q)
  unfolding settle
  settle-put (k, s) ws q = ap (settle (entry_writes ws)) (write_entry_lem r (name_of k) s q)

  alike_after :
      (w : ℕ × String) (vs ws : List (ℕ × String)) (q q' : DiskSpillQueue f)
      → AreAlike (settle (entry_writes vs) (put w q)) (settle (entry_writes ws) (put w q'))
      → AreAlike (settle (entry_writes (w ∷ vs)) q) (settle (entry_writes (w ∷ ws)) q')
  alike_after w vs ws q q' a =
      subst (λ p. AreAlike p (settle (entry_writes (w ∷ ws)) q')) (sym (settle-put w vs q))
        (subst (AreAlike (settle (entry_writes vs) (put w q))) (sym (settle-put w ws q')) a)

  settle-AreAlike :
      (ws : List (ℕ × String)) (q q' : DiskSpillQueue f)
      → AreAlike q q'
      → AreAlike (settle (entry_writes ws) q) (settle (entry_writes ws) q')
  settle-AreAlike [] q q' a = unfold settle in a
  settle-AreAlike (w ∷ ws) q q' a =
      alike_after w ws ws q q' (settle-AreAlike ws (put w q) (put w q') (put-AreAlike w q q' a))

  tmp_differs :
      (x : String) (i j : ℕ) → str_eq (tmp_name (name_of i)) x ≡ true → str_eq (name_of j) x ≡ false
  tmp_differs x i j h = elim (Bool-cases (str_eq (name_of j) x)) [
    | inl same ↦ absurd (
        tmp_name-ne (name_of i) j
          ((eq_iff (tmp_name (name_of i)) x).0 h ∙ sym ((eq_iff (name_of j) x).0 same)))
    | inr other ↦ other
  ]

  names_differ :
      (x : String) (i j : ℕ) → i ≢ j → str_eq (name_of i) x ≡ true → str_eq (name_of j) x ≡ false
  names_differ x i j different h =
      ap (str_eq (name_of j)) (sym ((eq_iff (name_of i) x).0 h)) ∙ str_eq-name_of j i ∙ ground arith

  put_comm :
      (i j : ℕ) (s t : String) (q : DiskSpillQueue f)
      → i ≢ j
      → AreAlike (put (j, t) (put (i, s) q)) (put (i, s) (put (j, t) q))
  put_comm i j s t q different = record {
    files = λ x.
        written-disk_lem r (name_of j) t x (put (i, s) q).disk
        ∙ ground (
          arith,
          written-disk_lem r (name_of i) s x q.disk,
          written-disk_lem r (name_of j) t x q.disk,
          names_differ x i j different,
          tmp_differs x i j,
          tmp_differs x j i,
        )
        ∙ sym (written-disk_lem r (name_of i) s x (put (j, t) q).disk);
    counted = refl;
    next = refl;
    pending = refl;
  }

  -- The order makes no difference to the files.
  settle_reordered :
      (vs ws : List (ℕ × String)) (q : DiskSpillQueue f)
      → Reordered vs ws
      → AreAlike (settle (entry_writes vs) q) (settle (entry_writes ws) q)
  settle_reordered vs _ q (kept _) = alike_refl (settle (entry_writes vs) q)
  settle_reordered _ _ q (swapped i j s t ws different) =
      let first = settle-put (i, s) ((j, t) ∷ ws) q ∙ settle-put (j, t) ws (put (i, s) q) in
      let second = settle-put (j, t) ((i, s) ∷ ws) q ∙ settle-put (i, s) ws (put (j, t) q) in
      subst (λ p. AreAlike p (settle (entry_writes ((j, t) ∷ (i, s) ∷ ws)) q)) (sym first)
        (subst (AreAlike (settle (entry_writes ws) (put (j, t) (put (i, s) q)))) (sym second) (
          settle-AreAlike ws (put (j, t) (put (i, s) q)) (put (i, s) (put (j, t) q))
            (put_comm i j s t q different)))
  settle_reordered _ _ q (behind w vs ws rest) =
      alike_after w vs ws q q (settle_reordered vs ws (put w q) rest)
  settle_reordered _ _ q (both us vs ws first second) =
      alike_trans (settle (entry_writes us) q) (settle (entry_writes vs) q)
        (settle (entry_writes ws) q) (settle_reordered us vs q first)
        (settle_reordered vs ws q second)

module _ {P : Type 0} {f : FileSystem} (j : Json P) (r : IsReliable f) where
  alike-Holds :
      (lo n : ℕ) (ts : List (Text P)) (q q' : DiskSpillQueue f)
      → AreAlike q q'
      → Holds lo ts n q
      → Holds lo ts n q'
  alike-Holds lo n ts q q' a v = record {
    files = λ x. sym (a.files x) ∙ v.files x;
    counted = sym a.counted ∙ v.counted;
    next = sym a.next ∙ v.next;
  }

  flush-writes :
      (vs : List (ℕ × String)) (q : DiskSpillQueue f)
      → q.flush_promises ≡ entry_writes vs
      → flush q ≡ settle (entry_writes vs) (record q { flush_promises = [] })
  unfolding flush
  flush-writes vs q e = ap (λ writes. settle writes (record q { flush_promises = [] })) e

  -- On a reliable file system the pending writes may be done in any order that exchanges writes of
  -- different numbers: once they are all done, the queue holds the same data in the same order, and
  -- waits for nothing.
  pub settle-Represents :
      (hi : ℕ) (ds : List (SpilledEntryData P)) (q : DiskSpillQueue f) (vs ws : List (ℕ × String))
      → Represents j hi ds q
      → q.flush_promises ≡ entry_writes vs
      → Reordered vs ws
      → let q' : DiskSpillQueue f = settle (entry_writes ws) (record q { flush_promises = [] }) in
        Represents j hi ds q' × (q'.flush_promises ≡ [])
  settle-Represents hi ds q vs ws v pending reordered =
      let q' : DiskSpillQueue f = settle (entry_writes ws) (record q { flush_promises = [] }) in
      let (holds, none_left) = flush-Holds j r hi ds q v in
      let alike : AreAlike (flush q) q' =
        subst (λ p. AreAlike p q') (sym (flush-writes vs q pending))
          (settle_reordered r vs ws (record q { flush_promises = [] }) reordered) in
      let idle = sym alike.pending ∙ none_left in
      let all = append-nil (v.done ++ v.waiting) in
      (
        record {
          start = v.start;
          done = v.done ++ v.waiting;
          waiting = [];
          positive = v.positive;
          holds = alike-Holds v.start 0 (v.done ++ v.waiting) (flush q) q' alike holds;
          pending = idle;
          texts = rw all v.texts;
          contents = ap (map (λ x. x.0)) all ∙ v.contents;
          below = omega (arith, v.below, length-append v.done v.waiting);
        },
        idle,
      )
