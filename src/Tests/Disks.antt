-- ===== src/Tests/Disks.antt =====
-- The theorems on DiskSpillQueue.ts and its file names at concrete files.
use Prim.Native.String.{String}
use stream_fence_js.Prelude.{
  ℕ, ◌≡◌, refl, true, false, none, some, List, [], ◌∷◌, ok, ◌>>=◌, pos, str_eq, is_space, eq_iff,
  arith, if◌then◌else◌, ap, ◌∙◌, Option-cases, Bool-cases, sym, inl, inr,
}
use stream_fence_js.Prelude.Dict
use stream_fence_js.Prelude.Dict.{is_some}
use stream_fence_js.Spill.Entry.{serialize}
use stream_fence_js.FileNames.{sorts_before, file_name, number_of_name, sort}
use stream_fence_js.FileNames.Sorted.{occurrences}
use stream_fence_js.FileNames.Reading.{number_of_name-file_name}
use stream_fence_js.DiskQueue.{
  FileSystem, Json, DiskSpillQueue, new_queue, recover, recover_loop, entry_files, spilled_count,
  take,
}
use stream_fence_js.DiskQueue.Reliable.{IsReliable}
use stream_fence_js.DiskQueue.Contents.{IsText}
use stream_fence_js.DiskQueue.Calls.{
  Call, spilling, recovering, writing, restarting, run_calls, replay,
}
use stream_fence_js.DiskQueue.Fifo.{run_calls-new_queue}
use stream_fence_js.DiskQueue.Failures.{entries_in, recover-refused}
use stream_fence_js.Message.{set_awaiting}
use stream_fence_js.Policy.{spill_to_disk}
use stream_fence_js.Lane.{Lane, poll}
use stream_fence_js.Lane.Queue.{sum_bytes}
use stream_fence_js.DiskQueue.Stored.{stored}
use stream_fence_js.DiskQueue.Contents.{revive}
use stream_fence_js.DiskQueue.Calls.{Represents}
use stream_fence_js.DiskQueue.{spill}
use stream_fence_js.DiskQueue.Interleaving.{recover_loop-spill}
use stream_fence_js.DiskQueue.{settle}
use stream_fence_js.DiskQueue.Reordering.{entry_writes, swapped, settle-Represents}
use stream_fence_js.DiskQueue.Lanes.{lane_disk, poll-recovered}
use stream_fence_js.Tests.Data.{idle, one, two, policy}

-- A directory as a dictionary, whose keys stay distinct.
abbrev Files : Type 0
Files = (m : List (String × String)) × Dict.IsDict m

rename_in : String → String → List (String × String) → List (String × String)
rename_in x y m = elim (Dict.get x m) [ none ↦ m | some s ↦ Dict.set y s (Dict.delete x m) ]

rename_in-IsDict :
    (x y : String) (m : List (String × String)) → Dict.IsDict m → Dict.IsDict (rename_in x y m)
unfolding rename_in
rename_in-IsDict x y m d = elim (Option-cases (Dict.get x m)) [
  | inl gone ↦ rw (gone, rename_in) d
  | inr (s, there) ↦
      rw (there, rename_in) (Dict.set-IsDict y s (Dict.delete x m) (Dict.delete-IsDict x m d))
]

get-rename_in :
    (x y s z : String) (m : List (String × String))
    → Dict.get x m ≡ some s
    → Dict.get z (rename_in x y m)
      ≡ (if str_eq y z then some s else if str_eq x z then none else Dict.get z m)
unfolding rename_in
get-rename_in x y s z m there =
    rw (there, rename_in)
      (Dict.get-set y z s (Dict.delete x m) ∙ ground (arith, Dict.get-delete x z m))

abbrev names_of : List (String × String) → List String
names_of [] = []
names_of ((x, s) ∷ m) = x ∷ names_of m

abbrev file_system : FileSystem
file_system = record {
  Disk = Files;
  mkdir = λ d. ok d;
  readdir = λ d. ok (names_of d.0);
  write_file = λ x s d. (true, (Dict.set x s d.0, Dict.set-IsDict x s d.0 d.1));
  rename = λ x y d. (true, (rename_in x y d.0, rename_in-IsDict x y d.0 d.1));
  read_file = λ x d. Dict.get x d.0;
  unlink = λ x d. (true, (Dict.delete x d.0, Dict.delete-IsDict x d.0 d.1));
}

occurrences-names_of :
    (x : String) (m : List (String × String))
    → Dict.IsDict m
    → occurrences x (names_of m) ≡ (if is_some (Dict.get x m) then 1 else 0)
unfolding Dict.get
occurrences-names_of x [] d = refl
occurrences-names_of x ((j, v) ∷ m) d = elim (Bool-cases (str_eq j x)) [
  | inl here ↦
      let gone : Dict.get x m ≡ none = ap (λ k. Dict.get k m) (sym ((eq_iff j x).0 here)) ∙ d.0 in
      ground (arith, occurrences-names_of x m d.1)
  | inr later ↦ ground (arith, occurrences-names_of x m d.1)
]

nothing : (x : String) → Dict.get {V = String} x [] ≡ none
unfolding Dict.get
nothing x = refl

file_system-IsReliable : IsReliable file_system
file_system-IsReliable = record {
  makes = λ d. (d, refl, λ x. refl);
  writes = λ x s d. refl;
  written = λ x s y d. Dict.get-set x y s d.0;
  renames = λ x y s d there. refl;
  renamed = λ x y s z d there. get-rename_in x y s z d.0 there;
  unlinks = λ x s d there. refl;
  unlinked = λ x z d. Dict.get-delete x z d.0;
  lists = λ d. (names_of d.0, refl, λ x. occurrences-names_of x d.0 d.1);
}

-- The texts of two entries.
abbrev json : Json ℕ
json = record {
  stringify = λ t. some t.metadata.message_id;
  parse = λ s.
      if str_eq s "msg-1"
      then some (serialize idle one)
      else if str_eq s "msg-2"
      then some (serialize idle two)
      else none;
}

abbrev calls : List (Call ℕ)
calls = spilling idle one ∷ writing ∷ spilling idle two ∷ restarting ∷ recovering 1 idle ∷ []

one-IsText : IsText json (serialize idle one, "msg-1")
unfolding serialize
one-IsText = record { written = refl; read = refl; positive = omega arith }

two-IsText : IsText json (serialize idle two, "msg-2")
unfolding serialize
two-IsText = record { written = refl; read = refl; positive = omega arith }

run_calls-new_queue_example :
    (q' : DiskSpillQueue file_system) × ((new_queue ([], tt) >>= run_calls json calls)
      ≡ ok ((replay calls []).0, q'))
    × (spilled_count q' ≡ pos 1)
run_calls-new_queue_example =
    run_calls-new_queue json file_system-IsReliable ([], tt) calls (λ x. nothing x)
      (("msg-1", one-IsText), (tt, (("msg-2", two-IsText), (tt, (tt, tt))))) (omega arith)

number_of_name-file_name_example : number_of_name (file_name (some (pos 103))) ≡ some (pos 103)
number_of_name-file_name_example = number_of_name-file_name 103

-- The names of the numbers up to eight digits sort as the numbers, and the first of nine digits
-- sorts before the last of eight.
names_sorted :
    sort (file_name (some (pos 10)) ∷ file_name (some (pos 9)) ∷ [])
    ≡ file_name (some (pos 9)) ∷ file_name (some (pos 10)) ∷ []
unfolding sort file_name sorts_before
names_sorted = refl

nine_digits_first :
    sorts_before (file_name (some (pos 100000000))) (file_name (some (pos 99999999))) ≡ true
unfolding file_name sorts_before
nine_digits_first = refl

-- A stray file makes every sequence number NaN.
stray_name : number_of_name "notes.json" ≡ none
unfolding number_of_name is_space
stray_name = refl

-- A file system that refuses to remove files, with one entry in its directory.
abbrev protected : FileSystem
protected = record file_system { unlink = λ x d. (false, d) }

abbrev one_file : DiskSpillQueue protected
one_file = record {
  disk = (("00000001.json", "msg-1") ∷ [], (nothing "00000001.json", tt));
  count = pos 1;
  next_seq = some (pos 2);
  flush_promises = [];
}

recover-refused_example :
    let files = take 1 (entry_files ("00000001.json" ∷ [])) in
    let (es, h) = entries_in protected json files idle one_file.disk in
    let (es', h') = entries_in protected json files h one_file.disk in
    (recover json 1 idle one_file ≡ ok (es, h, one_file))
    × (recover json 1 h one_file ≡ ok (es', h', one_file))
recover-refused_example =
    recover-refused json 1 idle one_file ("00000001.json" ∷ []) refl refl (λ file. refl)

-- A queue whose directory has the first entry.
abbrev one_spilled : DiskSpillQueue file_system
one_spilled = record {
  disk = (("00000001.json", "msg-1") ∷ [], (nothing "00000001.json", tt));
  count = pos 1;
  next_seq = some (pos 2);
  flush_promises = [];
}

one_spilled-files :
    (x : String)
    → file_system.read_file x one_spilled.disk ≡ stored 1 ((serialize idle one, "msg-1") ∷ []) x
unfolding Dict.get file_name
one_spilled-files x = refl

one_spilled-Represents : Represents json 2 (serialize idle one ∷ []) one_spilled
one_spilled-Represents = record {
  start = 1;
  done = (serialize idle one, "msg-1") ∷ [];
  waiting = [];
  positive = omega arith;
  holds = record { files = one_spilled-files; counted = refl; next = refl };
  pending = refl;
  texts = (one-IsText, tt);
  contents = refl;
  below = omega arith;
}

abbrev disk_lane : Lane (lane_disk json file_system-IsReliable)
disk_lane = record {
  policy = policy spill_to_disk false;
  queue = [];
  queued_bytes = 0;
  spill_queue = some one_spilled;
}

poll-recovered_example :
    let (e, h') = revive (serialize idle one) idle in
    (q' : DiskSpillQueue file_system) × (poll idle disk_lane ≡ (
      some e,
      set_awaiting e false h',
      record disk_lane { queue = []; queued_bytes = 0; spill_queue = some q' },
    ))
    × Represents json 2 [] q'
unfolding sum_bytes
poll-recovered_example =
    poll-recovered json file_system-IsReliable idle disk_lane one_spilled 2 1 (serialize idle one)
      [] refl refl refl one_spilled-Represents (omega arith) refl

recover_loop-spill_example :
    let (entries, g', q') = recover_loop json ("00000001.json" ∷ []) idle one_spilled in
    recover_loop json ("00000001.json" ∷ []) idle (spill json idle two one_spilled)
    ≡ (entries, g', spill json idle two q')
recover_loop-spill_example =
    recover_loop-spill json idle two ("00000001.json" ∷ []) idle one_spilled

-- A queue whose two entries are being written.
abbrev two_pending : DiskSpillQueue file_system
two_pending = record {
  disk = ([], tt);
  count = pos 2;
  next_seq = some (pos 3);
  flush_promises = entry_writes ((1, "msg-1") ∷ (2, "msg-2") ∷ []);
}

two_pending-Represents :
    Represents json 3 (serialize idle one ∷ serialize idle two ∷ []) two_pending
two_pending-Represents = record {
  start = 1;
  done = [];
  waiting = (serialize idle one, "msg-1") ∷ (serialize idle two, "msg-2") ∷ [];
  positive = omega arith;
  holds = record { files = nothing; counted = refl; next = refl };
  pending = refl;
  texts = (one-IsText, (two-IsText, tt));
  contents = refl;
  below = omega arith;
}

settle-Represents_example :
    let q' : DiskSpillQueue file_system =
      settle
        (entry_writes ((2, "msg-2") ∷ (1, "msg-1") ∷ []))
        (record two_pending { flush_promises = [] }) in
    Represents json 3 (serialize idle one ∷ serialize idle two ∷ []) q' × (q'.flush_promises ≡ [])
settle-Represents_example =
    settle-Represents json file_system-IsReliable 3 (serialize idle one ∷ serialize idle two ∷ [])
      two_pending ((1, "msg-1") ∷ (2, "msg-2") ∷ []) ((2, "msg-2") ∷ (1, "msg-1") ∷ [])
      two_pending-Represents refl (swapped 1 2 "msg-1" "msg-2" [] (omega arith))
