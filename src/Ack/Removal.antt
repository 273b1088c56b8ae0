-- ===== src/Ack/Removal.antt =====
-- `removeClient` and `removeClientTopic` of AckTracker.ts.
use stream_fence_js.Prelude.{
  ◌≡◌, refl, ◌∙◌, Bool, false, ◌||◌, String, Option, none, some, List, [], ◌∷◌, arith,
  if◌then◌else◌, str_eq, eq_iff,
}
use stream_fence_js.Prelude.Dict
use stream_fence_js.Prelude.Dict.{IsDict, get-delete}
use stream_fence_js.Ack.{
  PendingAckState, AckTracker, of_client, of_client_topic, keys_where, delete_all, remove_client,
  remove_client_topic,
}

contains : List String → String → Bool
contains [] k = false
contains (j ∷ ks) k = str_eq j k || contains ks k

module _ {P : Type 0} where
  delete_all-get :
      (ks : List String) (k : String) (m : List (String × PendingAckState P))
      → Dict.get k (delete_all ks m) ≡ (if contains ks k then none else Dict.get k m)
  unfolding contains delete_all
  delete_all-get [] k m = refl
  delete_all-get (j ∷ ks) k m =
      ground (arith, delete_all-get ks k (Dict.delete j m), Dict.get-delete j k m)

  -- What is left of a state after those that pass the test are removed.
  abbrev pub unless :
      (PendingAckState P → Bool) → Option (PendingAckState P) → Option (PendingAckState P)
  unless test none = none
  unless test (some s) = if test s then none else some s

  contains-absent :
      (test : PendingAckState P → Bool) (k : String) (m : List (String × PendingAckState P))
      → Dict.get k m ≡ none
      → contains (keys_where test m) k ≡ false
  unfolding keys_where contains Dict.get
  contains-absent test k [] e = refl
  contains-absent test k ((j, s) ∷ m) e = ground (arith, contains-absent test k m)

  keys_where-contains :
      (test : PendingAckState P → Bool) (k : String) (m : List (String × PendingAckState P))
      → IsDict m
      → (if contains (keys_where test m) k then none else Dict.get k m) ≡ unless test (Dict.get k m)
  unfolding keys_where contains Dict.get
  keys_where-contains test k [] v = refl
  keys_where-contains test k ((j, s) ∷ m) v =
      ground (arith, keys_where-contains test k m, contains-absent test k m, eq_iff j k)

  remove_where :
      (test : PendingAckState P → Bool) (k : String) (m : List (String × PendingAckState P))
      → IsDict m
      → Dict.get k (delete_all (keys_where test m) m) ≡ unless test (Dict.get k m)
  remove_where test k m v = delete_all-get (keys_where test m) k m ∙ keys_where-contains test k m v

  -- In a map with distinct keys, `removeClient` removes exactly the pending messages of the
  -- client.
  remove_client_lem :
      (client_id k : String) (t : AckTracker P)
      → IsDict t.pending
      → Dict.get k (remove_client client_id t).pending
        ≡ unless (of_client client_id) (Dict.get k t.pending)
  unfolding remove_client
  remove_client_lem client_id k t v = remove_where (of_client client_id) k t.pending v

  -- In a map with distinct keys, `removeClientTopic` removes exactly the client's pending
  -- messages of that namespace and topic.
  remove_client_topic_lem :
      (client_id namespace topic k : String) (t : AckTracker P)
      → IsDict t.pending
      → Dict.get k (remove_client_topic client_id namespace topic t).pending
        ≡ unless (of_client_topic client_id namespace topic) (Dict.get k t.pending)
  unfolding remove_client_topic
  remove_client_topic_lem client_id namespace topic k t v =
      remove_where (of_client_topic client_id namespace topic) k t.pending v
