-- ===== src/Sessions/Departure.antt =====
-- `remove` of ClientSessionRegistry.ts.
use stream_fence_js.Prelude.{
  Bool, true, false, ◌≡◌, ◌≢◌, refl, ap, ◌∙◌, String, none, some, List, [], ◌∷◌, eq_iff, eq_refl,
  arith, Option-cases, inl, inr,
}
use stream_fence_js.Prelude.Dict
use stream_fence_js.Prelude.Dict.{get-set, get-delete, get-set_cases, get-delete_cases}
use stream_fence_js.Spill.{SpillQueue}
use stream_fence_js.Topics.{topic_key}
use stream_fence_js.Sessions.{ClientSessionState, has_member, is_subscribed, dispose}
use stream_fence_js.Sessions.Registry.{
  ClientSessionRegistry, remove_subscription, remove_subscriptions, remove,
}
use stream_fence_js.Sessions.Members.{
  ids_at, IsMember, IsConsistent, remove_subscription-member, remove_subscription-sessions,
}

not_true : {b : Bool} → ¬ (b ≡ true) → b ≡ false
not_true {b = true} h = absurd (h refl)
not_true {b = false} h = refl

module _ {P : Type 0} {Q : SpillQueue P} {C : Type 0} where
  remove_subscriptions-member :
      (namespace : String) (topics : List String) (client_id c k : String)
      (r : ClientSessionRegistry Q C)
      → has_member c (ids_at k (remove_subscriptions namespace topics client_id r).subscriptions)
        ≡ true
      → (has_member c (ids_at k r.subscriptions) ≡ true)
        × ((client_id ≡ c) → (t : String) → has_member t topics ≡ true → topic_key namespace t ≢ k)
  unfolding remove_subscriptions has_member
  remove_subscriptions-member namespace [] client_id c k r m = (m, λ e t h. ground arith)
  remove_subscriptions-member namespace (topic ∷ topics) client_id c k r m =
      let r' = remove_subscription namespace topic client_id r in
      let later = remove_subscriptions-member namespace topics client_id c k r' m in
      let now = remove_subscription-member namespace topic client_id c k r in
      (
        ground arith,
        λ e t h f. ground (
          arith,
          later.1 e t,
          eq_iff topic t,
          eq_iff client_id c,
          eq_iff (topic_key namespace topic) k,
        ),
      )

  remove_subscriptions-sessions :
      (namespace : String) (topics : List String) (client_id : String)
      (r : ClientSessionRegistry Q C)
      → (remove_subscriptions namespace topics client_id r).sessions ≡ r.sessions
  unfolding remove_subscriptions
  remove_subscriptions-sessions namespace [] client_id r = refl
  remove_subscriptions-sessions namespace (topic ∷ topics) client_id r =
      remove_subscriptions-sessions namespace topics client_id
        (remove_subscription namespace topic client_id r)
      ∙ remove_subscription-sessions namespace topic client_id r

  -- What `remove` returns and what it leaves, for a registered client.
  pub remove-sessions :
      (client_id : String) (s : ClientSessionState Q C) (r : ClientSessionRegistry Q C)
      → Dict.get client_id r.sessions ≡ some s
      → ((remove client_id r).0 ≡ some (dispose s))
        × ((remove client_id r).1.sessions ≡ Dict.delete client_id r.sessions)
  unfolding remove
  remove-sessions client_id s r found =
      let same = remove_subscriptions-sessions s.namespace s.subscriptions client_id r in
      rw (found, remove) (refl, ap (Dict.delete client_id) same)

  -- A session that keeps a subscription when another client is removed is not that client.
  removed-other :
      (client_id : String) (s : ClientSessionState Q C) (r : ClientSessionRegistry Q C)
      → IsConsistent r
      → Dict.get client_id r.sessions ≡ some s
      → (c k : String)
      → has_member c
          (ids_at k (remove_subscriptions s.namespace s.subscriptions client_id r).subscriptions)
        ≡ true
      → (client_id ≢ c) × IsMember c k r.sessions
  unfolding is_subscribed
  removed-other client_id s r v own c k m =
      let (before, others) =
        remove_subscriptions-member s.namespace s.subscriptions client_id c k r m in
      let (t, found, id, u, on, at) = v c k before in
      (
        λ e. let same : t ≡ s = ground arith in others e u (ground arith) (ground arith),
        (t, found, id, u, on, at),
      )

  missing_apart :
      (a c k : String) (m : List (String × ClientSessionState Q C))
      → Dict.get a m ≡ none
      → IsMember c k m
      → a ≢ c
  missing_apart a c k m missing (s, found, _, _, _, _) e = ground arith

  kept-delete :
      (client_id c k : String) (m : List (String × ClientSessionState Q C))
      → client_id ≢ c
      → IsMember c k m
      → IsMember c k (Dict.delete client_id m)
  kept-delete client_id c k m ne (t, found, id, u, on, at) =
      (t, ground (arith, get-delete client_id c m, eq_iff client_id c), id, u, on, at)

  delete-gone :
      (client_id : String) (m : List (String × ClientSessionState Q C))
      → Dict.get client_id (Dict.delete client_id m) ≡ none
  delete-gone client_id m = ground (arith, get-delete client_id client_id m, eq_refl client_id)

  -- If all who stand in the subscriptions are registered and subscribed, that is so after
  -- `remove`; and the client that it removes is not registered and stands under no key.
  pub remove-IsConsistent :
      (client_id : String) (r : ClientSessionRegistry Q C)
      → IsConsistent r
      → IsConsistent (remove client_id r).1
        × (Dict.get client_id (remove client_id r).1.sessions ≡ none)
        × ((k : String)
            → has_member client_id (ids_at k (remove client_id r).1.subscriptions) ≡ false)
  unfolding remove
  remove-IsConsistent client_id r v = elim (Option-cases (Dict.get client_id r.sessions)) [
    | inl missing ↦
        rw (missing, remove)
          (
            λ c k m.
                let before = v c k m in
                kept-delete client_id c k r.sessions
                  (missing_apart client_id c k r.sessions missing before) before,
            delete-gone client_id r.sessions,
            λ k. not_true (λ m.
                missing_apart client_id client_id k r.sessions missing (v client_id k m) refl),
          )
    | inr (s, found) ↦
        let same = remove_subscriptions-sessions s.namespace s.subscriptions client_id r in
        let other = removed-other client_id s r v found in
        rw (found, remove)
          (rw same (
            λ c k m. kept-delete client_id c k r.sessions (other c k m).0 (other c k m).1,
            delete-gone client_id r.sessions,
            λ k. not_true (λ m. (other client_id k m).0 refl),
          ))
  ]
