-- ===== src/Sessions/Members.antt =====
-- The subscriptions of ClientSessionRegistry.ts against the sessions that it holds.
use stream_fence_js.Prelude.{
  ap, ◌∙◌, true, not, ◌&&◌, ◌||◌, ◌≡◌, ◌≢◌, ◌⊎◌, sym, subst, String, some, List, [], ◌∷◌, str_eq,
  eq_iff, eq_refl, arith, All, Option-cases, Bool-cases, inl, inr, if◌then◌else◌,
}
use stream_fence_js.Prelude.Dict
use stream_fence_js.Prelude.Dict.{get-set, get-delete, get-set_cases, get-delete_cases}
use stream_fence_js.Spill.{SpillQueue}
use stream_fence_js.Topics.{topic_key}
use stream_fence_js.Sessions.{
  ClientSessionState, has_member, add, remove_member, subscribe_topic, unsubscribe_topic,
  is_subscribed,
}
use stream_fence_js.Sessions.Registry.{
  ClientSessionRegistry, ids, without, remove_subscription, sessions_of, subscribers_of, subscribe,
  unsubscribe,
}

str_eq-cases : (x y : String) → (x ≡ y) ⊎ (x ≢ y)
str_eq-cases x y = elim (Bool-cases (str_eq x y)) [
  | inl same ↦ inl ((eq_iff x y).0 same)
  | inr other ↦ inr (λ e. ground (arith, eq_iff x y))
]

pub has_member-add :
    (x y : String) (s : List String) → has_member x (add y s) ≡ (str_eq y x || has_member x s)
unfolding has_member add
has_member-add x y [] = ground arith
has_member-add x y (z ∷ s) =
    ground (arith, eq_iff z y, eq_iff y x, eq_iff z x, has_member-add x y s)

pub has_member-remove :
    (x y : String) (s : List String)
    → has_member x (remove_member y s) ≡ (not (str_eq y x) && has_member x s)
unfolding has_member remove_member
has_member-remove x y [] = ground arith
has_member-remove x y (z ∷ s) =
    ground (arith, eq_iff z y, eq_iff y x, eq_iff z x, has_member-remove x y s)

-- The client ids under a key of the map of subscriptions.
abbrev pub ids_at : String → List (String × List String) → List String
ids_at k m = ids (Dict.get k m)

ids_at-without :
    (key k : String) (s : List String) (m : List (String × List String))
    → ids_at k (without key s m) ≡ (if str_eq key k then s else ids_at k m)
ids_at-without key k [] m = ground (arith, get-delete key k m)
ids_at-without key k (x ∷ s) m = ground (arith, get-set key k (x ∷ s) m)

module _ {P : Type 0} {Q : SpillQueue P} {C : Type 0} where
  -- The client `c` is registered, and its session is subscribed to a topic with the key `k`.
  abbrev pub IsMember : String → String → List (String × ClientSessionState Q C) → Type 0
  IsMember c k sessions =
      (s : ClientSessionState Q C) × (Dict.get c sessions ≡ some s)
      × (s.client_id ≡ c)
      × (topic : String) × (is_subscribed topic s ≡ true)
      × (topic_key s.namespace topic ≡ k)

  -- Whoever stands under a key of the subscriptions is a registered and subscribed client.
  abbrev pub IsConsistent : ClientSessionRegistry Q C → Type 0
  IsConsistent r =
      (c k : String) → has_member c (ids_at k r.subscriptions) ≡ true → IsMember c k r.sessions

  pub remove_subscription-member :
      (namespace topic client_id c k : String) (r : ClientSessionRegistry Q C)
      → has_member c (ids_at k (remove_subscription namespace topic client_id r).subscriptions) ≡ (
          not (str_eq (topic_key namespace topic) k && str_eq client_id c)
          && has_member c (ids_at k r.subscriptions))
  unfolding remove_subscription has_member
  remove_subscription-member namespace topic client_id c k r =
      let key = topic_key namespace topic in
      elim (Option-cases (Dict.get key r.subscriptions)) [
        | inl missing ↦ ground (arith, eq_iff key k)
        | inr (s, found) ↦ ground (
          arith,
          eq_iff key k,
          ids_at-without key k (remove_member client_id s) r.subscriptions,
          has_member-remove c client_id s,
        )
      ]

  pub remove_subscription-sessions :
      (namespace topic client_id : String) (r : ClientSessionRegistry Q C)
      → (remove_subscription namespace topic client_id r).sessions ≡ r.sessions
  unfolding remove_subscription
  remove_subscription-sessions namespace topic client_id r = ground arith

  -- A member is one still when a registered session subscribes.
  still :
      (s : ClientSessionState Q C) (topic : String) (m : List (String × ClientSessionState Q C))
      → ((t : ClientSessionState Q C) → Dict.get s.client_id m ≡ some t → t ≡ s)
      → (c k : String) → IsMember c k m
      → IsMember c k (Dict.set s.client_id (subscribe_topic topic s) m)
  unfolding subscribe_topic is_subscribed
  still s topic m own c k (t, found, id, u, on, at) =
      let written = get-set s.client_id c (subscribe_topic topic s) m in
      elim (str_eq-cases s.client_id c) [
        | inr apart ↦ (t, ground (arith, written, eq_iff s.client_id c), id, u, on, at)
        | inl me ↦
            let same : t ≡ s = own t (ground arith) in
            (
              subscribe_topic topic s,
              ground (arith, written, eq_iff s.client_id c),
              me,
              u,
              ground (arith, has_member-add u topic s.subscriptions),
              ground arith,
            )
      ]

  -- `subscribe`, for a new session or the one registered under its client id, keeps it so that
  -- all who stand in the subscriptions are registered and subscribed.
  pub subscribe-IsConsistent :
      (s : ClientSessionState Q C) (topic : String) (r : ClientSessionRegistry Q C)
      → ((t : ClientSessionState Q C) → Dict.get s.client_id r.sessions ≡ some t → t ≡ s)
      → IsConsistent r
      → IsConsistent (subscribe s topic r)
  unfolding subscribe subscribe_topic is_subscribed
  subscribe-IsConsistent s topic r own v c k m =
      let key = topic_key s.namespace topic in
      let old = ids_at key r.subscriptions in
      let written = get-set key k (add s.client_id old) r.subscriptions in
      let grown = has_member-add c s.client_id old in
      elim (str_eq-cases key k) [
        | inr other ↦ still s topic r.sessions own c k (v c k (ground (arith, eq_iff key k)))
        | inl same ↦ elim (str_eq-cases s.client_id c) [
          | inl me ↦ (
            subscribe_topic topic s,
            ground (
              arith,
              get-set s.client_id c (subscribe_topic topic s) r.sessions,
              eq_iff s.client_id c,
            ),
            me,
            topic,
            ground (arith, has_member-add topic topic s.subscriptions, eq_refl topic),
            same,
          )
          | inr apart ↦
              still s topic r.sessions own c k
                (v c k (ground (arith, eq_iff key k, eq_iff s.client_id c)))
        ]
      ]

  -- `unsubscribe`, for a registered session, keeps it so that all who stand in the subscriptions
  -- are registered and subscribed.
  unsubscribe-IsConsistent :
      (s : ClientSessionState Q C) (topic : String) (r : ClientSessionRegistry Q C)
      → Dict.get s.client_id r.sessions ≡ some s
      → IsConsistent r
      → IsConsistent (unsubscribe s topic r)
  unfolding unsubscribe unsubscribe_topic is_subscribed
  unsubscribe-IsConsistent s topic r own v c k m =
      let key = topic_key s.namespace topic in
      let quiet = unsubscribe_topic topic s in
      let r' = record r { sessions = Dict.set s.client_id quiet r.sessions } in
      let before = remove_subscription-member s.namespace topic s.client_id c k r' in
      let written = get-set s.client_id c quiet r.sessions in
      let (t, found, id, u, on, at) = v c k (ground arith) in
      subst (IsMember c k) (sym (remove_subscription-sessions s.namespace topic s.client_id r'))
        (elim (str_eq-cases s.client_id c) [
          | inr apart ↦ (t, ground (arith, written, eq_iff s.client_id c), id, u, on, at)
          | inl me ↦
              let same : t ≡ s = ground arith in
              (
                quiet,
                ground (arith, written, eq_iff s.client_id c),
                me,
                u,
                ground (
                  arith,
                  has_member-remove u topic s.subscriptions,
                  eq_iff topic u,
                  eq_iff s.client_id c,
                  eq_iff key k,
                ),
                ground arith,
              )
        ])

  sessions_of-All :
      (k : String) (client_ids : List String) (m : List (String × ClientSessionState Q C))
      → ((c : String) → has_member c client_ids ≡ true → IsMember c k m)
      → All
          (λ s.
            (Dict.get s.client_id m ≡ some s)
            × (t : String) × (is_subscribed t s ≡ true)
            × (topic_key s.namespace t ≡ k))
          (sessions_of client_ids m)
  unfolding sessions_of has_member
  sessions_of-All k [] m h = tt
  sessions_of-All k (c ∷ client_ids) m h =
      let rest = sessions_of-All k client_ids m (λ d e. h d (ground arith)) in
      let (s, found, id, t, on, at) = h c (ground (arith, eq_refl c)) in
      rw (found, sessions_of, All) ((ap (λ d. Dict.get d m) id ∙ found, t, on, at), rest)

  -- If all who stand in the subscriptions are registered and subscribed, every session that
  -- `subscribersOf` returns is registered under its client id, and subscribed to the topic, or to
  -- one with its key.
  pub subscribers_of-All :
      (namespace topic : String) (r : ClientSessionRegistry Q C)
      → IsConsistent r
      → All
          (λ s.
            (Dict.get s.client_id r.sessions ≡ some s)
            × (t : String) × (is_subscribed t s ≡ true)
            × (topic_key s.namespace t ≡ topic_key namespace topic))
          (subscribers_of namespace topic r)
  unfolding subscribers_of
  subscribers_of-All namespace topic r v =
      let key = topic_key namespace topic in
      elim (Option-cases (Dict.get key r.subscriptions)) [
        | inl missing ↦ rw (missing, subscribers_of, All) tt
        | inr (client_ids, found) ↦
            rw (found, subscribers_of)
              (sessions_of-All key client_ids r.sessions (λ c m. v c key (rw found m)))
      ]
