-- ===== src/Dispatcher/Sessions.antt =====
-- What the steps of TopicDispatcher.ts see and change of the sessions.
use stream_fence_js.Prelude.{
  ◌≡◌, refl, String, Option, none, some, List, str_eq, eq_iff, arith, Option-cases, inl, inr,
  if◌then◌else◌,
}
use stream_fence_js.Prelude.Dict
use stream_fence_js.Prelude.Dict.{get-set, get-delete}
use stream_fence_js.Spill.{SpillQueue}
use stream_fence_js.Lane.{Lane}
use stream_fence_js.Sessions.{ClientSessionState}
use stream_fence_js.Dispatcher.{Dispatcher, session_of, put_session, put_lane}

module _ {P : Type 0} {Q : SpillQueue P} {C : Type 0} where
  pub session_of-put_session :
      (c j : String) (s : ClientSessionState Q C) (d : Dispatcher Q C)
      → session_of j (put_session c s d) ≡ (if str_eq c j then some s else session_of j d)
  unfolding session_of put_session Dict.has
  session_of-put_session c j s d = elim (Option-cases (Dict.get c d.registry.sessions)) [
    | inl missing ↦ rw missing (ground (arith, get-set c j s d.detached, eq_iff c j))
    | inr (t, found) ↦ rw found (ground (arith, get-set c j s d.registry.sessions, eq_iff c j))
  ]

  pub session_of-same :
      (j : String) (d d' : Dispatcher Q C)
      → d'.registry.sessions ≡ d.registry.sessions
      → d'.detached ≡ d.detached
      → session_of j d' ≡ session_of j d
  unfolding session_of
  session_of-same j d d' same rest = rw (same, rest) refl

  -- What drains depend on: the client id and the topics that are drained.
  abbrev pub view : Option (ClientSessionState Q C) → Option (String × List String)
  view none = none
  view (some s) = some (s.client_id, s.draining_topics)

  -- The two dispatchers have the same clients, with the same topics drained.
  abbrev pub Quiet : Dispatcher Q C → Dispatcher Q C → Type 0
  Quiet d d' = (j : String) → view (session_of j d') ≡ view (session_of j d)

  pub put_session-Quiet :
      (c : String) (s s' : ClientSessionState Q C) (d : Dispatcher Q C)
      → session_of c d ≡ some s
      → s'.client_id ≡ s.client_id
      → s'.draining_topics ≡ s.draining_topics
      → Quiet d (put_session c s' d)
  put_session-Quiet c s s' d found id topics j =
      ground (arith, session_of-put_session c j s' d, eq_iff c j)

  pub put_lane-Quiet :
      (c topic : String) (l : Lane Q) (s : ClientSessionState Q C) (d : Dispatcher Q C)
      → view (session_of c d) ≡ view (some s)
      → Quiet d (put_lane c topic l s d)
  unfolding put_lane
  put_lane-Quiet c topic l s d found j = ground (
    arith,
    session_of-put_session c j (record s { lanes = Dict.set topic l s.lanes }) d,
    eq_iff c j,
  )
