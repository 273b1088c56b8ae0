-- ===== src/Dispatcher/Lanes.antt =====
-- What holds of a lane whatever ClientLane.ts does to it holds of all lanes that TopicDispatcher.ts
-- reaches.
pub mod Publish
pub mod Drain
pub mod Retries
pub mod Members
pub mod Exact
use stream_fence_js.Prelude.{
  ℕ, ◌≡◌, refl, ap, sym, ◌∙◌, Bool, true, false, String, Option, none, some, List, [], ◌∷◌, ◌++◌,
  map, str_eq, eq_iff, arith, Option-cases, Bool-cases, inl, inr, if◌then◌else◌,
}
use stream_fence_js.Prelude.Dict
use stream_fence_js.Prelude.Dict.{get-set, get-delete}
use stream_fence_js.Policy.{TopicPolicy}
use stream_fence_js.Message.{LaneEntry, Heap}
use stream_fence_js.Spill.{SpillQueue}
use stream_fence_js.Lane.{
  Lane, enqueue, shift, poll_resume, refill_from_disk, remove_by_message_id, clear_spill,
}
use stream_fence_js.Sessions.{
  ClientSessionState, dispose, start_drain, finish_drain, has_member, add,
}
use stream_fence_js.Dispatcher.{
  Dispatcher, session_of, put_session, put_lane, schedule_drain, queued,
}
use stream_fence_js.Dispatcher.Drain.{finish}
use stream_fence_js.Dispatcher.Sessions.{session_of-put_session, session_of-same}

module _ {P : Type 0} {Q : SpillQueue P} where
  -- What a new lane has and every operation on a lane keeps.
  pub record IsLaneInvariant (Keeps : Lane Q → Type 0) : Type 0 where
    pub created :
        (policy : TopicPolicy) (s : Option Q.State)
        → Keeps (record { policy = policy; queue = []; queued_bytes = 0; spill_queue = s })
    pub enqueued : (h : Heap) (l : Lane Q) (e : LaneEntry P) → Keeps l → Keeps (enqueue h l e).1
    pub shifted :
        (h : Heap) (l : Lane Q) (e : LaneEntry P) (q : List (LaneEntry P))
        → l.queue ≡ e ∷ q
        → Keeps l
        → Keeps (shift h l (e ∷ q)).2
    pub polled : (h : Heap) (l : Lane Q) → Keeps l → Keeps (poll_resume h l).2
    pub refilled : (h : Heap) (l : Lane Q) → Keeps l → Keeps (refill_from_disk h l).1
    pub removed :
        (h : Heap) (l : Lane Q) (id : String) → Keeps l → Keeps (remove_by_message_id h l id).2
    pub cleared : (l : Lane Q) → Keeps l → Keeps (clear_spill l)

module _ {P : Type 0} {Q : SpillQueue P} {C : Type 0} (Keeps : Lane Q → Type 0) where
  -- All lanes of a session keep it, and all lanes of all session objects do.
  abbrev pub Held : ClientSessionState Q C → Type 0
  Held s = (t : String) (l : Lane Q) → Dict.get t s.lanes ≡ some l → Keeps l

  abbrev pub AllHeld : Dispatcher Q C → Type 0
  AllHeld d = (c : String) (s : ClientSessionState Q C) → session_of c d ≡ some s → Held s

module _ {P : Type 0} {Q : SpillQueue P} {C : Type 0} {Keeps : Lane Q → Type 0} where
  pub set-Held :
      (t : String) (l : Lane Q) (s : ClientSessionState Q C)
      → Keeps l
      → Held Keeps s
      → Held Keeps (record s { lanes = Dict.set t l s.lanes })
  set-Held t l s k v u m e = elim (Dict.get-set_cases t u l m s.lanes e) [
    | inl (here, same) ↦ rw same k
    | inr (apart, there) ↦ v u m there
  ]

  pub same-AllHeld :
      (d d' : Dispatcher Q C)
      → d'.registry.sessions ≡ d.registry.sessions
      → d'.detached ≡ d.detached
      → AllHeld Keeps d
      → AllHeld Keeps d'
  same-AllHeld d d' same rest v c s e = v c s (sym (session_of-same c d d' same rest) ∙ e)

  pub put_session-AllHeld :
      (c : String) (s : ClientSessionState Q C) (d : Dispatcher Q C)
      → Held Keeps s
      → AllHeld Keeps d
      → AllHeld Keeps (put_session c s d)
  put_session-AllHeld c s d k v j u e = elim (Bool-cases (str_eq c j)) [
    | inl here ↦ let same : u ≡ s = ground (arith, session_of-put_session c j s d) in rw same k
    | inr apart ↦ v j u (ground (arith, session_of-put_session c j s d))
  ]

  -- A lane is written, after a change of other parts of the state.
  pub put_lane-AllHeld :
      (c t : String) (l : Lane Q) (s : ClientSessionState Q C) (d d' : Dispatcher Q C)
      → d'.registry.sessions ≡ d.registry.sessions
      → d'.detached ≡ d.detached
      → Held Keeps s
      → Keeps l
      → AllHeld Keeps d
      → AllHeld Keeps (put_lane c t l s d')
  unfolding put_lane
  put_lane-AllHeld c t l s d d' same rest k held v =
      put_session-AllHeld c (record s { lanes = Dict.set t l s.lanes }) d' (set-Held t l s held k)
        (same-AllHeld d d' same rest v)

  pub schedule_drain-AllHeld :
      (c t : String) (d : Dispatcher Q C) → AllHeld Keeps d → AllHeld Keeps (schedule_drain c t d)
  unfolding schedule_drain start_drain
  schedule_drain-AllHeld c t d v = elim (Option-cases (session_of c d)) [
    | inl missing ↦ rw (missing, schedule_drain) v
    | inr (s, here) ↦ elim (Bool-cases (has_member t s.draining_topics)) [
      | inl on ↦ rw (here, schedule_drain) (rw on v)
      | inr off ↦
          let s' : ClientSessionState Q C = record s {
            draining_topics = add t s.draining_topics;
          } in
          let d' = put_session c s' d in
          rw (here, schedule_drain)
            (rw off (
              same-AllHeld d' (record d' { tasks = d'.tasks ++ queued c t ∷ [] }) refl refl
                (put_session-AllHeld c s' d (v c s here) v)))
    ]
  ]

  pub finish-AllHeld :
      (c t : String) (d : Dispatcher Q C) → AllHeld Keeps d → AllHeld Keeps (finish c t d)
  unfolding finish finish_drain
  finish-AllHeld c t d v = elim (Option-cases (session_of c d)) [
    | inl missing ↦ rw (missing, finish) v
    | inr (s, here) ↦ rw (here, finish) (put_session-AllHeld c (finish_drain t s) d (v c s here) v)
  ]
