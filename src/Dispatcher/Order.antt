-- ===== src/Dispatcher/Order.antt =====
-- Drains and their flags in TopicDispatcher.ts: `startDrain`, the microtasks and `finishDrain`.
pub mod Publish
pub mod Drain
pub mod Retries
pub mod Members
use stream_fence_js.Prelude.{
  ℕ, ◌+◌, ◌≡◌, refl, ap, sym, ◌∙◌, Bool, true, false, ◌&&◌, String, Option, none, some, List, [],
  ◌∷◌, ◌++◌, str_eq, eq_iff, eq_refl, arith, Option-cases, Bool-cases, inl, inr, if◌then◌else◌,
}
use stream_fence_js.Prelude.Dict
use stream_fence_js.Spill.{SpillQueue}
use stream_fence_js.Lane.{Lane}
use stream_fence_js.Sessions.{
  ClientSessionState, has_member, add, remove_member, start_drain, finish_drain,
}
use stream_fence_js.Sessions.Members.{has_member-add, has_member-remove}
use stream_fence_js.Dispatcher.{
  Dispatcher, Task, queued, polling, polled, finding, found, session_of, put_session, put_lane,
  schedule_drain,
}
use stream_fence_js.Dispatcher.Drain.{finish}
use stream_fence_js.Dispatcher.Step.{client_of, topic_of}
use stream_fence_js.Dispatcher.Sessions.{
  session_of-put_session, session_of-same, view, Quiet, put_lane-Quiet,
}

-- 1 for the drain `(c, t)`.
abbrev pub one_at : String → String → String → String → ℕ
one_at c t j u = if str_eq c j && str_eq t u then 1 else 0

-- The tasks of the drain of topic `u` for client `j`.
abbrev pub drains : {P : Type 0} → String → String → List (Task P) → ℕ
drains j u [] = 0
drains j u (x ∷ tasks) = one_at (client_of x) (topic_of x) j u + drains j u tasks

pub drains-append :
    {P : Type 0} (j u : String) (a b : List (Task P))
    → drains j u (a ++ b) ≡ drains j u a + drains j u b
drains-append j u [] b = omega arith
drains-append j u (x ∷ a) b = omega (arith, drains-append j u a b)

-- 1 if the topic is marked as being drained.
abbrev pub flag : String → Option (String × List String) → ℕ
flag u none = 0
flag u (some (_, topics)) = if has_member u topics then 1 else 0

-- The drain that runs now, and so is no task, if there is one.
abbrev pub running : Option (String × String) → String → String → ℕ
running none j u = 0
running (some (c, t)) j u = one_at c t j u

module _ {P : Type 0} {Q : SpillQueue P} {C : Type 0} where
  -- Every session has its client id, and a topic of a session is marked as being drained exactly if
  -- one drain of it is under way; there is never a second one.
  pub record IsOrderly (now : Option (String × String)) (d : Dispatcher Q C) : Type 0 where
    pub named :
        (c n : String) (topics : List String) → view (session_of c d) ≡ some (n, topics) → n ≡ c
    pub exclusive :
        (j u : String) → drains j u d.tasks + running now j u ≡ flag u (view (session_of j d))

  pub Quiet-IsOrderly :
      (now : Option (String × String)) (d d' : Dispatcher Q C)
      → Quiet d d'
      → d'.tasks ≡ d.tasks
      → IsOrderly now d
      → IsOrderly now d'
  Quiet-IsOrderly now d d' quiet same v = record {
    named = λ c n topics e. v.named c n topics (sym (quiet c) ∙ e);
    exclusive = λ j u.
        ap (λ (ts : List (Task P)). drains j u ts + running now j u) same
        ∙ v.exclusive j u
        ∙ ap (flag u) (sym (quiet j));
  }

  -- A task is put behind for the drain that runs.
  pub await-IsOrderly :
      (t : Task P) (d : Dispatcher Q C)
      → IsOrderly (some (client_of t, topic_of t)) d
      → IsOrderly none (record d { tasks = d.tasks ++ t ∷ [] })
  unfolding session_of
  await-IsOrderly t d v = record {
    named = v.named;
    exclusive = λ j u. omega (arith, drains-append j u d.tasks (t ∷ []), v.exclusive j u);
  }

  -- A task is taken out to run.
  pub take-IsOrderly :
      (a b : List (Task P)) (t : Task P) (d : Dispatcher Q C)
      → d.tasks ≡ a ++ t ∷ b
      → IsOrderly none d
      → IsOrderly (some (client_of t, topic_of t)) (record d { tasks = a ++ b })
  unfolding session_of
  take-IsOrderly a b t d split v = record {
    named = v.named;
    exclusive = λ j u. omega (
      arith,
      drains-append j u a b,
      drains-append j u a (t ∷ b),
      ap (λ (ts : List (Task P)). drains j u ts) split,
      v.exclusive j u,
    );
  }

  put_session-tasks :
      (c : String) (s : ClientSessionState Q C) (d : Dispatcher Q C)
      → (put_session c s d).tasks ≡ d.tasks
  unfolding put_session
  put_session-tasks c s d = ground arith

  -- A change of other parts of the state.
  pub untouched-IsOrderly :
      (now : Option (String × String)) (d d' : Dispatcher Q C)
      → d'.registry.sessions ≡ d.registry.sessions
      → d'.detached ≡ d.detached
      → d'.tasks ≡ d.tasks
      → IsOrderly now d
      → IsOrderly now d'
  untouched-IsOrderly now d d' same rest tasks v =
      Quiet-IsOrderly now d d' (λ j. ap view (session_of-same j d d' same rest)) tasks v

  -- A lane is written, after a change of other parts of the state.
  pub put_lane-IsOrderly :
      (now : Option (String × String)) (c topic : String) (l : Lane Q) (s : ClientSessionState Q C)
      (d d' : Dispatcher Q C)
      → d'.registry.sessions ≡ d.registry.sessions
      → d'.detached ≡ d.detached
      → d'.tasks ≡ d.tasks
      → view (session_of c d) ≡ view (some s)
      → IsOrderly now d
      → IsOrderly now (put_lane c topic l s d')
  unfolding put_lane
  put_lane-IsOrderly now c topic l s d d' same rest tasks here v =
      Quiet-IsOrderly now d' _
        (put_lane-Quiet c topic l s d' (ap view (session_of-same c d d' same rest) ∙ here))
        (put_session-tasks c (record s { lanes = Dict.set topic l s.lanes }) d')
        (untouched-IsOrderly now d d' same rest tasks v)

  started :
      (c t : String) (s : ClientSessionState Q C) (d : Dispatcher Q C)
      → session_of c d ≡ some s
      → has_member t s.draining_topics ≡ false
      → IsOrderly none d
      → IsOrderly
          (some (c, t))
          (put_session c (record s { draining_topics = add t s.draining_topics }) d)
  started c t s d here off v =
      let s' : ClientSessionState Q C = record s { draining_topics = add t s.draining_topics } in
      let put : (j : String) (s : ClientSessionState Q C) (d : Dispatcher Q C)
          → session_of j (put_session c s d) ≡ (if str_eq c j then some s else session_of j d) =
        session_of-put_session c in
      record {
        named = λ j n topics e. ground (
          arith,
          put j s' d,
          eq_iff c j,
          v.named j n topics,
          v.named c s.client_id s.draining_topics,
        );
        exclusive = λ j u. ground (
          arith,
          put j s' d,
          eq_iff c j,
          eq_iff t u,
          put_session-tasks c s' d,
          v.exclusive j u,
          has_member-add u t s.draining_topics,
        );
      }

  pub schedule_drain-IsOrderly :
      (c t : String) (d : Dispatcher Q C) → IsOrderly none d → IsOrderly none (schedule_drain c t d)
  unfolding schedule_drain start_drain
  schedule_drain-IsOrderly c t d v = elim (Option-cases (session_of c d)) [
    | inl missing ↦ rw (missing, schedule_drain) v
    | inr (s, here) ↦ elim (Bool-cases (has_member t s.draining_topics)) [
      | inl on ↦ rw (here, schedule_drain) (rw on v)
      | inr off ↦
          rw (here, schedule_drain)
            (rw off (await-IsOrderly (queued c t) _ (started c t s d here off v)))
    ]
  ]

  pub finish-IsOrderly :
      (c t : String) (d : Dispatcher Q C)
      → IsOrderly (some (c, t)) d
      → IsOrderly none (finish c t d)
  unfolding finish finish_drain
  finish-IsOrderly c t d v = elim (Option-cases (session_of c d)) [
    | inl missing ↦ absurd (ground (arith, v.exclusive c t, eq_refl c, eq_refl t))
    | inr (s, here) ↦
        let s' : ClientSessionState Q C = record s {
          draining_topics = remove_member t s.draining_topics;
        } in
        let put : (j : String) (s : ClientSessionState Q C) (d : Dispatcher Q C)
            → session_of j (put_session c s d) ≡ (if str_eq c j then some s else session_of j d) =
          session_of-put_session c in
        rw (here, finish)
          (record {
            named = λ j n topics e. ground (
              arith,
              put j s' d,
              eq_iff c j,
              v.named j n topics,
              v.named c s.client_id s.draining_topics,
            );
            exclusive = λ j u. ground (
              arith,
              put j s' d,
              eq_iff c j,
              eq_iff t u,
              put_session-tasks c s' d,
              v.exclusive j u,
              has_member-remove u t s.draining_topics,
            );
          })
  ]
