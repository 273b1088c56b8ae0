-- ===== src/Tests/Sessions.antt =====
-- The theorems on ClientSessionRegistry.ts at concrete registries.
use stream_fence_js.Prelude.{ℕ, ◌≡◌, refl, false, String, none, some, [], ◌∷◌, arith}
use stream_fence_js.Prelude.Dict
use stream_fence_js.Sessions.{ClientSessionState, has_member, subscribe_topic, add}
use stream_fence_js.Sessions.Registry.{ClientSessionRegistry, remove, subscribe}
use stream_fence_js.Sessions.Members.{IsConsistent, ids_at, subscribe-IsConsistent}
use stream_fence_js.Sessions.Departure.{remove-IsConsistent}
use stream_fence_js.Tests.Data.{disk}

abbrev pub client : ClientSessionState disk ℕ
client = record {
  client_id = "c1";
  namespace = "/feed";
  client = 7;
  subscriptions = [];
  lanes = [];
  draining_topics = [];
}

abbrev nobody : ClientSessionRegistry disk ℕ
nobody = record { sessions = []; subscriptions = [] }

pub nobody-IsConsistent : IsConsistent nobody
unfolding has_member Dict.get
nobody-IsConsistent c k m = absurd (ground arith)

nobody_registered :
    (t : ClientSessionState disk ℕ) → Dict.get "c1" nobody.sessions ≡ some t → t ≡ client
unfolding Dict.get
nobody_registered t e = absurd (ground arith)

abbrev pub somebody : ClientSessionRegistry disk ℕ
somebody = subscribe client "prices" nobody

pub somebody-IsConsistent : IsConsistent somebody
somebody-IsConsistent =
    subscribe-IsConsistent client "prices" nobody nobody_registered nobody-IsConsistent

abbrev pub subscribed : ClientSessionState disk ℕ
subscribed = record client { subscriptions = "prices" ∷ [] }

pub somebody_registered : Dict.get "c1" somebody.sessions ≡ some subscribed
unfolding subscribe subscribe_topic add Dict.get Dict.set
somebody_registered = refl

remove-IsConsistent_example :
    IsConsistent (remove "c1" somebody).1
    × (Dict.get "c1" (remove "c1" somebody).1.sessions ≡ none)
    × ((k : String) → has_member "c1" (ids_at k (remove "c1" somebody).1.subscriptions) ≡ false)
remove-IsConsistent_example = remove-IsConsistent "c1" somebody somebody-IsConsistent
