-- ===== src/System/Kinds.antt =====
-- A channel of a stream and the kind that it serves: the watches on it and the responses in it.
use bent.Cache.Resource.{secret_type, listener_type, route_type, cluster_type, endpoint_type}
use bent.Cache.Simple.Current.{AllWatches}
use bent.Cache.Simple.Typed.{due-request}
use bent.Cache.Channels.{AllSent, pending_in}
use bent.Cache.Simple.Usage.{info_uses-le, info_uses, uses}
use bent.Cache.Simple.Sound.{IsSound}
use bent.Cache.Simple.Carrying.{InfoAll, SnapshotAll, Carries, Answers}
use bent.Cache.Status.{ResponseWatch, Request, StatusInfo, Response}
use bent.Cache.Snapshot.{Snapshot}
use bent.Cache.Simple.{World}
use bent.Server.{secrets, listeners, routes, clusters, endpoints, type_url_of, Kind, kind_of}
use bent.Shared.{
  ==_iff, Map, lookup, ℕ, ◌≤◌, String, ◌≡◌, Option, none, some, List, [], ◌∷◌, arith, string_key,
  nat_key,
}

-- On the channel only requests for the type are answered.
abbrev pub AsksOnly : ℕ → String → ℕ → Request → Type 0
AsksOnly ch type_url c req = c ≡ ch → req.type_url ≡ type_url

abbrev pub AnswersOnly : ℕ → String → ℕ → Response → Type 0
AnswersOnly ch type_url c a = c ≡ ch → a.request.type_url ≡ type_url

abbrev pub AnySnapshot : Snapshot → Type 0
AnySnapshot s = Unit

abbrev pub ServesOnly : ℕ → String → World → Type 0
ServesOnly ch type_url w = Carries (AsksOnly ch type_url) (AnswersOnly ch type_url) AnySnapshot w

pub due-AnswersOnly :
    (ch : ℕ) (type_url : String)
    → Answers (AsksOnly ch type_url) (AnswersOnly ch type_url) AnySnapshot
due-AnswersOnly ch type_url s v ok asks e = rw (due-request s v) (asks e)

pub kind_of-type_url : (url : String) (k : Kind) → kind_of url ≡ some k → url ≡ type_url_of k
unfolding kind_of
kind_of-type_url url endpoints e = ground (
  arith,
  e,
  ==_iff url endpoint_type,
  ==_iff url cluster_type,
  ==_iff url route_type,
  ==_iff url listener_type,
  ==_iff url secret_type,
)
kind_of-type_url url clusters e = ground (
  arith,
  e,
  ==_iff url endpoint_type,
  ==_iff url cluster_type,
  ==_iff url route_type,
  ==_iff url listener_type,
  ==_iff url secret_type,
)
kind_of-type_url url routes e = ground (
  arith,
  e,
  ==_iff url endpoint_type,
  ==_iff url cluster_type,
  ==_iff url route_type,
  ==_iff url listener_type,
  ==_iff url secret_type,
)
kind_of-type_url url listeners e = ground (
  arith,
  e,
  ==_iff url endpoint_type,
  ==_iff url cluster_type,
  ==_iff url route_type,
  ==_iff url listener_type,
  ==_iff url secret_type,
)
kind_of-type_url url secrets e = ground (
  arith,
  e,
  ==_iff url endpoint_type,
  ==_iff url cluster_type,
  ==_iff url route_type,
  ==_iff url listener_type,
  ==_iff url secret_type,
)

-- A channel that nothing uses yet.
unused_watches :
    (ch : ℕ) (type_url : String) (ws : Map ℕ ResponseWatch)
    → uses ch ws ≡ 0
    → AllWatches (λ v. AsksOnly ch type_url v.response v.request) ws
unused_watches ch type_url [] e = tt
unused_watches ch type_url ((id, v) ∷ ws) e =
    (λ same. absurd (ground (arith, e, same)), unused_watches ch type_url ws (ground (arith, e)))

unused_info :
    (ch : ℕ) (type_url : String) (o : Option StatusInfo)
    → info_uses ch o ≡ 0
    → InfoAll (λ v. AsksOnly ch type_url v.response v.request) o
unused_info ch type_url none e = tt
unused_info ch type_url (some info) e = unused_watches ch type_url info.watches e

unused_sent :
    (ch : ℕ) (type_url : String) (xs : List (ℕ × Response))
    → pending_in ch xs ≡ 0
    → AllSent (AnswersOnly ch type_url) xs
unused_sent ch type_url [] e = tt
unused_sent ch type_url ((c, a) ∷ xs) e =
    (λ same. absurd (ground (arith, e, same)), unused_sent ch type_url xs (ground (arith, e)))

any_stored : (o : Option Snapshot) → SnapshotAll AnySnapshot o
any_stored none = tt
any_stored (some s) = tt

pub fresh-ServesOnly :
    (ch : ℕ) (type_url : String) (w : World)
    → IsSound w
    → w.channels.next ≤ ch
    → ServesOnly ch type_url w
fresh-ServesOnly ch type_url w v new =
    let none_used = v.fresh ch new in
    record {
      watches = λ node.
          let le = info_uses-le ch node w.status in
          unused_info ch type_url (lookup node w.status) (omega (arith, none_used, le));
      sent = unused_sent ch type_url w.channels.buffered (omega (arith, none_used));
      stored = λ node. any_stored (lookup node w.snapshots);
    }
