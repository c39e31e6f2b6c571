-- ===== src/Provider/Updater/Versions.antt =====
-- Which snapshots of a node reach its clients.
use bent.Cache.Simple.{set_snapshot, World, Cancel}
use bent.Cache.Simple.Notify.{set_snapshot-IsNotified, due, answers, is_current, info_answers}
use bent.Provider.Node.{endpoints_of, Node}
use bent.Cache.Simple.Sound.{IsSound, set_snapshot_returns}
use bent.Cache.Simple.Current.{IsCurrent, CurrentAt, AllWatches}
use bent.Cache.Resource.{Resource, endpoint_type, cluster_type, route_type, listener_type}
use bent.Cache.Status.{StatusInfo, ResponseWatch}
use bent.Provider.Updater.{snapshot_of, compute_version, payloads, Orders}
use bent.Cache.Simple.Delivery.{answers-Mem}
use bent.Cache.Simple.Canceling.{watch_at}
use bent.Cache.Simple.Answering.{watch_at-IsCurrent, is_held_back-false}
use bent.Cache.Snapshot.{new_snapshot, get_version, Snapshot}
use mathlib.Core.List.{append-nil, mem-append_right, Mem}
use bent.Shared.{
  ◌==◌, ==_iff, Bool-cases, Option-cases, Map, lookup, ℕ, String, ◌≡◌, refl, sym, ap, ◌∙◌, ◌≢◌, ◌⊎◌,
  inl, inr, Bool, true, false, Option, none, some, List, [], ◌∷◌, ◌++◌, arith, string_key, nat_key,
}

-- The version of a snapshot depends on nothing but the text that it was built with.
get_version-new_snapshot :
    (version url : String) (es cs rs ls es' cs' rs' ls' : List Resource)
    → get_version (some (new_snapshot version es cs rs ls)) url
      ≡ get_version (some (new_snapshot version es' cs' rs' ls')) url
unfolding get_version new_snapshot
get_version-new_snapshot version url es cs rs ls es' cs' rs' ls' = ground arith

-- A snapshot that agrees with the stored one in every version answers no watch.
answers_none :
    (ads : Bool) (old new : Snapshot) (ws : Map ℕ ResponseWatch)
    → ((url : String) → get_version (some new) url ≡ get_version (some old) url)
    → AllWatches (λ w. is_current old w ≡ true) ws
    → answers ads new ws ≡ []
answers_none ads old new [] same h = refl
answers_none ads old new ((id, w) ∷ ws) same h =
    rw (same w.request.type_url, h.0) (answers_none ads old new ws same h.1)

info_answers_none :
    (ads : Bool) (old new : Snapshot) (info : Option StatusInfo)
    → ((url : String) → get_version (some new) url ≡ get_version (some old) url)
    → CurrentAt (some old) info
    → info_answers ads new info ≡ []
info_answers_none ads old new none same h = refl
info_answers_none ads old new (some info) same h = answers_none ads old new info.watches same h

-- The type URLs of the resources that the updater fills.
abbrev pub IsFilled : String → Type 0
IsFilled url =
    (url ≡ endpoint_type) ⊎ (url ≡ cluster_type) ⊎ (url ≡ route_type) ⊎ (url ≡ listener_type)

get_version-IsFilled :
    (version url : String) (es cs rs ls : List Resource)
    → IsFilled url
    → get_version (some (new_snapshot version es cs rs ls)) url ≡ version
unfolding get_version new_snapshot
get_version-IsFilled version url es cs rs ls (inl e) = rw e refl
get_version-IsFilled version url es cs rs ls (inr (inl e)) = rw e refl
get_version-IsFilled version url es cs rs ls (inr (inr (inl e))) = rw e refl
get_version-IsFilled version url es cs rs ls (inr (inr (inr e))) = rw e refl

-- A watch that is open for a client with the old version is stale for the new one.
is_current-differ :
    (old new : Snapshot) (d : Cancel) (v : ResponseWatch) (w : World)
    → IsCurrent w
    → lookup d.node w.snapshots ≡ some old
    → watch_at d w ≡ some v
    → get_version (some new) v.request.type_url ≢ get_version (some old) v.request.type_url
    → is_current new v ≡ false
is_current-differ old new d v w current stored at differ =
    let now = watch_at-IsCurrent d w v current at in
    ground (
      arith,
      stored,
      now,
      differ,
      ==_iff (get_version (some old) v.request.type_url) v.request.version_info,
      ==_iff (get_version (some new) v.request.type_url) v.request.version_info,
    )

module _ (md5 : List (List ℕ) → String) (marshal : Resource → Option (List ℕ)) where
  -- What the version of a snapshot is the hash of: the assignments in the order of the first call.
  abbrev pub hashed : Orders → Node → List (List ℕ)
  hashed o n = payloads marshal (endpoints_of o.hashed n)

  same_hashed-sent :
      (o o' : Orders) (n n' : Node) (w w' : World)
      → IsCurrent w
      → lookup n'.name w.snapshots ≡ some (snapshot_of md5 marshal o n)
      → md5 (hashed o' n') ≡ md5 (hashed o n)
      → set_snapshot n'.name (snapshot_of md5 marshal o' n') w ≡ some w'
      → w'.channels.buffered ≡ w.channels.buffered
  unfolding snapshot_of compute_version
  same_hashed-sent o o' n n' w w' current stored same set =
      let old = snapshot_of md5 marshal o n in
      let new = snapshot_of md5 marshal o' n' in
      let v = set_snapshot-IsNotified n'.name new w w' set in
      let versions : (url : String) → get_version (some new) url ≡ get_version (some old) url =
        λ url. rw same (get_version-new_snapshot _ url _ _ _ _ _ _ _ _) in
      v.sent
      ∙ ap (λ t. w.channels.buffered ++ t)
          (info_answers_none w.ads old new (lookup n'.name w.status) versions
            (rw stored at (current n'.name)))
      ∙ append-nil w.channels.buffered

  other_hashed-sent :
      (o o' : Orders) (n n' : Node) (w w' : World) (id : ℕ) (v : ResponseWatch)
      → IsCurrent w
      → w.ads ≡ false
      → lookup n'.name w.snapshots ≡ some (snapshot_of md5 marshal o n)
      → watch_at (record { node = n'.name; watch = id }) w ≡ some v
      → IsFilled v.request.type_url
      → md5 (hashed o' n') ≢ md5 (hashed o n)
      → set_snapshot n'.name (snapshot_of md5 marshal o' n') w ≡ some w'
      → Mem (v.response, due (snapshot_of md5 marshal o' n') v) w'.channels.buffered
  unfolding snapshot_of compute_version
  other_hashed-sent o o' n n' w w' id v current mode stored at filled differ set =
      let old = snapshot_of md5 marshal o n in
      let new = snapshot_of md5 marshal o' n' in
      let url = v.request.type_url in
      let first = get_version-IsFilled (md5 (hashed o n)) url _ _ _ _ filled in
      let second = get_version-IsFilled (md5 (hashed o' n')) url _ _ _ _ filled in
      let versions : get_version (some new) url ≢ get_version (some old) url =
        λ same. differ (sym second ∙ same ∙ first) in
      let d : Cancel = record { node = n'.name; watch = id } in
      let stale = is_current-differ old new d v w current stored at versions in
      let sent = (set_snapshot-IsNotified n'.name new w w' set).sent in
      elim (Option-cases (lookup n'.name w.status)) [
        | inl missing ↦ absurd (ground (arith, missing, at))
        | inr (info, found) ↦
            rw (sent, found, mode)
              (mem-append_right w.channels.buffered (
                answers-Mem false new id v info.watches (ground (arith, found, at)) stale
                  (is_held_back-false new v)))
      ]

  -- Whether an open watch of a node is answered by the node's next snapshot depends on nothing but
  -- the payloads of the endpoint assignments in the order in which they were hashed. The cache is
  -- sound and current and holds no response back, it has a snapshot of the node, and the hash of the two lists
  -- of payloads does not collide. `SetSnapshot` returns. If they are the same, no channel receives anything, whatever
  -- else of the node has changed; if they differ, be it by the order of the iteration alone, every
  -- open watch of the node for one of the four types is sent its response.
  pub set_snapshot-snapshot_of :
      (o o' : Orders) (n n' : Node) (w : World) (id : ℕ) (v : ResponseWatch)
      → IsSound w
      → IsCurrent w
      → w.ads ≡ false
      → lookup n'.name w.snapshots ≡ some (snapshot_of md5 marshal o n)
      → watch_at (record { node = n'.name; watch = id }) w ≡ some v
      → IsFilled v.request.type_url
      → (md5 (hashed o' n') ≡ md5 (hashed o n) → hashed o' n' ≡ hashed o n)
      → (w' : World) × (set_snapshot n'.name (snapshot_of md5 marshal o' n') w ≡ some w')
        × (((hashed o' n' ≡ hashed o n) × (w'.channels.buffered ≡ w.channels.buffered))
            ⊎ ((hashed o' n' ≢ hashed o n)
                × Mem (v.response, due (snapshot_of md5 marshal o' n') v) w'.channels.buffered))
  set_snapshot-snapshot_of o o' n n' w id v sound current mode stored at filled unlike =
      let (w', set, s) = set_snapshot_returns n'.name (snapshot_of md5 marshal o' n') w sound in
      let new = md5 (hashed o' n') in
      let old = md5 (hashed o n) in
      (
        w',
        set,
        elim (Bool-cases (new == old)) [
          | inl same ↦
              let e : new ≡ old = ground (arith, same, ==_iff new old) in
              inl (unlike e, same_hashed-sent o o' n n' w w' current stored e set)
          | inr other ↦
              let differ : new ≢ old = ground (arith, other, ==_iff new old) in
              inr (
                λ e. differ (ap md5 e),
                other_hashed-sent o o' n n' w w' id v current mode stored at filled differ set,
              )
        ],
      )
