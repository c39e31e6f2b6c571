-- ===== src/Cache/Simple/Watched.antt =====
-- What `CreateWatch` has done when it returns, on each of its branches.
use bent.Cache.Simple.Notify.{respond_lem, due, is_held_back, is_current}
use bent.Cache.Channels.{Channels, make_channel}
use bent.Cache.Snapshot.{get_resources, get_version, Snapshot}
use bent.Cache.Simple.{
  respond, next_watch_id, answer_watch, open_watch, watch_snapshot, touch, node_id, Cancel,
  create_watch, int64_mod, World,
}
use bent.Cache.Status.{Response, StatusInfo, ResponseWatch, Request}
use bent.Shared.{
  if◌then◌else◌, ◌==◌, ==_iff, Bool-cases, Option-cases, lookup, insert, ℕ, suc, ◌+◌, ◌%◌, ◌≡◌,
  refl, ap, ◌∙◌, ◌⊎◌, inl, inr, Bool, false, not, Option, none, some, [], ◌∷◌, ◌++◌, arith,
  string_key, nat_key,
}

-- The cache has a version for the node that the client of the watch does not have.
abbrev pub has_news : Option Snapshot → ResponseWatch → Bool
has_news none w = false
has_news (some snapshot) w = not (is_current snapshot w)

module _ (request : Request) (now : ℕ) (w : World) where
  -- The watch of a call, and the record of its node as the call finds or makes it.
  abbrev pub new_watch : ResponseWatch
  new_watch = record { request = request; response = w.channels.next }

  abbrev pub new_id : ℕ
  new_id = (w.watch_count + 1) % int64_mod

  abbrev pub touched : StatusInfo
  touched = touch request now w.cache

  -- A watch is left open: there is no snapshot for the node, or the client has its version.
  pub record IsOpened (cancel : Option Cancel) (w' : World) : Type 0 where
    pub wanted : has_news (lookup (node_id request.node) w.snapshots) new_watch ≡ false
    pub cancels : cancel ≡ some (record { node = node_id request.node; watch = new_id })
    pub status :
        w'.status
        ≡ insert
            (node_id request.node)
            (record touched { watches = insert new_id new_watch touched.watches })
            (insert (node_id request.node) touched w.status)
    pub count : w'.watch_count ≡ new_id
    pub quiet : w'.channels.buffered ≡ w.channels.buffered

  -- The request is answered at once, or dropped if ADS holds the response back; no watch is left.
  pub record IsAnswered (cancel : Option Cancel) (w' : World) : Type 0 where
    pub snapshot : Snapshot
    pub stored : lookup (node_id request.node) w.snapshots ≡ some snapshot
    pub newer : is_current snapshot new_watch ≡ false
    pub cancels : cancel ≡ none
    pub status : w'.status ≡ insert (node_id request.node) touched w.status
    pub count : w'.watch_count ≡ w.watch_count
    pub sent :
        w'.channels.buffered
        ≡ w.channels.buffered
          ++ (if is_held_back w.ads snapshot new_watch
              then []
              else (w.channels.next, due snapshot new_watch) ∷ [])

  pub record IsWatched (r : ℕ × Option Cancel) (w' : World) : Type 0 where
    pub value : r.0 ≡ w.channels.next
    pub made : w'.channels.next ≡ suc w.channels.next
    pub snapshots : w'.snapshots ≡ w.snapshots
    pub mode : w'.ads ≡ w.ads
    pub outcome : IsOpened r.1 w' ⊎ IsAnswered r.1 w'

  is_current_sym :
      (snapshot : Snapshot)
      → (request.version_info == get_version (some snapshot) request.type_url)
        ≡ is_current snapshot new_watch
  is_current_sym snapshot = ground (
    arith,
    ==_iff request.version_info (get_version (some snapshot) request.type_url),
    ==_iff (get_version (some snapshot) request.type_url) request.version_info,
  )

  -- The world in which `CreateWatch` has touched the record and made the channel.
  abbrev prepared : World
  prepared = record {
    cache = record w.cache { status = insert (node_id request.node) touched w.status };
    channels = record w.channels { next = suc w.channels.next };
  }

  opened-IsWatched :
      {r : ℕ × Option Cancel} {w' : World}
      → some (open_watch request w.channels.next touched prepared) ≡ some (r, w')
      → has_news (lookup (node_id request.node) w.snapshots) new_watch ≡ false
      → IsWatched r w'
  unfolding open_watch next_watch_id
  opened-IsWatched {r} {w'} e wanted = record {
    value = ground arith;
    made = ground arith;
    snapshots = ground arith;
    mode = ground arith;
    outcome = inl (record {
      wanted = wanted;
      cancels = ground arith;
      status = ground arith;
      count = ground arith;
      quiet = ground arith;
    });
  }

  answered-IsWatched :
      (snapshot : Snapshot) (chs : Channels Response) {r : ℕ × Option Cancel} {w' : World}
      → lookup (node_id request.node) w.snapshots ≡ some snapshot
      → is_current snapshot new_watch ≡ false
      → respond w.ads request w.channels.next
          (get_resources (some snapshot) request.type_url)
          (get_version (some snapshot) request.type_url)
          prepared.channels
        ≡ some chs
      → answer_watch request w.channels.next snapshot prepared ≡ some (r, w')
      → IsWatched r w'
  unfolding answer_watch
  answered-IsWatched snapshot chs {r} {w'} stored newer sent e =
      let (buffer, next) =
        respond_lem w.ads request w.channels.next (get_resources (some snapshot) request.type_url)
          (get_version (some snapshot) request.type_url) prepared.channels sent in
      record {
        value = ground (arith, sent);
        made = ground (arith, sent, next);
        snapshots = ground (arith, sent);
        mode = ground (arith, sent);
        outcome = inr (record {
          snapshot = snapshot;
          stored = stored;
          newer = newer;
          cancels = ground (arith, sent);
          status = ground (arith, sent);
          count = ground (arith, sent);
          sent =
              let same : w'.channels ≡ chs = ground (arith, sent) in
              ap (λ (c : Channels Response). c.buffered) same ∙ buffer;
        });
      }

  -- `CreateWatch` makes a new channel; it opens a watch under the next identifier, with a function
  -- to cancel it, exactly if the cache has no news for the client; otherwise it returns no
  -- function, and answers the request at once unless ADS holds the response back.
  pub create_watch-IsWatched :
      {r : ℕ × Option Cancel} {w' : World}
      → create_watch request now w ≡ some (r, w')
      → IsWatched r w'
  unfolding create_watch make_channel watch_snapshot
  create_watch-IsWatched {r} {w'} e =
      elim (Option-cases (lookup (node_id request.node) w.snapshots)) [
        | inl missing ↦ opened-IsWatched (ground (arith, missing)) (rw missing refl)
        | inr (snapshot, stored) ↦ elim (Bool-cases (is_current snapshot new_watch)) [
          | inl current ↦
              opened-IsWatched (ground (arith, stored, is_current_sym snapshot))
                (rw (stored, current) refl)
          | inr newer ↦
              elim (Option-cases (
                respond w.ads request w.channels.next
                  (get_resources (some snapshot) request.type_url)
                  (get_version (some snapshot) request.type_url) prepared.channels)) [
                    | inl blocked ↦
                        unfold answer_watch in
                        absurd (ground (arith, stored, blocked, is_current_sym snapshot))
                    | inr (chs, sent) ↦
                        answered-IsWatched snapshot chs stored newer sent
                          (ground (arith, stored, is_current_sym snapshot))
                  ]
        ]
      ]
