-- ===== src/System/Updated.antt =====
-- From a client's request to the response that the client is sent.
use bent.System.Answered.{IsServed, request-ServedAt}
use bent.System.Reachable.{AllAside}
use bent.System.Waiting.{stream_at-move_at}
use bent.Cache.Simple.Watched.{has_news}
use bent.Cache.Channels.{receive_returns, pending}
use bent.Cache.Simple.Canceling.{watch_at}
use bent.Server.Process.Sending.{handle-HasSent, create_discovery_response_returns, HasSent}
use bent.Cache.Simple.{Cancel, int64_mod, World}
use bent.Cache.Status.{ResponseWatch, Request, Response}
use bent.System.Slots.{stream_at}
use bent.Server.Watcher.{snapshot_watcher}
use bent.Server.Process.{nonce_matches, asked_request, with_type_url, running, finish, Stream}
use bent.Server.{type_url_of, kind_of, slot, Callbacks, Kind}
use bent.Cache.Resource.{Resource}
use bent.System.{
  move_at, new_system, run_system, move, advance, System, Action, moves, flushes, arrives,
}
use bent.Shared.{
  length, lookup, ℕ, ◌+◌, ◌≤◌, ◌<◌, String, ◌≡◌, refl, ◌∙◌, ◌⊎◌, inl, inr, true, false, Option,
  none, some, List, ◌∷◌, string_key, nat_key,
}

-- An open watch of the slot will send to its channel, and its client has the version that the cache
-- has for its node.
abbrev pub HasNoNews : Kind → Stream snapshot_watcher → World → Type 0
HasNoNews k s w =
    (d : Cancel) × (v : ResponseWatch) × ((slot k s.values).cancel ≡ some d)
    × ((slot k s.values).channel ≡ some v.response)
    × (watch_at d w ≡ some v)
    × (has_news (lookup d.node w.snapshots) v ≡ false)

module _ (marshal : Resource → Option (List ℕ)) (callbacks : Option Callbacks) where
  -- The next round of the kind sends a response of it.
  abbrev pub Sends : ℕ → String → Kind → Stream snapshot_watcher → System → Type 0
  Sends i url k s sys =
      (resp : Response) × (sys' : System) × (s' : Stream snapshot_watcher) × (advance marshal
          callbacks (moves i (flushes k true)) sys
        ≡ some sys')
      × (stream_at i sys'.served ≡ some (url, running s'))
      × HasSent marshal callbacks k resp s s'

  -- The client of a stream that still runs has no news to wait for, or gets a response next.
  abbrev pub AnsweredAt : ℕ → Kind → System → Type 0
  AnsweredAt i k sys =
      (url : String) (s : Stream snapshot_watcher)
      → stream_at i sys.served ≡ some (url, running s)
      → HasNoNews k s sys.world ⊎ Sends i url k s sys

  flush-Sends :
      (i : ℕ) (url : String) (k : Kind) (ch : ℕ) (s : Stream snapshot_watcher) (sys : System)
      → ((r : Resource) → (bytes : List ℕ) × (marshal r ≡ some bytes))
      → stream_at i sys.served ≡ some (url, running s)
      → (slot k s.values).channel ≡ some ch
      → 1 ≤ pending ch sys.world.channels
      → Sends i url k s sys
  unfolding advance move finish
  flush-Sends i url k ch s sys total at has here =
      let m = flushes k true in
      let w = sys.world in
      let s0 : Stream snapshot_watcher = record s { state = w } in
      let (resp, chs, got) = receive_returns ch w.channels here in
      let (out, made) = create_discovery_response_returns marshal (type_url_of k) resp total in
      let (s', e, sends) = handle-HasSent marshal callbacks url k ch s0 resp chs out has got made in
      let (there, world) = stream_at-move_at marshal callbacks i m w sys.served at in
      (
        resp,
        record sys {
          world = (move_at marshal callbacks i m w sys.served).1;
          served = (move_at marshal callbacks i m w sys.served).0;
        },
        s',
        refl,
        there ∙ rw e refl,
        record {
          out = sends.out;
          made = sends.made;
          before = sends.before;
          trace = sends.trace;
          nonce = sends.nonce;
        },
      )

  served-Sends :
      (i : ℕ) (url : String) (k : Kind) (s : Stream snapshot_watcher) (sys : System)
      → ((r : Resource) → (bytes : List ℕ) × (marshal r ≡ some bytes))
      → stream_at i sys.served ≡ some (url, running s)
      → IsServed k (running s) sys.world
      → HasNoNews k s sys.world ⊎ Sends i url k s sys
  served-Sends i url k s sys total at (ch, has, inl here) =
      inr (flush-Sends i url k ch s sys total at has here)
  served-Sends i url k s sys total at (ch, has, inr (d, v, holds, there, same, none_new)) =
      inl (d, v, holds, rw same has, there, none_new)

  -- A request that the callbacks accept, and whose nonce is not stale, is answered: in each run of
  -- fewer than 2 ^ 64 actions of a program that holds no response back and can marshal every
  -- resource, whatever the updater stores and the other clients do after the request and whatever
  -- else its client does but take the response of the kind out of its channel, no call of the cache
  -- blocks; and if the stream still runs, either its watch is open and its client has the version
  -- that the cache has for its node, or the next round of the kind sends it a response under the
  -- next nonce.
  pub request-AnsweredAt :
      (before later : List Action) (sys : System) (i : ℕ) (url : String)
      (s : Stream snapshot_watcher) (req req' : Request) (now : ℕ) (k : Kind)
      → ((r : Resource) → (bytes : List ℕ) × (marshal r ≡ some bytes))
      → length before + 1 + length later < int64_mod
      → run_system marshal callbacks before (new_system false) ≡ some sys
      → stream_at i sys.served ≡ some (url, running s)
      → with_type_url url req ≡ some req'
      → kind_of req'.type_url ≡ some k
      → asked_request snapshot_watcher marshal callbacks callbacks s.stream_id req' ≡ none
      → nonce_matches (slot k s.values).nonce req' ≡ true
      → AllAside i k later
      → (sys' : System) × (run_system marshal callbacks
            (moves i (arrives (some req) now) ∷ later)
            sys
          ≡ some sys')
        × AnsweredAt i k sys'
  request-AnsweredAt before later sys i url s req req' now k total bound run at typed known fine
        fits aside =
      let (sys', e, served) =
        request-ServedAt marshal callbacks before later sys i url s req req' now k bound run at
          typed known fine fits aside in
      (sys', e, λ url' s' at'. served-Sends i url' k s' sys' total at' (rw at' at served))
