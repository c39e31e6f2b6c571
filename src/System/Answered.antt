-- ===== src/System/Answered.antt =====
-- From a client's request to its answer, whatever the updater and the other streams do meanwhile.
use bent.Server.Process.Cancels.{cancel_slot-counters}
use bent.Server.Process.Requests.{handle_renews}
use bent.Server.Process.Turns.{observe-values}
use bent.Server.Process.Unblocked.{handle_runs}
use bent.Cache.Simple.Answering.{watch_at-IsCurrent}
use bent.Cache.Simple.Awaited.{create_watch-Awaits, Watching}
use bent.Cache.Simple.Canceling.{watch_at}
use bent.Cache.Status.{Request, ResponseWatch}
use bent.System.Apart.{some_inj, advance-IsApart}
use bent.System.Spared.{Waits}
use bent.Cache.Channels.{pending}
use bent.Cache.Simple.Current.{IsCurrent}
use bent.Server.Watcher.{snapshot_watcher}
use bent.Cache.Simple.Watched.{has_news}
use bent.System.Waiting.{stream_at-move_at, WaitsAt}
use bent.Server.Slots.{slot-put_slot_same}
use bent.System.Slots.{stream_at}
use bent.Server.Process.{
  observe, request, handle, nonce_matches, asked_request, finish, with_type_url, Stream, blocked,
  returned, running, Outcome,
}
use bent.Server.{stream_request, kind_of, slot, Callbacks, Kind}
use bent.Cache.Resource.{Resource}
use bent.Cache.Simple.{Cancel, int64_mod, World}
use bent.System.Sound.{NoneStuck, advance-Keeps, Keeps, IsUnstuck}
use bent.System.{move_at, arrives, moves, move, advance, new_system, run_system, System, Action}
use bent.System.Reachable.{AllAside, IsPlain, IsPlain-IsStable, run_system-WaitsAt, reachable}
use bent.Shared.{
  Option-cases, length, lookup, ℕ, zero, suc, ◌+◌, ◌≤◌, ◌<◌, String, ◌≡◌, refl, sym, ap, ◌∙◌, subst,
  ◌⊎◌, inl, inr, true, false, Option, none, some, List, [], ◌∷◌, arith, string_key, nat_key,
}

-- The channel of the kind holds the response, or a watch is open for it whose client has the
-- version that the cache has for its node; unless the stream has returned.
abbrev pub IsServed : Kind → Outcome snapshot_watcher → World → Type 0
IsServed k (running s) w =
    (ch : ℕ) × ((slot k s.values).channel ≡ some ch)
    × ((1 ≤ pending ch w.channels)
        ⊎ ((d : Cancel) × (v : ResponseWatch) × ((slot k s.values).cancel ≡ some d)
            × (watch_at d w ≡ some v)
            × (v.response ≡ ch)
            × (has_news (lookup d.node w.snapshots) v ≡ false)))
IsServed k (returned status s) w = Unit
IsServed k blocked w = ⊥

abbrev pub ServedFrom : Kind → Option (String × Outcome snapshot_watcher) → World → Type 0
ServedFrom k none w = ⊥
ServedFrom k (some (url, o)) w = IsServed k o w

abbrev pub ServedAt : ℕ → Kind → System → Type 0
ServedAt i k sys = ServedFrom k (stream_at i sys.served) sys.world

Watching-IsServed :
    (ch : ℕ) (f : Option Cancel) (w : World)
    → IsCurrent w
    → Watching ch f w
    → (d : Cancel) × (v : ResponseWatch) × (f ≡ some d)
      × (watch_at d w ≡ some v)
      × (v.response ≡ ch)
      × (has_news (lookup d.node w.snapshots) v ≡ false)
Watching-IsServed ch none w current h = absurd h
Watching-IsServed ch (some d) w current (v, at, same) =
    (d, v, refl, at, same, watch_at-IsCurrent d w v current at)

Waits-IsServed :
    (k : Kind) (o : Outcome snapshot_watcher) (w : World)
    → IsUnstuck o
    → IsCurrent w
    → Waits k o w
    → IsServed k o w
Waits-IsServed k (running s) w u current (ch, has, inl here) = (ch, has, inl here)
Waits-IsServed k (running s) w u current (ch, has, inr watching) =
    (ch, has, inr (Watching-IsServed ch (slot k s.values).cancel w current watching))
Waits-IsServed k (returned status s) w u current waits = tt
Waits-IsServed k blocked w u current waits = absurd u

NoneStuck-at :
    (i : ℕ) (served : List (String × Outcome snapshot_watcher)) {url : String}
    {o : Outcome snapshot_watcher}
    → stream_at i served ≡ some (url, o)
    → NoneStuck served
    → IsUnstuck o
NoneStuck-at i [] e h = cc
NoneStuck-at zero ((other, p) ∷ served) {url} {o} e h =
    let same : p ≡ o = cc in subst IsUnstuck same h.0
NoneStuck-at (suc i) ((other, p) ∷ served) e h = NoneStuck-at i served e h.1

module _ (marshal : Resource → Option (List ℕ)) (callbacks : Option Callbacks) where
  handle-Waits :
      (url : String) (req req' : Request) (k : Kind) (now : ℕ) (s s' : Stream snapshot_watcher)
      → s.state.ads ≡ false
      → with_type_url url req ≡ some req'
      → kind_of req'.type_url ≡ some k
      → asked_request snapshot_watcher marshal callbacks callbacks s.stream_id req' ≡ none
      → nonce_matches (slot k s.values).nonce req' ≡ true
      → handle snapshot_watcher marshal callbacks url (request (some req) now) s ≡ running s'
      → Waits k (running s') s'.state
  handle-Waits url req req' k now s s' mode typed known fine fits e =
      let o = stream_request s.stream_id req' in
      let seen = observe snapshot_watcher marshal callbacks o s in
      let (values, state) = observe-values marshal callbacks o s in
      elim (handle_renews snapshot_watcher marshal callbacks url req req' k now s s' typed known
        fine e) [
          | inl (stale, same) ↦ cc
          | inr (fresh, r) ↦
              let plain : seen.state.ads ≡ false = rw state mode in
              let plain' =
                (cancel_slot-counters marshal callbacks (slot k seen.values).cancel seen.state).2
                ∙ plain in
              let here = ap (slot k) r.values ∙ slot-put_slot_same k _ seen.values in
              rw here (r.channel, refl, create_watch-Awaits req' now _ s'.state plain' r.made)
        ]

  arrives-WaitsAt :
      (i : ℕ) (url : String) (req req' : Request) (k : Kind) (now : ℕ) (sys : System)
      (s : Stream snapshot_watcher)
      → IsPlain sys.world
      → stream_at i sys.served ≡ some (url, running s)
      → with_type_url url req ≡ some req'
      → kind_of req'.type_url ≡ some k
      → asked_request snapshot_watcher marshal callbacks callbacks s.stream_id req' ≡ none
      → nonce_matches (slot k s.values).nonce req' ≡ true
      → (sys' : System) × (advance marshal callbacks (moves i (arrives (some req) now)) sys
          ≡ some sys')
        × WaitsAt i k sys'
  unfolding advance move finish
  arrives-WaitsAt i url req req' k now sys s plain at typed known fine fits =
      let m = arrives (some req) now in
      let w = sys.world in
      let s0 : Stream snapshot_watcher = record s { state = w } in
      let (s', e) =
        handle_runs marshal callbacks url req req' k now s0 plain.0.0 typed known fine fits in
      let (there, here) = stream_at-move_at marshal callbacks i m w sys.served at in
      (
        record sys {
          world = (move_at marshal callbacks i m w sys.served).1;
          served = (move_at marshal callbacks i m w sys.served).0;
        },
        refl,
        rw (there, here, e) (handle-Waits url req req' k now s0 s' plain.1 typed known fine fits e),
      )

  Keeps-ServedAt :
      (i : ℕ) (k : Kind) (sys : System) → Keeps IsPlain sys → WaitsAt i k sys → ServedAt i k sys
  Keeps-ServedAt i k sys keeps waits = elim (Option-cases (stream_at i sys.served)) [
    | inl missing ↦ absurd (rw missing at waits)
    | inr ((url, o), at) ↦ rw at (
        Waits-IsServed k o sys.world (NoneStuck-at i sys.served at keeps.streams) keeps.world.0.1
          (rw at at waits))
  ]

  run_system_next :
      (a : Action) (rest : List Action) (sys sys' : System)
      → advance marshal callbacks a sys ≡ some sys'
      → run_system marshal callbacks (a ∷ rest) sys ≡ run_system marshal callbacks rest sys'
  unfolding run_system
  run_system_next a rest sys sys' e = rw e refl

  -- A request that the callbacks accept, and whose nonce is not stale, is never forgotten: in each
  -- run of fewer than 2 ^ 64 actions of a program that holds no response back, whatever the updater
  -- stores and the other clients do after the request and whatever else the client does but take
  -- the response out of its channel, no call of the cache blocks; and unless the stream returns, its
  -- channel holds a response, or a watch is open that will send to it, whose client has the version
  -- that the cache has for its node.
  pub request-ServedAt :
      (before later : List Action) (sys : System) (i : ℕ) (url : String)
      (s : Stream snapshot_watcher) (req req' : Request) (now : ℕ) (k : Kind)
      → length before + 1 + length later < int64_mod
      → run_system marshal callbacks before (new_system false) ≡ some sys
      → stream_at i sys.served ≡ some (url, running s)
      → with_type_url url req ≡ some req'
      → kind_of req'.type_url ≡ some k
      → asked_request snapshot_watcher marshal callbacks callbacks s.stream_id req' ≡ none
      → nonce_matches (slot k s.values).nonce req' ≡ true
      → AllAside i k later
      → (sys' : System) × (run_system marshal callbacks
            (moves i (arrives (some req) now) ∷ later)
            sys
          ≡ some sys')
        × ServedAt i k sys'
  request-ServedAt before later sys i url s req req' now k bound run at typed known fine fits
        aside =
      let a = moves i (arrives (some req) now) in
      let (keeps, apart) = reachable marshal callbacks before sys (omega (arith, bound)) run in
      let (sys1, e, waits) =
        arrives-WaitsAt i url req req' k now sys s keeps.world at typed known fine fits in
      let (sys1', e', keeps1) =
        advance-Keeps IsPlain IsPlain-IsStable marshal callbacks a sys keeps in
      let same : sys1' ≡ sys1 = some_inj (sym e' ∙ e) in
      let apart1 =
        advance-IsApart marshal callbacks a (length before) sys sys1 (omega (arith, bound)) e
          apart in
      let (sys2, e2, keeps2, waits2) =
        run_system-WaitsAt marshal callbacks later (length before + 1) i k sys1 bound
          (subst (Keeps IsPlain) same keeps1) apart1 aside waits in
      (sys2, run_system_next a later sys sys1 e ∙ e2, Keeps-ServedAt i k sys2 keeps2 waits2)
