-- ===== src/System/Delivered.antt =====
-- The types of what the clients of the program receive (cmd/bent/main.go).
use bent.System.Kinds.{AnySnapshot, AnswersOnly, AsksOnly}
use bent.System.Slots.{stream_at}
use bent.Cache.Channels.{receive, Channels}
use bent.System.Typed.{advance-SlotsServe, SlotsServe}
use bent.Cache.Status.{Response}
use bent.Provider.Updater.{snapshot_of, Orders}
use bent.System.Apart.{advance-IsApart, some_inj, totals, new_system-IsApart, IsApart}
use bent.Provider.Updater.Typed.{snapshot_of-IsTyped}
use bent.Server.Watcher.{snapshot_watcher}
use bent.System.Reachable.{IsPlain-IsStable, new_system-IsPlain, IsPlain}
use bent.Provider.Node.{Node}
use bent.Cache.Snapshot.Typed.{AllOf, IsTyped}
use bent.System.Carried.{advance-Carries, StoresOnly}
use bent.System.Sound.{advance-Keeps, Keeps}
use bent.Cache.Snapshot.{Snapshot}
use bent.Server.Process.{running, Stream}
use bent.Server.{type_url_of, slot, Kind, Callbacks}
use bent.Cache.Simple.Typed.{due-IsTypedResponse, IsTypedResponse}
use bent.Cache.Simple.Carrying.{receive-Carries, Carries, Answers}
use bent.Cache.Simple.{new_snapshot_cache, int64_mod, World}
use bent.Cache.Resource.{Resource}
use bent.System.{advance, new_system, run_system, System, Action, stores, connects, moves}
use bent.Shared.{
  Option-cases, length, lookup, ℕ, ◌+◌, ◌<◌, String, ◌≡◌, refl, sym, ◌∙◌, subst, inl, inr, false,
  Option, some, List, [], ◌∷◌, arith, string_key, nat_key,
}

-- The responses hold only resources of the types that their requests ask for, and the snapshots in
-- each group only resources of its type.
abbrev pub IsTypedWorld : World → Type 0
IsTypedWorld w = Carries (λ c req. Unit) (λ c a. IsTypedResponse a) IsTyped w

IsTyped-answers : Answers (λ c req. Unit) (λ c a. IsTypedResponse a) IsTyped
IsTyped-answers s v typed asks = due-IsTypedResponse s v typed

module _ (hash : List (List ℕ) → String) (marshal : Resource → Option (List ℕ))
    (callbacks : Option Callbacks) where
  -- The updater stores snapshots of nodes.
  abbrev pub IsFromNode : Snapshot → Type 0
  IsFromNode s = (o : Orders) × (n : Node) × (s ≡ snapshot_of hash marshal o n)

  abbrev pub AllFromNodes : List Action → Type 0
  AllFromNodes [] = Unit
  AllFromNodes (a ∷ rest) = StoresOnly IsFromNode a × AllFromNodes rest

  StoresOnly-IsTyped : (a : Action) → StoresOnly IsFromNode a → StoresOnly IsTyped a
  StoresOnly-IsTyped (stores node s) (o, n, same) =
      subst IsTyped (sym same) (snapshot_of-IsTyped hash marshal o n)
  StoresOnly-IsTyped (connects url) h = tt
  StoresOnly-IsTyped (moves i m) h = tt

  -- What holds after `n` actions.
  record IsInOrder (n : ℕ) (sys : System) : Type 0 where
    keeps : Keeps IsPlain sys
    apart : IsApart n sys.world (totals sys)
    serve : SlotsServe sys
    typed : IsTypedWorld sys.world

  advance-IsInOrder :
      (a : Action) (n : ℕ) (sys sys' : System)
      → n + 1 < int64_mod
      → StoresOnly IsFromNode a
      → advance marshal callbacks a sys ≡ some sys'
      → IsInOrder n sys
      → IsInOrder (n + 1) sys'
  advance-IsInOrder a n sys sys' bound from e h =
      let (sys1, e1, keeps1) =
        advance-Keeps IsPlain IsPlain-IsStable marshal callbacks a sys h.keeps in
      record {
        keeps = subst (Keeps IsPlain) (some_inj (sym e1 ∙ e)) keeps1;
        apart = advance-IsApart marshal callbacks a n sys sys' bound e h.apart;
        serve =
            advance-SlotsServe marshal callbacks a n sys sys' h.keeps.world.0.0 h.apart e h.serve;
        typed =
            advance-Carries (λ c req. Unit) (λ c b. IsTypedResponse b) IsTyped IsTyped-answers
              marshal callbacks a sys sys' (λ k req known. tt) (StoresOnly-IsTyped a from) e
              h.typed;
      }

  run_system-IsInOrder :
      (actions : List Action) (n : ℕ) (sys sys' : System)
      → n + length actions < int64_mod
      → AllFromNodes actions
      → run_system marshal callbacks actions sys ≡ some sys'
      → IsInOrder n sys
      → IsInOrder (n + length actions) sys'
  unfolding run_system
  run_system-IsInOrder [] n sys sys' bound from e h =
      subst (IsInOrder (n + 0)) (some_inj e) (subst (λ (l : ℕ). IsInOrder l sys) (omega arith) h)
  run_system-IsInOrder (a ∷ rest) n sys sys' bound from e h =
      elim (Option-cases (advance marshal callbacks a sys)) [
        | inl stuck ↦ absurd (ground (arith, e, stuck))
        | inr (sys1, e1) ↦
            let h1 = advance-IsInOrder a n sys sys1 (omega (arith, bound)) from.0 e1 h in
            let last =
              run_system-IsInOrder rest (n + 1) sys1 sys' (omega (arith, bound)) from.1 (rw e1 at e)
                h1 in
            subst (λ (l : ℕ). IsInOrder l sys') (omega arith) last
      ]

  new_system-IsInOrder : IsInOrder 0 (new_system false)
  unfolding new_system new_snapshot_cache lookup
  new_system-IsInOrder = record {
    keeps = new_system-IsPlain;
    apart = new_system-IsApart false;
    serve = λ i url s k ch at has. cc;
    typed = record { watches = λ node. tt; sent = tt; stored = λ node. tt };
  }

  -- A response that waits in a channel of a stream is of the channel's kind: in each run of fewer
  -- than 2 ^ 64 actions of a program that holds no response back, where the updater stores
  -- snapshots of nodes, what a running stream receives from the channel of a kind answers a request
  -- for the kind's type URL, and every resource in it is of that type.
  pub receive-AllOf :
      (actions : List Action) (sys : System) (i : ℕ) (url : String) (s : Stream snapshot_watcher)
      (k : Kind) (ch : ℕ) (resp : Response) (chs : Channels Response)
      → length actions < int64_mod
      → AllFromNodes actions
      → run_system marshal callbacks actions (new_system false) ≡ some sys
      → stream_at i sys.served ≡ some (url, running s)
      → (slot k s.values).channel ≡ some ch
      → receive ch sys.world.channels ≡ some (resp, chs)
      → (resp.request.type_url ≡ type_url_of k) × AllOf (type_url_of k) resp.resources
  receive-AllOf actions sys i url s k ch resp chs bound from e at has got =
      let h =
        run_system-IsInOrder actions 0 (new_system false) sys (omega (arith, bound)) from e
          new_system-IsInOrder in
      let type_url = type_url_of k in
      let asked =
        (receive-Carries (AsksOnly ch type_url) (AnswersOnly ch type_url) AnySnapshot ch sys.world
            got (h.serve i url s k ch at has)).0
          refl in
      let typed =
        (receive-Carries (λ c req. Unit) (λ c a. IsTypedResponse a) IsTyped ch sys.world got
          h.typed).0 in
      (asked, subst (λ (u : String). AllOf u resp.resources) asked typed)
