-- ===== src/System/Processes.antt =====
-- One stream beside the others, as a run of `process` on what it is told and what the others do.
use bent.System.{event_of, moved, Move, arrives, flushes, breaks, ends, world_of, move}
use mathlib.Core.List.{append-nil, append_assoc}
use bent.Server.Watcher.{snapshot_watcher}
use bent.Server.{Callbacks}
use bent.Server.Process.{
  start, meanwhile, request, ready, closed, hangup, handle, Stream, blocked, returned, finish,
  process, Event, loop, running, Outcome,
}
use bent.Cache.Resource.{Resource}
use bent.Cache.Simple.{World}
use bent.Shared.{
  length, length-append, ℕ, ◌+◌, ◌≤◌, String, ◌≡◌, refl, sym, ap, ◌∙◌, ◌⊎◌, inl, inr, Bool, true,
  false, Option, List, [], ◌∷◌, ◌++◌, arith,
}

-- The stream as the cache is now.
abbrev pub synced : World → Outcome snapshot_watcher → Outcome snapshot_watcher
synced w (running s) = running (record s { state = w })
synced w (returned status s) = returned status s
synced w blocked = blocked

abbrev pub is_running : Outcome snapshot_watcher → Bool
is_running (running s) = true
is_running (returned status s) = false
is_running blocked = false

-- What the stream itself was told: a request of its client, a channel that is ready or closed, the
-- end of the input.
abbrev pub own_moves : List (Event snapshot_watcher) → List Move
own_moves [] = []
own_moves (request req now ∷ es) = arrives req now ∷ own_moves es
own_moves (ready k ok ∷ es) = flushes k ok ∷ own_moves es
own_moves (closed k ∷ es) = breaks k ∷ own_moves es
own_moves (hangup ∷ es) = ends ∷ own_moves es
own_moves (meanwhile w ∷ es) = own_moves es

own_moves-append :
    (es : List (Event snapshot_watcher)) (e : Event snapshot_watcher)
    → own_moves (es ++ e ∷ []) ≡ own_moves es ++ own_moves (e ∷ [])
own_moves-append [] e = refl
own_moves-append (request req now ∷ es) e =
    ap (λ (ms : List Move). arrives req now ∷ ms) (own_moves-append es e)
own_moves-append (ready k ok ∷ es) e =
    ap (λ (ms : List Move). flushes k ok ∷ ms) (own_moves-append es e)
own_moves-append (closed k ∷ es) e = ap (λ (ms : List Move). breaks k ∷ ms) (own_moves-append es e)
own_moves-append (hangup ∷ es) e = ap (λ (ms : List Move). ends ∷ ms) (own_moves-append es e)
own_moves-append (meanwhile w ∷ es) e = own_moves-append es e

own_moves-event_of : (m : Move) → own_moves (event_of m ∷ []) ≡ m ∷ []
own_moves-event_of (arrives req now) = refl
own_moves-event_of (flushes k ok) = refl
own_moves-event_of (breaks k) = refl
own_moves-event_of ends = refl

module _ (marshal : Resource → Option (List ℕ)) (callbacks : Option Callbacks) where
  -- The outcome is that of `process` on events, at most so many, of which those that do not stand
  -- for other goroutines are the moves of the stream up to its end, one for one and in order; the
  -- moves that are left over came when it had ended.
  pub record IsProcess (n : ℕ) (w : World) (moves : List Move) (url : String)
      (o : Outcome snapshot_watcher) : Type 0 where
    pub count : ℕ
    pub first : World
    pub events : List (Event snapshot_watcher)
    pub within : length events ≤ n
    pub same : synced w o ≡ process snapshot_watcher marshal callbacks url count first events
    pub late : List Move
    pub own : moves ≡ own_moves events ++ late
    pub ended : (late ≡ []) ⊎ (is_running o ≡ false)

  pub loop-append :
      (url : String) (es : List (Event snapshot_watcher)) (e : Event snapshot_watcher)
      (o : Outcome snapshot_watcher)
      → loop snapshot_watcher marshal callbacks url (es ++ e ∷ []) o
        ≡ loop snapshot_watcher marshal callbacks url
            (e ∷ [])
            (loop snapshot_watcher marshal callbacks url es o)
  unfolding loop
  loop-append url [] e o = refl
  loop-append url (e' ∷ es) e (running s) = loop-append url es e _
  loop-append url (e' ∷ es) e (returned status s) = refl
  loop-append url (e' ∷ es) e blocked = refl

  -- One more round of a stream that has not returned.
  after_running :
      (url : String) (e : Event snapshot_watcher) (p : Outcome snapshot_watcher)
      (s : Stream snapshot_watcher)
      → running s ≡ finish snapshot_watcher marshal callbacks p
      → finish snapshot_watcher marshal callbacks
          (loop snapshot_watcher marshal callbacks url (e ∷ []) p)
        ≡ finish snapshot_watcher marshal callbacks
            (handle snapshot_watcher marshal callbacks url e s)
  unfolding loop finish
  after_running url e (running s') s same = cc
  after_running url e (returned status s') s same = absurd (ground arith)
  after_running url e blocked s same = absurd (ground arith)

  -- One more event for a stream that is not running changes nothing.
  after_end :
      (url : String) (e : Event snapshot_watcher) (p : Outcome snapshot_watcher)
      → is_running (finish snapshot_watcher marshal callbacks p) ≡ false
      → finish snapshot_watcher marshal callbacks
          (loop snapshot_watcher marshal callbacks url (e ∷ []) p)
        ≡ finish snapshot_watcher marshal callbacks p
  unfolding loop finish
  after_end url e (running s') over = absurd (ground arith)
  after_end url e (returned status s') over = refl
  after_end url e blocked over = refl

  pub extended :
      {n : ℕ} {ms : List Move} (w w' : World) (url : String) (o o' : Outcome snapshot_watcher)
      (e : Event snapshot_watcher) (p : IsProcess n w ms url o) (ms' late : List Move)
      → ms' ≡ (own_moves p.events ++ own_moves (e ∷ [])) ++ late
      → (late ≡ []) ⊎ (is_running o' ≡ false)
      → synced w' o'
        ≡ finish snapshot_watcher marshal callbacks (
            loop snapshot_watcher marshal callbacks url (e ∷ []) (
              loop snapshot_watcher marshal callbacks url p.events
                (start snapshot_watcher marshal callbacks url p.count p.first)))
      → IsProcess (n + 1) w' ms' url o'
  unfolding process
  extended w w' url o o' e p ms' late own ended same = record {
    count = p.count;
    first = p.first;
    events = p.events ++ e ∷ [];
    within = rw (length-append p.events (e ∷ [])) (omega (arith, p.within));
    same = rw (loop-append url p.events e _) same;
    late = late;
    own = rw (own_moves-append p.events e) own;
    ended = ended;
  }

  -- The other goroutines have used the cache.
  pub others-IsProcess :
      (n : ℕ) (w w' : World) (ms : List Move) (url : String) (o : Outcome snapshot_watcher)
      → IsProcess n w ms url o
      → IsProcess (n + 1) w' ms url o
  unfolding process handle finish
  others-IsProcess n w w' ms url (running s) p =
      extended w w' url (running s) (running s) (meanwhile w') p ms p.late (rw append-nil p.own)
        p.ended (sym (after_running url (meanwhile w') _ (record s { state = w }) p.same))
  others-IsProcess n w w' ms url (returned status s) p =
      extended w w' url (returned status s) (returned status s) (meanwhile w') p ms p.late
        (rw append-nil p.own) p.ended
        (p.same ∙ sym (after_end url (meanwhile w') _ (sym (ap is_running p.same))))
  others-IsProcess n w w' ms url blocked p =
      extended w w' url blocked blocked (meanwhile w') p ms p.late (rw append-nil p.own) p.ended
        (p.same ∙ sym (after_end url (meanwhile w') _ (sym (ap is_running p.same))))

  pub synced_self : (w : World) (o : Outcome snapshot_watcher) → synced (world_of w o) o ≡ o
  synced_self w (running s) = refl
  synced_self w (returned status s) = refl
  synced_self w blocked = refl

  -- A stream that has ended takes no notice of a move.
  late_move :
      (n : ℕ) (w : World) (ms : List Move) (m : Move) (url : String) (o : Outcome snapshot_watcher)
      → is_running o ≡ false
      → IsProcess n w ms url o
      → IsProcess (n + 1) w (ms ++ m ∷ []) url o
  late_move n w ms m url o over p = record {
    count = p.count;
    first = p.first;
    events = p.events;
    within = omega (arith, p.within);
    same = p.same;
    late = p.late ++ m ∷ [];
    own =
        ap (λ (l : List Move). l ++ m ∷ []) p.own
        ∙ append_assoc (own_moves p.events) p.late (m ∷ []);
    ended = inr over;
  }

  -- One that is running has none left over.
  next_move :
      {n : ℕ} {w : World} {ms : List Move} {url : String} {s : Stream snapshot_watcher} (m : Move)
      (p : IsProcess n w ms url (running s))
      → ms ++ m ∷ [] ≡ (own_moves p.events ++ own_moves (event_of m ∷ [])) ++ []
  next_move m p = elim p.ended [
    | inl none_late ↦
        let own = p.own in rw (append-nil, own_moves-event_of m, own, none_late, append-nil) refl
    | inr over ↦ absurd (ground (arith, over))
  ]

  pub move-IsProcess :
      (n : ℕ) (m : Move) (w : World) (ms : List Move) (url : String) (o : Outcome snapshot_watcher)
      → IsProcess n w ms url o
      → IsProcess
          (n + 1)
          (moved marshal callbacks url m w o)
          (ms ++ m ∷ [])
          url
          (move marshal callbacks url m w o)
  unfolding move finish process
  move-IsProcess n m w ms url (running s) p =
      extended w _ url (running s) _ (event_of m) p (ms ++ m ∷ []) [] (next_move m p) (inl refl)
        (synced_self w _ ∙ sym (after_running url (event_of m) _ (record s { state = w }) p.same))
  move-IsProcess n m w ms url (returned status s) p =
      late_move n w ms m url (returned status s) refl p
  move-IsProcess n m w ms url blocked p = late_move n w ms m url blocked refl p
