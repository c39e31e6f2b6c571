-- ===== src/Cache/Simple/Carrying.antt =====
-- What the open watches, the channels and the snapshots have in common, through every method.
use bent.Cache.Simple.Watched.{new_watch, new_id, create_watch-IsWatched, touched}
use bent.Cache.Channels.{Channels, receive}
use bent.Cache.Simple.Current.{AllWatches-insert, AllWatches-erase, AllWatches}
use bent.Cache.Simple.Notify.{
  is_held_back, set_snapshot-IsNotified, is_current, notified, answers, current_watches,
  info_answers, due,
}
use bent.Cache.Simple.{
  node_id, touch, create_watch, Cancel, set_snapshot, cancel_status, World, cancel_watch,
}
use bent.Cache.Snapshot.{Snapshot}
use bent.Cache.Status.{new_status_info, StatusInfo, Request, ResponseWatch, Response}
use bent.Cache.Channels.{AllSent, receive-AllSent}
use bent.Shared.{
  ◌==◌, Bool-cases, Option-cases, Map, erase, lookup, insert, lookup-insert, ℕ, String, ◌≡◌, inl,
  inr, Bool, ◌||◌, Option, none, some, List, [], ◌∷◌, ◌++◌, string_key, nat_key,
}

abbrev pub InfoAll : (ResponseWatch → Type 0) → Option StatusInfo → Type 0
InfoAll P none = Unit
InfoAll P (some info) = AllWatches P info.watches

abbrev pub SnapshotAll : (Snapshot → Type 0) → Option Snapshot → Type 0
SnapshotAll S none = Unit
SnapshotAll S (some snapshot) = S snapshot

module _ (P : ℕ → Request → Type 0) (Q : ℕ → Response → Type 0) (S : Snapshot → Type 0) where
  abbrev pub WatchOf : ResponseWatch → Type 0
  WatchOf v = P v.response v.request

  -- `P` holds of the channel and the request of each open watch, `Q` of each value in a channel, and
  -- `S` of each snapshot.
  pub record Carries (w : World) : Type 0 where
    pub watches : (node : String) → InfoAll WatchOf (lookup node w.status)
    pub sent : AllSent Q w.channels.buffered
    pub stored : (node : String) → SnapshotAll S (lookup node w.snapshots)

  -- A watch that is answered from a snapshot.
  abbrev pub Answers : Type 0
  Answers = (s : Snapshot) (v : ResponseWatch) → S s → WatchOf v → Q v.response (due s v)

AllSent-append :
    (Q : ℕ → Response → Type 0) (xs ys : List (ℕ × Response))
    → AllSent Q xs
    → AllSent Q ys
    → AllSent Q (xs ++ ys)
AllSent-append Q [] ys h h' = h'
AllSent-append Q ((c, a) ∷ xs) ys h h' = (h.0, AllSent-append Q xs ys h.1 h')

AllWatches-keep :
    (P : ResponseWatch → Type 0) (snapshot : Snapshot) (ws : Map ℕ ResponseWatch)
    → AllWatches P ws
    → AllWatches P (current_watches snapshot ws)
AllWatches-keep P snapshot [] h = tt
AllWatches-keep P snapshot ((id, v) ∷ ws) h = elim (Bool-cases (is_current snapshot v)) [
  | inl current ↦ rw current (h.0, AllWatches-keep P snapshot ws h.1)
  | inr stale ↦ rw stale (AllWatches-keep P snapshot ws h.1)
]

notified-InfoAll :
    (P : ResponseWatch → Type 0) (s : Snapshot) (o : Option StatusInfo)
    → InfoAll P o
    → InfoAll P (notified s o)
notified-InfoAll P s none h = tt
notified-InfoAll P s (some info) h = AllWatches-keep P s info.watches h

touched-InfoAll :
    (P : ResponseWatch → Type 0) (req : Request) (now : ℕ) (w : World)
    → InfoAll P (lookup (node_id req.node) w.status)
    → AllWatches P (touched req now w).watches
unfolding touch new_status_info
touched-InfoAll P req now w h = elim (Option-cases (lookup (node_id req.node) w.status)) [
  | inl missing ↦ rw missing tt
  | inr (info, found) ↦ rw found (rw found at h)
]

insert-InfoAll :
    (P : ResponseWatch → Type 0) (node : String) (info : StatusInfo)
    (status : Map String StatusInfo)
    → AllWatches P info.watches
    → ((other : String) → InfoAll P (lookup other status))
    → (other : String) → InfoAll P (lookup other (insert node info status))
insert-InfoAll P node info status h all other =
    rw (lookup-insert node other info status) (elim (Bool-cases (node == other)) [
      | inl same ↦ rw same h
      | inr differ ↦ rw differ (all other)
    ])

module _ (P : ℕ → Request → Type 0) (Q : ℕ → Response → Type 0) (S : Snapshot → Type 0) where
  answers-AllSent :
      (ads : Bool) (s : Snapshot) (ws : Map ℕ ResponseWatch)
      → Answers P Q S
      → S s
      → AllWatches (WatchOf P Q S) ws
      → AllSent Q (answers ads s ws)
  answers-AllSent ads s [] answer ok h = tt
  answers-AllSent ads s ((id, v) ∷ ws) answer ok h =
      elim (Bool-cases (is_current s v || is_held_back ads s v)) [
        | inl skipped ↦ rw skipped (answers-AllSent ads s ws answer ok h.1)
        | inr sends ↦ rw sends (answer s v ok h.0, answers-AllSent ads s ws answer ok h.1)
      ]

  info_answers-AllSent :
      (ads : Bool) (s : Snapshot) (o : Option StatusInfo)
      → Answers P Q S
      → S s
      → InfoAll (WatchOf P Q S) o
      → AllSent Q (info_answers ads s o)
  info_answers-AllSent ads s none answer ok h = tt
  info_answers-AllSent ads s (some info) answer ok h =
      answers-AllSent ads s info.watches answer ok h

  pub set_snapshot-Carries :
      (node : String) (s : Snapshot) (w w' : World)
      → Answers P Q S
      → S s
      → set_snapshot node s w ≡ some w'
      → Carries P Q S w
      → Carries P Q S w'
  set_snapshot-Carries node s w w' answer ok e h =
      let n = set_snapshot-IsNotified node s w w' e in
      record {
        watches = λ other. rw (n.status other) (elim (Bool-cases (node == other)) [
          | inl same ↦
              rw same (notified-InfoAll (WatchOf P Q S) s (lookup node w.status) (h.watches node))
          | inr differ ↦ rw differ (h.watches other)
        ]);
        sent = rw n.sent (
            AllSent-append Q w.channels.buffered _ h.sent
              (info_answers-AllSent w.ads s (lookup node w.status) answer ok (h.watches node)));
        stored = λ other. rw (n.snapshots other) (elim (Bool-cases (node == other)) [
          | inl same ↦ rw same ok
          | inr differ ↦ rw differ (h.stored other)
        ]);
      }

  pub cancel_watch-Carries :
      (c : Cancel) (w : World) → Carries P Q S w → Carries P Q S (cancel_watch c w)
  unfolding cancel_watch cancel_status
  cancel_watch-Carries c w h = elim (Option-cases (lookup c.node w.status)) [
    | inl missing ↦ rw missing h
    | inr (info, found) ↦
        let old : AllWatches (WatchOf P Q S) info.watches = rw found at (h.watches c.node) in
        rw found (record {
          watches =
              insert-InfoAll (WatchOf P Q S) c.node
                (record info { watches = erase c.watch info.watches }) w.status
                (AllWatches-erase (WatchOf P Q S) c.watch info.watches old) h.watches;
          sent = h.sent;
          stored = h.stored;
        })
  ]

  -- A receive, and what it gets.
  pub receive-Carries :
      (c : ℕ) (w : World) {a : Response} {chs : Channels Response}
      → receive c w.channels ≡ some (a, chs)
      → Carries P Q S w
      → Q c a × Carries P Q S (record w { channels = chs })
  receive-Carries c w e h =
      let (got, rest) = receive-AllSent Q c w.channels e h.sent in
      (got, record { watches = h.watches; sent = rest; stored = h.stored })

  pub create_watch-Carries :
      (req : Request) (now : ℕ) (w w' : World) {r : ℕ × Option Cancel}
      → Answers P Q S
      → P w.channels.next req
      → create_watch req now w ≡ some (r, w')
      → Carries P Q S w
      → Carries P Q S w'
  create_watch-Carries req now w w' {r} answer asks e h =
      let node = node_id req.node in
      let info = touched req now w in
      let v = create_watch-IsWatched req now w e in
      let old = touched-InfoAll (WatchOf P Q S) req now w (h.watches node) in
      let touching = insert-InfoAll (WatchOf P Q S) node info w.status old h.watches in
      elim v.outcome [
        | inl o ↦ record {
          watches = rw o.status (
              insert-InfoAll (WatchOf P Q S) node
                (record info {
                  watches = insert (new_id req now w) (new_watch req now w) info.watches;
                })
                (insert node info w.status)
                (AllWatches-insert (WatchOf P Q S) (new_id req now w) (new_watch req now w)
                  info.watches asks old)
                touching);
          sent = rw o.quiet h.sent;
          stored = rw v.snapshots h.stored;
        }
        | inr a ↦ record {
          watches = rw a.status touching;
          sent =
              let ok : S a.snapshot = rw a.stored at (h.stored node) in
              rw a.sent (
                AllSent-append Q w.channels.buffered _ h.sent
                  (elim (Bool-cases (is_held_back w.ads a.snapshot (new_watch req now w))) [
                    | inl held ↦ rw held tt
                    | inr free ↦ rw free (answer a.snapshot (new_watch req now w) ok asks, tt)
                  ]));
          stored = rw v.snapshots h.stored;
        }
      ]
