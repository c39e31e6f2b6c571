-- ===== src/Server/Watcher.antt =====
-- The snapshot cache as the server's `ConfigWatcher`, as cmd/bent/main.go joins the two.
use bent.Cache.Channels.{receive, Channels}
use bent.Cache.Status.{Response}
use bent.Cache.Simple.{fetch, cancel_watch, create_watch, Cancel, World}
use bent.Shared.{Option, none, some}
use bent.Server.{ConfigWatcher}

abbrev pub receive_world : World → Option (Response × Channels Response) → Option (Response × World)
receive_world w none = none
receive_world w (some (resp, chs)) = some (resp, record w { channels = chs })

abbrev pub snapshot_watcher : ConfigWatcher
snapshot_watcher = record {
  State = World;
  Canceler = Cancel;
  create_watch = create_watch;
  cancel = cancel_watch;
  receive = λ ch w. receive_world w (receive ch w.channels);
  fetch = λ req w. fetch req w.cache;
}
