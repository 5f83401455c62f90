-- ===== src/ElasticJob/Reversion.antt =====
-- storage/etcd.go: run and Close, with the revision that is kept under a key of etcd so that a watch
-- goes on after a restart where the last one ended. What a watch gives is a parameter; a
-- revision is a natural number, and the server answers each Get and Put.
pub mod History
pub mod Sending
pub mod Resume
pub mod Cut
mod Tests
use seckill_pkg.Base.{
  ℕ, zero, suc, ◌+◌, ◌≤◌, ◌≡◌, Bool, true, false, Option, none, some, List, [], ◌∷◌, ◌++◌, map,
  if◌then◌else◌, eqb, is_empty, take, leb, ltb, ◌&&◌, length, All, Text,
}
use seckill_pkg.ElasticJob.Storage.{WatchResponse, etcd_event}

-- An event of a watch: its type, its key with the revision of its change, and the value before.
pub record WatchEvent : Type 0 where
  pub is_delete : Bool
  pub mod_revision : ℕ
  pub key : Text
  pub prev : Text

-- A clientv3.WatchResponse: the revision of its header, and its events.
pub record Batch : Type 0 where
  pub revision : ℕ
  pub events : List WatchEvent

-- The node: its field `reversion`, what it has sent on watchC, and the value under the key of etcd, with
-- how often it was put there by run.
pub record Etcd : Type 0 where
  pub reversion : ℕ
  pub saved : ℕ
  pub puts : ℕ
  pub sent : List WatchResponse

-- The revision is put under its key, at the top of the loop.
abbrev pub persist : Etcd → Etcd
persist e = record e { saved = e.reversion; puts = suc (e.puts) }

-- The last components of a turn: `none` when run returned, or how often watchC is received from after it.
abbrev pub Turned : Type 0
Turned = Etcd × Option ℕ

-- `now` is the time at which an event is sent.
module _ (now : WatchEvent → ℕ) where
  abbrev pub respond : WatchEvent → WatchResponse
  respond ev = etcd_event (now ev) (ev.key, ev.prev)

  abbrev pub send : ℕ → WatchEvent → Etcd → Etcd
  send revision ev e = record e { reversion = revision; sent = e.sent ++ respond ev ∷ [] }

  -- The events of a response, when watchC is received from `room` times before the context is done.
  unfoldable pub send_events : ℕ → ℕ → List WatchEvent → Etcd → Turned
  send_events room revision [] e = (e, some room)
  send_events zero revision (ev ∷ more) e =
      let rest = send_events zero revision more e in if ev.is_delete then (e, none) else rest
  send_events (suc room) revision (ev ∷ more) e =
      let sending = send_events room revision more (send revision ev e) in
      let rest = send_events (suc room) revision more e in if ev.is_delete then sending else rest

  -- `go_on` is the loop from the next response on.
  abbrev pub after_batch : (ℕ → Etcd → Etcd) → Turned → Etcd
  after_batch go_on (e, none) = e
  after_batch go_on (e, some room) = go_on room e

  -- The loop of run, on the responses that come before the context is done.
  unfoldable pub run_loop : List Batch → ℕ → Etcd → Etcd
  run_loop [] room e = persist e
  run_loop (b ∷ bs) room e =
      after_batch (run_loop bs) (send_events room (b.revision) (b.events) (persist e))

-- A start of run reads the revision under the key.
abbrev pub started : Etcd → Etcd
started e = record e { reversion = e.saved }

-- A life of a node: it starts, works on the responses, and is closed. Close puts the revision when
-- watchC was received from `early` times, and only then cancels the context. Until then run may
-- put another revision, the last one after `more` further receives, and send `late` events after
-- it.
unfoldable pub life : (WatchEvent → ℕ) → ℕ → ℕ → ℕ → List Batch → Etcd → Etcd
life now early more late bs e =
    let at_put = run_loop now bs early (started e) in
    let at_last = run_loop now bs (early + more) (started e) in
    let at_end = run_loop now bs (early + more + late) (started e) in
    record at_end {
      saved = if eqb (at_last.puts) (at_put.puts) then at_put.reversion else at_last.saved;
    }
