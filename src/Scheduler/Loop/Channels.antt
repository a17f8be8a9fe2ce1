-- ===== src/Scheduler/Loop/Channels.antt =====
-- GetWorkerStub of src/scheduler/src/scheduler_loop.cpp: the cache of channels, over two locked sections.
use distributed_task_system.Common.{
  String, ◌≡◌, refl, Option, none, some, arith, eq_iff, eq_refl, Dict, find, put, find-put,
}

module _ {Channel : Type 0} where
  abbrev publish_new : String → Channel → Dict Channel → Option Channel → Channel × Dict Channel
  publish_new address new_channel cache none = (new_channel, put address new_channel cache)
  publish_new address new_channel cache (some channel) = (channel, cache)

  -- The second section: a channel that another thread has put there is taken instead.
  unfoldable pub publish : String → Channel → Dict Channel → Channel × Dict Channel
  publish address new_channel cache = publish_new address new_channel cache (find address cache)

  -- GetWorkerStub, with the cache at its first section and at its second.
  unfoldable pub get_worker_stub :
      String → Channel → Dict Channel → Dict Channel → Channel × Dict Channel
  get_worker_stub address new_channel before later = elim (find address before) [
    | some channel ↦ (channel, later)
    | none ↦ publish address new_channel later
  ]

  -- A channel that is in the cache stays.
  pub publish_keeps :
      (address other : String) (new_channel channel : Channel) (cache : Dict Channel)
      → find address cache ≡ some channel
      → find address (publish other new_channel cache).1 ≡ some channel
  unfolding publish
  publish_keeps address other new_channel channel cache h = kept (find other cache) refl
    where
      kept :
          (r : Option Channel)
          → find other cache ≡ r
          → find address (publish_new other new_channel cache r).1 ≡ some channel
      kept (some c) e = h
      kept none e =
          ground (arith, find-put other address new_channel cache, eq_iff other address, e, h)

  -- Later callers get the channel that is published.
  pub publish_agrees :
      (address : String) (new_channel newer : Channel) (cache : Dict Channel)
      → let (channel, cache') = publish address new_channel cache in
        publish address newer cache' ≡ (channel, cache')
  unfolding publish
  publish_agrees address new_channel newer cache = agreed (find address cache) refl
    where
      agreed :
          (r : Option Channel)
          → find address cache ≡ r
          → let (channel, cache') = publish_new address new_channel cache r in
            publish_new address newer cache' (find address cache') ≡ (channel, cache')
      agreed (some c) e = rw e refl
      agreed none e = rw (find-put address address new_channel cache, eq_refl address) refl
