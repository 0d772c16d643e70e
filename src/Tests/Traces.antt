-- ===== src/Tests/Traces.antt =====
-- Histories of the cache and of the task that listens for invalidations.
use mathlib.Core.List.{foldl}
use open_berat.Base.{
  ◌+◌, ◌-◌, ◌<◌, ◌≤◌, true, List, [], ◌∷◌, none, some, ◌≡◌, ◌≢◌, ◌⊎◌, refl, arith, codes, length,
}
use open_berat.Base.Assoc.{lookup, remove, insert, member, add, discard}
use open_berat.Cache.Cookie.{key_Eq}
use open_berat.Policy.Types.{Decision}
use open_berat.Cache.Types.{Entry, ttl, capacity}
use open_berat.Cache.Ops
use open_berat.Cache.Ops.{new_cache, get}
use open_berat.Cache.Reachable.{Op, apply}
use open_berat.Cache.Ledger.{live, recorded, open_channel}
use open_berat.Cache.Conservation.{counted, reachable-ledger}
use open_berat.Cache.Termination.{shrink_lem}
use open_berat.Cache.History.{Traced}
use open_berat.Cache.Served.{after}
use open_berat.Session.World.{World, drop_sessions, waited}
use open_berat.Session.Kill
use open_berat.Session.Kill.{Answer, kill}
use open_berat.Session.Kill.Steps.{reached}
use open_berat.Session.Kill.Window.{run, in_flight, kill-window}
use open_berat.Session.Subscriber.{
  Run, start, then, open_client, subscribed, other_task, listening, is_up, since, Run-serves,
}
use open_berat.Tests.{
  externals, quiet, key_one, cached_one, silent, some_ops, filled, services, refill,
}

reachable-ledger_example :
    live (foldl (apply externals open_channel) (new_cache silent) some_ops)
      + recorded (foldl (apply externals open_channel) (new_cache silent) some_ops).audit.sent
    ≡ recorded silent.sent + counted externals (new_cache silent) some_ops
reachable-ledger_example = reachable-ledger externals silent some_ops (omega arith)

few : length filled.entries ≤ 5
unfolding apply new_cache Ops.set_subscribed Ops.flush_all Ops.evict_all Ops.insert_entry Ops.place
    Ops.shrink Ops.evict Ops.count Ops.count_in Ops.counters_at Ops.bump lookup insert remove add
    member
few = omega arith

shrink_lem_example :
    (Ops.shrink externals quiet 5 filled
      ≡ Ops.shrink externals quiet (length filled.entries) filled)
    × (length (Ops.shrink externals quiet 5 filled).entries ≤ capacity)
    × (Ops.shrink externals quiet 2 (Ops.shrink externals quiet 5 filled)
        ≡ Ops.shrink externals quiet 5 filled)
shrink_lem_example = shrink_lem externals quiet 5 2 filled few

-- A subscription, and under it an insertion of another task.
abbrev heard : List Op
heard = Op.insert_entry key_one (codes "u1") cached_one 10 ∷ Op.set_subscribed true ∷ []

listens : Run heard listening
listens =
    then (then (then start open_client) subscribed)
      (other_task (Op.insert_entry key_one (codes "u1") cached_one 10) tt)

served : get externals quiet key_one 20 (after externals quiet silent heard) ≡ some cached_one
unfolding apply new_cache get Ops.set_subscribed Ops.flush_all Ops.evict_all Ops.insert_entry
    Ops.place Ops.shrink Ops.evict lookup insert remove add member
served = refl

Run-serves_example :
    (is_up listening ≡ true)
    × (e : Entry) × Traced (since heard) key_one e
    × (e.cached ≡ cached_one)
    × (20 - e.inserted < ttl)
Run-serves_example = Run-serves externals quiet silent key_one 20 cached_one listens served

-- A history before the kill switch, and the request in flight that it does not catch.
abbrev ops_before : List Op
ops_before =
    Op.count key_one Decision.allow (codes "/x") none none 12
    ∷ Op.insert_entry key_one (codes "u1") cached_one 10
    ∷ Op.set_subscribed true
    ∷ []

abbrev world_before : World
world_before = record { calls = []; cache = after externals quiet silent ops_before }

abbrev killed_world : World × Answer
killed_world = run externals quiet silent services refill (codes "u1") world_before

comes_far : reached killed_world.1 ≡ true
unfolding kill Kill.kill_read Kill.kill_sessions Kill.kill_cache Kill.kill_index drop_sessions
comes_far = refl

still_served : get externals quiet key_one 20 killed_world.0.cache ≡ some cached_one
unfolding kill Kill.kill_read Kill.kill_sessions Kill.kill_cache Kill.kill_index drop_sessions
    waited apply new_cache get Ops.set_subscribed Ops.flush_all Ops.evict_all Ops.insert_entry
    Ops.place Ops.shrink Ops.evict Ops.let_go Ops.flush Ops.record_all Ops.forget_sub Ops.count
    Ops.count_in Ops.counters_at Ops.bump Ops.drop_sub lookup insert remove add member discard
still_served = refl

kill-window_example :
    (e : Entry) × (lookup key_one killed_world.0.cache.entries ≡ some e)
    × (e.cached ≡ cached_one)
    × (20 - e.inserted < ttl)
    × ((e.sub ≢ codes "u1")
        ⊎ Traced
            (in_flight externals quiet silent services refill
              (codes "u1")
              world_before
              killed_world.1)
            key_one
            e)
kill-window_example =
    kill-window externals quiet silent services refill (codes "u1") world_before ops_before key_one
      20 cached_one refl comes_far still_served
