-- ===== src/Pool/Reload/Lifetime.antt =====
-- src/services/account_pool/actor.rs: the actor from its start on, reloads included.
use clewdr_hub.Common.{◌≡◌, Option, none, some, List, ℤ, arith, count}
use clewdr_hub.Config.Row.{AccountWithRuntime, AreDistinct}
use clewdr_hub.Pool.State.{Moka, PoolState}
use clewdr_hub.Pool.Flush.{DbAnswers, DbWrite}
use clewdr_hub.Pool.Actor.{Message, Reply, World, handle}
use clewdr_hub.Pool.Conservation.{IsWellFormed}
use clewdr_hub.Pool.Conservation.Messages.{IsCuttable, do_flush-Conserves}
use clewdr_hub.Pool.Conservation.Runs.{handled-Conserves}
use clewdr_hub.Pool.Loader.{Parsers}
use clewdr_hub.Pool.Reload.{do_reload, no_pool, pre_start}
use clewdr_hub.Pool.Reload.Invariant.{do_reload-IsRebuilt}

-- The rows that the database has returned, if it has returned any, have distinct ids, as the table's primary key has.
abbrev pub AreDistinctIfLoaded : Option (List AccountWithRuntime) → Type 0
AreDistinctIfLoaded none = Unit {0}
AreDistinctIfLoaded (some rows) = AreDistinct rows

-- A pool of the actor: the one that it starts with, and those after a message or a reload, whatever the times and
-- the answers of the database.
pub data IsLive {C : Type 0} (moka : Moka C) (p : Parsers) : PoolState C → Type 0 where
  started :
      (db : DbAnswers) (clock : ℤ) (rows : Option (List AccountWithRuntime)) (cache : C)
      → AreDistinctIfLoaded rows
      → IsLive moka p (pre_start moka p db clock rows cache)
  turn :
      {t : PoolState C} {u : PoolState C} (w : World) (m : Message) (r : Reply) (ws : List DbWrite)
      → IsLive moka p t
      → IsCuttable t m
      → handle moka w t m ≡ some (u, r, ws)
      → IsLive moka p u
  reloaded :
      {t : PoolState C} (db : DbAnswers) (clock : ℤ) (rows : Option (List AccountWithRuntime))
      → IsLive moka p t
      → AreDistinctIfLoaded rows
      → IsLive moka p (do_reload moka p db clock rows t).0

module _ {C : Type 0} (moka : Moka C) (p : Parsers) where
  no_pool-IsWellFormed : (cache : C) → IsWellFormed (no_pool cache)
  unfolding count
  no_pool-IsWellFormed cache = record { distinct = λ id. omega arith; keyed = tt }

  do_reload-IsWellFormed :
      (db : DbAnswers) (clock : ℤ) (rows : Option (List AccountWithRuntime)) (s : PoolState C)
      → AreDistinctIfLoaded rows
      → IsWellFormed s
      → IsWellFormed (do_reload moka p db clock rows s).0
  unfolding do_reload
  do_reload-IsWellFormed db clock none s d w = (do_flush-Conserves db s w).wellformed
  do_reload-IsWellFormed db clock (some rows) s d w =
      (do_reload-IsRebuilt p clock moka db rows s d).wellformed

  -- Every pool that the actor has, from its start on and over any messages and reloads, is well-formed: an account is
  -- in one bucket at most and `exhausted` is keyed by its slots' ids. The rows loaded have distinct ids, and no
  -- account comes back whose credential cannot be cut at byte 20.
  pub IsLive-IsWellFormed : (s : PoolState C) → IsLive moka p s → IsWellFormed s
  unfolding pre_start
  IsLive-IsWellFormed s (started db clock rows cache d) =
      do_reload-IsWellFormed db clock rows (no_pool cache) d (no_pool-IsWellFormed cache)
  IsLive-IsWellFormed s (turn {t} w m r ws before cut e) =
      (handled-Conserves moka w m t s r ws (IsLive-IsWellFormed t before) cut e).wellformed
  IsLive-IsWellFormed s (reloaded {t} db clock rows before d) =
      do_reload-IsWellFormed db clock rows t d (IsLive-IsWellFormed t before)
