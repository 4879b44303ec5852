-- ===== src/Pool/Conservation/Runs.antt =====
-- src/services/account_pool/actor.rs: any sequence of messages.
use clewdr_hub.Common.{◌≡◌, refl, sym, ◌∙◌, ap, subst, Option, none, some, List}
use clewdr_hub.Pool.State.{Moka, PoolState}
use clewdr_hub.Pool.Flush.{DbWrite}
use clewdr_hub.Pool.Actor.{Message, Reply, World, Turn, handle}
use clewdr_hub.Pool.Conservation.{IsWellFormed, Conserves, Conserves-of_places}
use clewdr_hub.Pool.Conservation.Messages.{IsCuttable, handle-Conserves, Conserves-trans}

-- The pool `t` is reached from `s` by turns of the actor, whatever the messages, the times and the database.
-- The runs that go on after a reply that nobody waits for are more than the actor has.
pub data Reaches {C : Type 0} (moka : Moka C) (s : PoolState C) : PoolState C → Type 0 where
  here : Reaches moka s s
  turn :
      {t : PoolState C} {u : PoolState C} (w : World) (m : Message) (r : Reply) (ws : List DbWrite)
      → Reaches moka s t
      → IsCuttable t m
      → handle moka w t m ≡ some (u, r, ws)
      → Reaches moka s u

abbrev pool_or : {C : Type 0} → PoolState C → Option (Turn C) → PoolState C
pool_or s none = s
pool_or s (some t) = t.0

module _ {C : Type 0} (moka : Moka C) where
  pub handled-Conserves :
      (w : World) (m : Message) (s t : PoolState C) (r : Reply) (ws : List DbWrite)
      → IsWellFormed s
      → IsCuttable s m
      → handle moka w s m ≡ some (t, r, ws)
      → Conserves s t
  handled-Conserves w m s t r ws k cut e =
      let (u, q, vs, f, a, c) = handle-Conserves moka w s m k cut in
      subst (λ v. Conserves s v) (ap (pool_or s) (sym f ∙ e)) c

  -- Over any sequence of turns, with any messages but reloads, any times and any answers of the database, a
  -- well-formed pool stays well-formed and has every account in as many buckets as at the start, as long as no
  -- account comes back whose credential cannot be cut at byte 20.
  pub Reaches-Conserves : (s t : PoolState C) → Reaches moka s t → IsWellFormed s → Conserves s t
  Reaches-Conserves s t here k = Conserves-of_places s s k k.keyed (λ id. refl)
  Reaches-Conserves s u (turn {t} w m r ws before cut e) k =
      let h = Reaches-Conserves s t before k in
      Conserves-trans h (handled-Conserves w m t u r ws h.wellformed cut e)
