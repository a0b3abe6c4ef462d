-- ===== src/Objects/Effects.antt =====
-- be/ocpp/utils/date.py and `uuid4`: readings of the outside world.
use levity.Prelude.{ℕ, ◌+◌, String}
use levity.Models.World.{Exec, done}
use levity.Platform.{Platform}

module _ ⦃p : Platform⦄ where
  unfoldable pub utc_now : Exec ℕ
  utc_now w = done (p.utc_now w.clock_reads) (record w { clock_reads = w.clock_reads + 1 })

  -- `str(uuid4())`
  unfoldable pub uuid4 : Exec String
  uuid4 w = done (p.uuid4 w.ids_drawn) (record w { ids_drawn = w.ids_drawn + 1 })
