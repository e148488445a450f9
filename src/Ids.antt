-- ===== src/Ids.antt =====
-- `generate_prefixed_id` of backend/app/utils.py: each call draws the next random identifier.
use Prim.Native.String.{◌++◌}
use sha.Base.{String, suc, ok}
use sha.Model.Tx.{Tx}
use sha.Outside.{Outside}

unfoldable pub generate_prefixed_id : Outside → String → Tx String
generate_prefixed_id outside prefix db =
    ok ((prefix ++ "_") ++ outside.uuid db.draws, record db { draws = suc db.draws })
