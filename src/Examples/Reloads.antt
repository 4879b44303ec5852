-- ===== src/Examples/Reloads.antt =====
-- The theorems on reloads, at four rows, two of them out.
use mathlib.Core.List.Memᴰ.{head}
use clewdr_hub.Common.{◌≡◌, refl, true, false, none, some, List, [], ◌∷◌, count, get, pos, has_key}
use clewdr_hub.Config.Slot.{has_id}
use clewdr_hub.Config.Row.{AccountWithRuntime, AreDistinct}
use clewdr_hub.Pool.Conservation.{IsWellFormed}
use clewdr_hub.Pool.Loader.{Parsers}
use clewdr_hub.Pool.Reload.{do_reload, pre_start, row_entry}
use clewdr_hub.Pool.Reload.Invariant.{IsRebuilt, do_reload-IsRebuilt}
use clewdr_hub.Pool.Reload.Terminal.{do_reload-terminal}
use clewdr_hub.Pool.Reload.Lifetime.{started, reloaded, IsLive-IsWellFormed}
use clewdr_hub.Examples.Inputs.{table, pool, failing}
use clewdr_hub.Examples.Views.{row, rows, rows-AreDistinct}

abbrev parsers : Parsers
parsers = record {
  patterns = record { find_full = λ s. none; is_base = λ s. true };
  extra_headers = λ s. none;
  json_value = λ s. none;
  is_filled_object = λ s. false;
  mimicry_config = λ s. none;
  default_mimicry_config = "{}";
}

-- The rows of before, but the first is out.
abbrev out_row : AccountWithRuntime
out_row = record (row 1) { status = "auth_error"; invalid_reason = none }

abbrev later_rows : List AccountWithRuntime
later_rows = out_row ∷ row 2 ∷ row 3 ∷ []

later_rows-AreDistinct : AreDistinct later_rows
unfolding count
later_rows-AreDistinct = (refl, (refl, (refl, tt)))

do_reload-IsRebuilt_example :
    IsRebuilt parsers later_rows (do_reload table parsers failing (pos 50) (some later_rows) pool).0
do_reload-IsRebuilt_example =
    do_reload-IsRebuilt parsers (pos 50) table failing later_rows pool later_rows-AreDistinct

do_reload-terminal_example :
    (get 1 (do_reload table parsers failing (pos 50) (some later_rows) pool).0.invalid
      ≡ some (row_entry out_row))
    × (count (has_id 1) (do_reload table parsers failing (pos 50) (some later_rows) pool).0.valid
        ≡ 0)
    × (count
          (has_key 1)
          (do_reload table parsers failing (pos 50) (some later_rows) pool).0.exhausted
        ≡ 0)
do_reload-terminal_example =
    do_reload-terminal parsers (pos 50) table failing later_rows out_row pool later_rows-AreDistinct
      (head refl) refl refl

IsLive-IsWellFormed_example :
    IsWellFormed
      (do_reload table parsers failing
        (pos 60)
        (some later_rows)
        (pre_start table parsers failing (pos 50) (some rows) [])).0
IsLive-IsWellFormed_example =
    IsLive-IsWellFormed table parsers
      (do_reload table parsers failing (pos 60) (some later_rows)
        (pre_start table parsers failing (pos 50) (some rows) [])).0
      (reloaded failing (pos 60) (some later_rows)
        (started failing (pos 50) (some rows) [] rows-AreDistinct) later_rows-AreDistinct)
