-- ===== src/Database/Reads/Tests.antt =====
-- The theorems on reading, at a concrete table.
use mathlib.Core.List.{Permᴰ}
use rbackup.Base.{◌≡◌, refl, List, [], ◌∷◌, filter, take, ◌==◌, string_eq}
use rbackup.Base.Int.{pos}
use rbackup.Error.{ok}
use rbackup.Models.{Run}
use rbackup.Database.World.{State, query, answer}
use rbackup.Database.Reads.{insert_by_start, sort_runs, recent_runs, get_recent_runs}
use rbackup.Database.Reads.RecentRuns.{IsDescending, get_recent_runs-ok}
use rbackup.Samples.{SampleJson, clock}
use rbackup.Samples.Program.{all_served, old_run, tables, world}

abbrev later_run : Run SampleJson
later_run = record old_run { id = pos 2; start_time = clock 1 0 }

abbrev other_run : Run SampleJson
other_run = record old_run { id = pos 3; start_time = clock 2 0; device_id = "server" }

abbrev full : State all_served
full = record world { tables = record tables { runs = old_run ∷ later_run ∷ other_run ∷ [] } }

newest_first :
    get_recent_runs all_served "laptop" (pos 5) full
    ≡ (ok (later_run ∷ old_run ∷ []), record full { queries = 1 })
unfolding get_recent_runs recent_runs sort_runs insert_by_start query answer string_eq
newest_first = refl

get_recent_runs-ok_example :
    (full.tables ≡ full.tables)
    × ((sorted : List (Run SampleJson)) × IsDescending sorted
        × Permᴰ sorted (filter (λ (r : Run SampleJson). r.device_id == "laptop") full.tables.runs)
        × (later_run ∷ old_run ∷ [] ≡ take 5 sorted))
get_recent_runs-ok_example =
    get_recent_runs-ok all_served "laptop" 5 full (record full { queries = 1 })
      (later_run ∷ old_run ∷ []) newest_first
