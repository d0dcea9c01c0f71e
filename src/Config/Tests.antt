-- ===== src/Config/Tests.antt =====
-- lib/configl.c and db.c at concrete inputs. The database answers from a script.
use regonf.Prelude.{
  WhenSome, Succeeds, ℕ, ◌+◌, ◌≡◌, refl, Bool, true, false, Option, none, some, List, [], ◌∷◌,
  arith,
}
use regonf.Prelude.Int.{ℤ, pos}
use regonf.CString.{codes, str_eq}
use regonf.Bench.{world, bench_link, int_float, regulator, sensor, mechanism, peer}
use regonf.Acp.{Peer, Em}
use regonf.Reg.{StateReg}
use regonf.Regonfhc.Handlers.{enable}
use regonf.Regonfhc.Control.Invariant.{IsSound}
use regonf.Regonfhc.Events.{tick, steps}
use regonf.Server.Lifecycle.{Loaded}
use regonf.Config.{Row, Texts, Sqlite, DbWorld, check_sensor_fts_list, scan_columns, exec_rows}
use regonf.Config.Lists.{zero_peer, zero_sensor, peer_column, get_sensor_fts_list}
use regonf.Config.Single.{get_peer, get_sensor_fts}
use regonf.Config.Sound.{CountsLess, IsLoaded, get_sensor_fts_list-IsLoaded}
use regonf.Config.Spec.{SensorEntry, entry_rows, sensors_of, outcome_of, get_sensor_fts_list_lem}
use regonf.Config.Program.{get_prog_callback, prog_columns}
use regonf.Config.Fresh.{get_prog_callback-steps}

-- A number is as long as its text.
abbrev size_of : List ℕ → ℕ
size_of [] = 0
size_of (c ∷ cs) = size_of cs + 1

abbrev texts : Texts ℤ
texts = record {
  atoi = λ t. pos (size_of t);
  atof = λ t. pos (size_of t);
  is_address = λ a p. true;
}

abbrev Script : Type 0
Script = List (List Row × Bool)

abbrev ask : Script → List Row × Bool × Script
ask [] = ([], false, [])
ask ((rows, ended) ∷ rest) = (rows, ended, rest)

abbrev scripted : Sqlite Script
scripted = record { open_db = λ path w. (true, w); close_db = λ w. w; query = λ text w. ask w }

abbrev home : Peer
home = record peer { id = codes "home" }

abbrev entries : List SensorEntry
entries =
    record { sensor_id = codes "1"; peer_id = codes "home"; remote_id = codes "111" }
    ∷ record { sensor_id = codes "11"; peer_id = codes "home"; remote_id = codes "1" }
    ∷ []

abbrev count_text : List ℕ
count_text = codes "xx"

abbrev answers : Script
answers = ((((codes "count(*)", count_text) ∷ []) ∷ []), true) ∷ (entry_rows entries, true) ∷ []

abbrev opening : DbWorld Script
opening = record { world = answers; handles = 0 }

get_sensor_fts_list_lem_example :
    Succeeds
      (λ r. (r.0, r.1) ≡ outcome_of texts (home ∷ []) (sensors_of texts (home ∷ []) entries))
      (get_sensor_fts_list texts scripted (home ∷ []) [] opening)
get_sensor_fts_list_lem_example =
    get_sensor_fts_list_lem texts (home ∷ []) scripted entries count_text [] opening answers
      ((entry_rows entries, true) ∷ []) [] refl refl refl refl

get_sensor_fts_list-IsLoaded_example :
    IsLoaded
      (CountsLess texts scripted
        (codes "select count(*) FROM sensor_mapping")
        (codes "select sensor_id, peer_id, remote_id FROM sensor_mapping")
        []
        opening)
      check_sensor_fts_list
      0
      (get_sensor_fts_list texts scripted (home ∷ []) [] opening)
get_sensor_fts_list-IsLoaded_example =
    get_sensor_fts_list-IsLoaded texts scripted (home ∷ []) [] opening

-- A program before it is read, and the row of one that has no secure settings
abbrev unread : Loaded ℤ
unread = record { id = pos 0; reg = record regulator { state = StateReg.off }; save = pos 0 }

abbrev prog_row : Row
prog_row =
    (codes "id", codes "1")
    ∷ (codes "sensor_id", codes "1")
    ∷ (codes "heater_em_id", codes "11")
    ∷ (codes "cooler_em_id", codes "111")
    ∷ (codes "em_mode", codes "cooler")
    ∷ (codes "goal", codes "1")
    ∷ (codes "heater_delta", codes "1")
    ∷ (codes "cooler_delta", codes "1")
    ∷ (codes "change_gap", codes "1")
    ∷ (codes "secure_id", codes "1")
    ∷ (codes "green_light_sensor_id", codes "")
    ∷ (codes "green_value", codes "1")
    ∷ (codes "save", codes "")
    ∷ (codes "enable", codes "1")
    ∷ (codes "load", codes "1")
    ∷ []

abbrev ems : List (Em ℤ)
ems = (mechanism (pos 2)).em ∷ (mechanism (pos 3)).em ∷ []

get_prog_callback-steps_example :
    WhenSome
      (λ r. Succeeds (λ q. IsSound q.0) (steps (tick ∷ tick ∷ []) r.1.reg (world 0 [])))
      (get_prog_callback texts scripted ems
        (sensor (pos 1) ∷ [])
        (λ id w. w)
        prog_row
        unread
        (([], true) ∷ []))
get_prog_callback-steps_example =
    get_prog_callback-steps texts scripted ems (sensor (pos 1) ∷ []) (λ id w. w) prog_row unread
      (([], true) ∷ []) (tick ∷ tick ∷ []) (world 0 [])
      (record { heater_off = refl; cooler_off = refl; stands = refl; count_le = omega arith })

-- The row is accepted, and the program starts: the regulator is to be initialised and uses the
-- cooler.
abbrev result_of : Option (Bool × Loaded ℤ × Script) → Option (Bool × StateReg × Bool × Bool)
result_of none = none
result_of (some (fine, p, w)) = some (fine, p.reg.state, p.reg.heater.use_em, p.reg.cooler.use_em)

loads :
    result_of (
      get_prog_callback texts scripted ems
        (sensor (pos 1) ∷ [])
        (λ id w. w)
        prog_row
        unread
        (([], true) ∷ []))
    ≡ some (true, StateReg.init, false, true)
unfolding get_prog_callback prog_columns str_eq enable
loads = refl

-- One peer is asked for on an open database; the database stays open. Two peers of that id do not fit.
abbrev peer_row : Row
peer_row =
    (codes "id", codes "home") ∷ (codes "port", codes "1") ∷ (codes "ip_addr", codes "here") ∷ []

abbrev on_open : List Row → DbWorld Script
on_open rows = record { world = (rows, true) ∷ []; handles = 1 }

one_peer :
    get_peer texts scripted (codes "home") true none (on_open (peer_row ∷ []))
    ≡ some (
      true,
      record zero_peer { id = codes "home"; port = pos 1; addr_str = codes "here" } ∷ [],
      record { world = []; handles = 1 },
    )
unfolding get_peer peer_column scan_columns exec_rows str_eq
one_peer = refl

no_peer :
    get_peer texts scripted (codes "home") true none (on_open [])
    ≡ some (false, [], record { world = []; handles = 1 })
unfolding get_peer exec_rows
no_peer = refl

two_peers :
    get_peer texts scripted (codes "home") true none (on_open (peer_row ∷ peer_row ∷ [])) ≡ none
unfolding get_peer peer_column scan_columns exec_rows str_eq
two_peers = refl

-- A sensor that the table does not have is reported as found, with nothing but its id.
no_sensor :
    get_sensor_fts texts scripted (home ∷ []) (pos 7) (([], true) ∷ [])
    ≡ some (true, record zero_sensor { id = pos 7 }, [])
unfolding get_sensor_fts exec_rows
no_sensor = refl
