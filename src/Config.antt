-- ===== src/Config.antt =====
-- lib/configl.c, lib/reg.c, lib/dbl.c and db.c: what the program reads from its databases and writes to them. A row of an answer is
-- the list of its columns, with the name and the text of each; an SQL NULL is not modelled. The
-- database, `atoi` and `atof`, and the making of an address are parameters.
pub mod Fresh
pub mod Lists
pub mod Program
pub mod Save
pub mod Single
pub mod Sound
pub mod Spec
mod Tests
use regonf.Prelude.{
  ℕ, zero, suc, ◌+◌, ◌-◌, Bool, true, false, not, ◌&&◌, ◌||◌, Option, none, some, List, [], ◌∷◌,
  ◌++◌, ◌==◌, leb, length, if◌then◌else◌,
}
use regonf.Prelude.Int.{ℤ, pos, eq_ℤ}
use regonf.CString.{codes, str_eq}
use regonf.Acp.{Peer, SensorFts, Em}

abbrev pub Column : Type 0
Column = List ℕ × List ℕ

abbrev pub Row : Type 0
Row = List Column

-- `atoi`, `atof`, and whether `makeClientAddr` understands an address
pub record Texts (F : Type 0) : Type 0 where
  pub atoi : List ℕ → ℤ
  pub atof : List ℕ → F
  pub is_address : List ℕ → ℤ → Bool

-- SQLite on the databases of the program. A query gives the rows that it finds and whether it ends
-- well. An open database is not told apart from another one.
pub record Sqlite (W : Type 0) : Type 0 where
  pub open_db : (path : List ℕ) → W → Bool × W
  pub close_db : W → W
  pub query : (text : List ℕ) → W → List Row × Bool × W

-- DB_COLUMN_IS
abbrev pub column_is : List ℕ → Column → Bool
column_is name column = str_eq name column.0

-- The loop of a callback over the columns, with the count `c` of those it knows
unfoldable pub scan_columns :
    {A : Type 0} → (Column → A × ℕ → Option (A × ℕ)) → Row → A × ℕ → Option (A × ℕ)
scan_columns {A} step [] s = some s
scan_columns {A} step (column ∷ row) s = elim (step column s) as (λ _. Option (A × ℕ)) [
  | none ↦ none
  | some s' ↦ scan_columns step row s'
]

-- LIST_GET_BY_IDSTR and LIST_GET_BY_ID
unfoldable pub get_peer_by_id : List ℕ → List Peer → Option Peer
get_peer_by_id id [] = none
get_peer_by_id id (p ∷ ps) =
    let rest = get_peer_by_id id ps in if str_eq p.id id then some p else rest

unfoldable pub get_sensor_fts_by_id : {F : Type 0} → ℤ → List (SensorFts F) → Option (SensorFts F)
get_sensor_fts_by_id id [] = none
get_sensor_fts_by_id id (s ∷ ss) =
    let rest = get_sensor_fts_by_id id ss in if eq_ℤ s.id id then some s else rest

unfoldable pub get_em_by_id : {F : Type 0} → ℤ → List (Em F) → Option (Em F)
get_em_by_id id [] = none
get_em_by_id id (e ∷ es) = let rest = get_em_by_id id es in if eq_ℤ e.id id then some e else rest

-- The check that no two items have the same id, by the comparison of ids
unfoldable pub differs_from : {A : Type 0} → (A → A → Bool) → A → List A → Bool
differs_from same a [] = true
differs_from same a (b ∷ bs) = not (same a b) && differs_from same a bs

unfoldable pub is_unique : {A : Type 0} → (A → A → Bool) → List A → Bool
unfolding differs_from
is_unique same [] = true
is_unique same (a ∷ as_) = differs_from same a as_ && is_unique same as_

-- `config_checkPeerList`, `config_checkSensorFTSList` and `config_checkEMList`
abbrev pub check_peer_list : List Peer → Bool
check_peer_list = is_unique (λ a b. str_eq a.id b.id)

abbrev pub check_sensor_fts_list : {F : Type 0} → List (SensorFts F) → Bool
check_sensor_fts_list = is_unique (λ a b. eq_ℤ a.id b.id)

abbrev pub check_em_list : {F : Type 0} → List (Em F) → Bool
check_em_list = is_unique (λ a b. eq_ℤ a.id b.id)

-- The world, and how many databases are open
pub record DbWorld (W : Type 0) : Type 0 where
  pub world : W
  pub handles : ℕ

module _ {W : Type 0} (sql : Sqlite W) where
  -- `db_openR` and `db_open`, which close what they could not open, and `sqlite3_close`
  abbrev pub db_open : List ℕ → DbWorld W → Bool × DbWorld W
  db_open path d =
      let (ok, w) = sql.open_db path d.world in
      (ok, record { world = w; handles = if ok then d.handles + 1 else d.handles })

  abbrev pub db_close : DbWorld W → DbWorld W
  db_close d = record { world = sql.close_db d.world; handles = d.handles - 1 }

  -- `db_exec` with a callback, which stops at the first row that the callback refuses. The callback
  -- returns `none` where it writes past the end of its data.
  unfoldable pub exec_rows :
      {A : Type 0} → (Row → A → Option (Bool × A)) → List Row → A → Option (Bool × A)
  exec_rows {A} callback [] a = some (true, a)
  exec_rows {A} callback (row ∷ rows) a = elim (callback row a) as (λ _. Option (Bool × A)) [
    | none ↦ none
    | some (fine, a') ↦ if fine then exec_rows callback rows a' else some (false, a')
  ]

  -- `getInt_callback`
  abbrev pub get_int_callback : (List ℕ → ℤ) → Row → ℤ → ℤ
  get_int_callback atoi [] item = item
  get_int_callback atoi (column ∷ row) item = atoi column.1

  unfoldable pub get_int_rows : (List ℕ → ℤ) → List Row → ℤ → ℤ
  get_int_rows atoi [] item = item
  get_int_rows atoi (row ∷ rows) item = get_int_rows atoi rows (get_int_callback atoi row item)

  -- `db_getInt`: the integer that the rows have left, and whether the query ended well
  abbrev pub db_get_int : (List ℕ → ℤ) → List ℕ → DbWorld W → Bool × ℤ × DbWorld W
  db_get_int atoi text d =
      let (rows, ended, w) = sql.query text d.world in
      (ended, get_int_rows atoi rows (pos 0), record d { world = w })
