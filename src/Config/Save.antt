-- ===== src/Config/Save.antt =====
-- lib/dbl.c: the writes of one field of a row. The table, the field and the text stand in the query as
-- they are. How `%f` prints is a parameter, and a query of more than LINE_SIZE characters is not modelled.
use regonf.Prelude.{
  ℕ, ◌≡◌, refl, Bool, false, Option, none, some, List, ◌++◌, arith, if◌then◌else◌, if_cases,
}
use regonf.Prelude.Int.{ℤ}
use regonf.CString.{codes}
use regonf.CString.Decimal.{print_d}
use regonf.Server.{
  Field, enable_field, save_field, goal_field, heater_delta_field, cooler_delta_field,
  change_gap_field, em_mode_field, Database,
}
use regonf.Config.{Sqlite, DbWorld, db_open, db_close}

-- The queries of the three functions
abbrev pub update_query : (table field value : List ℕ) → ℤ → List ℕ
update_query table field value id =
    codes "update '"
    ++ table
    ++ codes "' set '"
    ++ field
    ++ codes "'="
    ++ value
    ++ codes " where id="
    ++ print_d id

module _ {W : Type 0} (sql : Sqlite W) where
  -- The query on the open database, or on the one at the path, which is closed behind it. `given` tells
  -- whether `dbl` is not null; both together are refused, and one of them is taken to be there.
  abbrev pub run_update : Bool → Option (List ℕ) → List ℕ → DbWorld W → Bool × DbWorld W
  run_update given none text d =
      let (rows, ended, w) = sql.query text d.world in (ended, record d { world = w })
  run_update given (some path) text d =
      let (opened, d1) = db_open sql path d in
      let (rows, ended, w) = sql.query text d1.world in
      if given
      then (false, d)
      else if opened
      then (ended, db_close sql (record d1 { world = w }))
      else (false, d1)

  unfoldable pub save_table_field_int :
      (table field : List ℕ)
      → (id value : ℤ) → Bool
      → Option (List ℕ)
      → DbWorld W
      → Bool × DbWorld W
  save_table_field_int table field id value given path d =
      run_update given path (update_query table field (print_d value) id) d

  unfoldable pub save_table_field_text :
      (table field : List ℕ)
      → ℤ
      → (value : List ℕ) → Bool
      → Option (List ℕ)
      → DbWorld W
      → Bool × DbWorld W
  save_table_field_text table field id value given path d =
      run_update given path (update_query table field (codes "'" ++ value ++ codes "'") id) d

  unfoldable pub save_table_field_float :
      {F : Type 0}
      → (print_f : F → List ℕ) → (table field : List ℕ) → ℤ
      → F
      → Bool
      → Option (List ℕ)
      → DbWorld W
      → Bool × DbWorld W
  save_table_field_float print_f table field id value given path d =
      run_update given path (update_query table field (print_f value) id) d

  -- As many databases are open behind a write as before it.
  run_update-handles :
      (given : Bool) (path : Option (List ℕ)) (text : List ℕ) (d : DbWorld W)
      → (run_update given path text d).1.handles ≡ d.handles
  run_update-handles given none text d = refl
  run_update-handles given (some path) text d =
      if_cases {A = Bool × DbWorld W} (λ r. r.1.handles ≡ d.handles) given _ _ (λ _. refl)
        (λ _. ground arith)

  pub save_table_field_int-handles :
      (table field : List ℕ) (id value : ℤ) (given : Bool) (path : Option (List ℕ)) (d : DbWorld W)
      → (save_table_field_int table field id value given path d).1.handles ≡ d.handles
  unfolding save_table_field_int
  save_table_field_int-handles table field id value given path d = run_update-handles given path _ d

-- The columns of the table "prog"
abbrev field_name : Field → List ℕ
field_name enable_field = codes "enable"
field_name save_field = codes "save"
field_name goal_field = codes "goal"
field_name heater_delta_field = codes "heater_delta"
field_name cooler_delta_field = codes "cooler_delta"
field_name change_gap_field = codes "change_gap"
field_name em_mode_field = codes "em_mode"

-- The writes of the handlers in main.c, which open the database `db_data_path` and do not look at what
-- the writes return
abbrev pub prog_database :
    {F W : Type 0} → Sqlite W → (print_f : F → List ℕ) → (db_data_path : List ℕ) → Database F W
prog_database sql print_f db_data_path = record {
  save_int = λ f id v w.
      (save_table_field_int sql (codes "prog") (field_name f) id v false (some db_data_path)
        (record { world = w; handles = 0 })).1.world;
  save_float = λ f id v w.
      (save_table_field_float sql print_f (codes "prog") (field_name f) id v false
        (some db_data_path) (record { world = w; handles = 0 })).1.world;
  save_text = λ f id v w.
      (save_table_field_text sql (codes "prog") (field_name f) id v false (some db_data_path)
        (record { world = w; handles = 0 })).1.world;
}
