-- ===== src/Config/Single.antt =====
-- lib/configl.c and db.c: the reading of one sensor, mechanism, peer or program. What a failure leaves in
-- the item is not modelled, and neither is a query of more than LINE_SIZE characters.
use regonf.Prelude.{
  WhenSome, ℕ, ◌+◌, ◌≡◌, refl, Bool, true, false, ◌&&◌, Option, none, some, List, [], ◌∷◌, ◌++◌,
  ◌==◌, arith, length, if◌then◌else◌, if_cases,
}
use regonf.Prelude.Int.{ℤ}
use regonf.CString.{codes}
use regonf.CString.Decimal.{print_d}
use regonf.Float.{FloatOps}
use regonf.Acp.{Peer, SensorFts, Em}
use regonf.Server.Lifecycle.{Loaded}
use regonf.Config.{
  Column, Row, Texts, Sqlite, DbWorld, column_is, scan_columns, get_peer_by_id, db_open, db_close,
  exec_rows,
}
use regonf.Config.Lists.{zero_peer, zero_sensor, zero_em, list_row, peer_column, sensor_column}
use regonf.Config.Program.{get_prog_callback}

-- A callback that reads a row into one item, with `required` columns. `set_last` is what it stores
-- behind the loop.
abbrev pub item_row :
    {A : Type 0}
    → (required : ℕ) → (Column → A × ℕ → Option (A × ℕ))
    → (A → A)
    → Row
    → A
    → Option (Bool × A)
item_row {A} required step set_last row item =
    elim (scan_columns step row (item, 0)) as (λ _. Option (Bool × A)) [
      | none ↦ some (false, item)
      | some (a, c) ↦ some (c == required, set_last a)
    ]

module _ {F W : Type 0} ⦃float : FloatOps F⦄ (texts : Texts F) (sql : Sqlite W) where
  -- One query for one item
  abbrev pub ask_item :
      {A : Type 0} → (Row → A → Option (Bool × A)) → A → List ℕ → W → Option (Bool × A × W)
  ask_item {A} callback item text w =
      let (rows, ended, w1) = sql.query text w in
      elim (exec_rows sql callback rows item) as (λ _. Option (Bool × A × W)) [
        | none ↦ none
        | some (fine, a) ↦ some (fine && ended, a, w1)
      ]

  -- One column in `getEM_callback`
  unfoldable pub single_em_column : List Peer → Column → Em F × ℕ → Option (Em F × ℕ)
  single_em_column peers column (e, c) =
      if column_is (codes "peer_id") column
      then elim (get_peer_by_id column.1 peers) as (λ _. Option (Em F × ℕ)) [
        | none ↦ none
        | some p ↦ some (record e { peer = p }, c + 1)
      ]
      else if column_is (codes "remote_id") column
      then some (record e { remote_id = texts.atoi column.1 }, c + 1)
      else if column_is (codes "pwm_rsl") column
      then some (record e { pwm_rsl = texts.atof column.1 }, c + 1)
      else some (e, c)

  -- `config_getSensorFTS` and `config_getEM`: an id that the table does not have is no failure.
  unfoldable pub get_sensor_fts : List Peer → ℤ → W → Option (Bool × SensorFts F × W)
  unfolding exec_rows scan_columns sensor_column
  get_sensor_fts peers id w =
      elim (ask_item (item_row 3 (sensor_column texts peers) (λ s. s)) zero_sensor
          (codes "select sensor_id, peer_id, remote_id from sensor_mapping where sensor_id="
            ++ print_d id)
          w)
        as (λ _. Option (Bool × SensorFts F × W)) [
          | none ↦ none
          | some (fine, s, w1) ↦ some (fine, if fine then record s { id = id } else s, w1)
        ]

  unfoldable pub get_em : List Peer → ℤ → W → Option (Bool × Em F × W)
  unfolding exec_rows scan_columns single_em_column
  get_em peers id w =
      elim (ask_item
          (item_row 3 (single_em_column peers) (λ e. record e { last_output = float.zero_f }))
          zero_em
          (codes "select peer_id, remote_id, pwm_rsl from em_mapping where em_id=" ++ print_d id) w)
        as (λ _. Option (Bool × Em F × W)) [
          | none ↦ none
          | some (fine, e, w1) ↦ some (fine, if fine then record e { id = id } else e, w1)
        ]

  -- A query on the open database `dbl`, or on the one at `db_path`, which is closed behind it. `given`
  -- tells whether `dbl` is not null; both together are refused. One of them is taken to be there.
  abbrev pub on_database :
      {A : Type 0}
      → (given : Bool) → Option (List ℕ)
      → A
      → (W → Option (Bool × A × W))
      → DbWorld W
      → Option (Bool × A × DbWorld W)
  on_database {A} given none a ask d = elim (ask d.world) as (λ _. Option (Bool × A × DbWorld W)) [
    | none ↦ none
    | some (fine, b, w) ↦ some (fine, b, record d { world = w })
  ]
  on_database {A} given (some path) a ask d =
      let (opened, d1) = db_open sql path d in
      if given
      then some (false, a, d)
      else if opened
      then elim (ask d1.world) as (λ _. Option (Bool × A × DbWorld W)) [
        | none ↦ none
        | some (fine, b, w) ↦ some (fine, b, db_close sql (record d1 { world = w }))
      ]
      else some (false, a, d1)

  -- `config_getPeer`: the list has room for one peer, which it must have in the end
  unfoldable pub get_peer :
      List ℕ → Bool → Option (List ℕ) → DbWorld W → Option (Bool × List Peer × DbWorld W)
  unfolding exec_rows scan_columns peer_column
  get_peer id given path d =
      let callback =
        list_row 1 3 zero_peer (peer_column texts) (λ p. texts.is_address p.addr_str p.port) in
      elim (on_database given path []
          (ask_item callback []
            (codes "SELECT id, port, ip_addr FROM peer where id='" ++ id ++ codes "'"))
          d)
        as (λ _. Option (Bool × List Peer × DbWorld W)) [
          | none ↦ none
          | some (fine, peers, d1) ↦ some (fine && (length peers == 1), peers, d1)
        ]

  -- `getProgByIdFDB`
  unfoldable pub get_prog_by_id_fdb :
      List (Em F)
      → List (SensorFts F)
      → (save_load : ℤ → W → W) → ℤ
      → Loaded F
      → Bool
      → Option (List ℕ)
      → DbWorld W
      → Option (Bool × Loaded F × DbWorld W)
  unfolding get_prog_callback
  get_prog_by_id_fdb ems sensors save_load id item given path d =
      on_database given path item
        (λ w. prog_rows (sql.query text w).0 (sql.query text w).1 item (sql.query text w).2) d
    where
      text : List ℕ
      text = codes "select * from prog where id=" ++ print_d id

      -- The callback is given the database, and so the world, at each row.
      prog_rows : List Row → Bool → Loaded F → W → Option (Bool × Loaded F × W)
      prog_rows [] ended p w = some (ended, p, w)
      prog_rows (row ∷ rows) ended p w =
          elim (get_prog_callback texts sql ems sensors save_load row p w)
            as (λ _. Option (Bool × Loaded F × W)) [
              | none ↦ none
              | some (fine, p1, w1) ↦
                  if fine then prog_rows rows ended p1 w1 else some (false, p1, w1)
            ]

  -- Whatever the database answers, one that has been opened at a path is closed again.
  pub on_database-handles :
      {A : Type 0} (given : Bool) (path : Option (List ℕ)) (a : A) (ask : W → Option (Bool × A × W))
      (d : DbWorld W)
      → WhenSome (λ r. r.2.handles ≡ d.handles) (on_database given path a ask d)
  on_database-handles {A} given none a ask d = by_answer (ask d.world)
    where
      by_answer :
          (o : Option (Bool × A × W))
          → WhenSome
              (λ r. r.2.handles ≡ d.handles)
              (elim o as (λ _. Option (Bool × A × DbWorld W)) [
                | none ↦ none
                | some (fine, b, w) ↦ some (fine, b, record d { world = w })
              ])
      by_answer none = tt
      by_answer (some (fine, b, w)) = refl
  on_database-handles {A} given (some path) a ask d =
      if_cases Kept given _ _ (λ _. refl)
        (λ _.
          if_cases Kept opened _ _ (λ is_open. by_answer is_open (ask d1.world))
            (λ shut. ground (arith, shut)))
    where
      Kept : Option (Bool × A × DbWorld W) → Type 0
      Kept = WhenSome (λ r. r.2.handles ≡ d.handles)

      opened : Bool
      opened = (db_open sql path d).0

      d1 : DbWorld W
      d1 = (db_open sql path d).1

      by_answer :
          opened ≡ true
          → (o : Option (Bool × A × W))
          → Kept (elim o as (λ _. Option (Bool × A × DbWorld W)) [
            | none ↦ none
            | some (fine, b, w) ↦ some (fine, b, db_close sql (record d1 { world = w }))
          ])
      by_answer is_open none = tt
      by_answer is_open (some (fine, b, w)) = ground (arith, is_open)

  pub get_prog_by_id_fdb-handles :
      (ems : List (Em F)) (sensors : List (SensorFts F)) (save_load : ℤ → W → W) (id : ℤ)
      (item : Loaded F) (given : Bool) (path : Option (List ℕ)) (d : DbWorld W)
      → WhenSome
          (λ r. r.2.handles ≡ d.handles)
          (get_prog_by_id_fdb ems sensors save_load id item given path d)
  unfolding get_prog_by_id_fdb
  get_prog_by_id_fdb-handles ems sensors save_load id item given path d =
      on_database-handles given path item _ d
