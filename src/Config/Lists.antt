-- ===== src/Config/Lists.antt =====
-- lib/configl.c: the lists of peers, sensors and mechanisms.
use regonf.Prelude.{
  ℕ, ◌+◌, Bool, true, false, ◌&&◌, Option, none, some, List, [], ◌∷◌, ◌++◌, ◌==◌, leb, length,
  if◌then◌else◌,
}
use regonf.Prelude.Int.{pos, negsuc}
use regonf.CString.{codes}
use regonf.Float.{FloatOps}
use regonf.Timef.{Timespec, timespec}
use regonf.Acp.{Peer, SensorFts, Em}
use regonf.Config.{
  not, Column, Row, Texts, Sqlite, DbWorld, column_is, scan_columns, get_peer_by_id,
  check_peer_list, check_sensor_fts_list, check_em_list, db_open, db_close, db_get_int, exec_rows,
}

-- What `calloc` leaves in an item
abbrev zero_time : Timespec
zero_time = timespec (pos 0) (pos 0)

abbrev pub zero_peer : Peer
zero_peer = record { id = []; addr_str = []; port = pos 0; active = false; time1 = zero_time }

abbrev pub zero_sensor : {F : Type 0} → ⦃float : FloatOps F⦄ → SensorFts F
zero_sensor {F} ⦃float⦄ = record {
  id = pos 0;
  remote_id = pos 0;
  peer = zero_peer;
  value = record { id = pos 0; value = float.zero_f; tm = zero_time; state = pos 0 };
  last_read_time = zero_time;
  interval_min = zero_time;
  last_return = false;
}

abbrev pub zero_em : {F : Type 0} → ⦃float : FloatOps F⦄ → Em F
zero_em {F} ⦃float⦄ = record {
  id = pos 0;
  remote_id = pos 0;
  peer = zero_peer;
  last_output = float.zero_f;
  pwm_rsl = float.zero_f;
}

-- A row becomes the next item of an array of `size` items, with `required` columns. Where a column is
-- refused the item is not counted.
abbrev pub list_row :
    {A : Type 0}
    → (size required : ℕ) → A
    → (Column → A × ℕ → Option (A × ℕ))
    → (A → Bool)
    → Row
    → List A
    → Option (Bool × List A)
list_row {A} size required blank step accepts row items =
    if leb size (length items)
    then none
    else elim (scan_columns step row (blank, 0)) as (λ _. Option (Bool × List A)) [
      | none ↦ some (false, items)
      | some (a, c) ↦ some ((c == required) && accepts a, items ++ a ∷ [])
    ]

module _ {F : Type 0} ⦃float : FloatOps F⦄ (texts : Texts F) where
  -- One column in `getPeerList_callback`, `getSensorFTSList_callback` and `getEMList_callback`
  unfoldable pub peer_column : Column → Peer × ℕ → Option (Peer × ℕ)
  peer_column column (p, c) =
      if column_is (codes "id") column
      then some (record p { id = column.1 }, c + 1)
      else if column_is (codes "port") column
      then some (record p { port = texts.atoi column.1 }, c + 1)
      else if column_is (codes "ip_addr") column
      then some (record p { addr_str = column.1 }, c + 1)
      else some (p, c)

  unfoldable pub sensor_column : List Peer → Column → SensorFts F × ℕ → Option (SensorFts F × ℕ)
  sensor_column peers column (s, c) =
      if column_is (codes "peer_id") column
      then elim (get_peer_by_id column.1 peers) as (λ _. Option (SensorFts F × ℕ)) [
        | none ↦ none
        | some p ↦ some (record s { peer = p }, c + 1)
      ]
      else if column_is (codes "remote_id") column
      then some (record s { remote_id = texts.atoi column.1 }, c + 1)
      else if column_is (codes "sensor_id") column
      then some (record s { id = texts.atoi column.1 }, c + 1)
      else some (s, c)

  unfoldable pub em_column : List Peer → Column → Em F × ℕ → Option (Em F × ℕ)
  em_column peers column (e, c) =
      if column_is (codes "peer_id") column
      then elim (get_peer_by_id column.1 peers) as (λ _. Option (Em F × ℕ)) [
        | none ↦ none
        | some p ↦ some (record e { peer = p }, c + 1)
      ]
      else if column_is (codes "remote_id") column
      then some (record e { remote_id = texts.atoi column.1 }, c + 1)
      else if column_is (codes "em_id") column
      then some (record e { id = texts.atoi column.1 }, c + 1)
      else if column_is (codes "pwm_rsl") column
      then some (record e { pwm_rsl = texts.atof column.1 }, c + 1)
      else some (e, c)

  module _ {W : Type 0} (sql : Sqlite W) where
    -- The array is as long as the count of the rows; the two queries are not one transaction.
    abbrev pub fill :
        {A : Type 0}
        → (ℕ → Row → List A → Option (Bool × List A))
        → (List A → Bool)
        → ℕ
        → List ℕ
        → DbWorld W
        → Option (Bool × List A × DbWorld W)
    fill {A} callback unique n text d =
        let (rows, ended, w) = sql.query text d.world in
        let d1 = db_close sql (record d { world = w }) in
        elim (exec_rows sql (callback n) rows []) as (λ _. Option (Bool × List A × DbWorld W)) [
          | none ↦ none
          | some (fine, items) ↦
              some (if fine && ended && unique items then (true, items, d1) else (false, [], d1))
        ]

    -- The loading of a list. A query for the count that fails is taken for a count of 0.
    abbrev pub load_list :
        {A : Type 0}
        → (ℕ → Row → List A → Option (Bool × List A))
        → (List A → Bool)
        → (count_text text path : List ℕ) → DbWorld W
        → Option (Bool × List A × DbWorld W)
    load_list {A} callback unique count_text text path d =
        let (opened, d1) = db_open sql path d in
        let (_, n, d2) = db_get_int sql texts.atoi count_text d1 in
        if not opened
        then some (false, [], d1)
        else elim n as (λ _. Option (Bool × List A × DbWorld W)) [
          | negsuc k ↦ some (true, [], db_close sql d2)
          | pos k ↦
              if k == 0 then some (true, [], db_close sql d2) else fill callback unique k text d2
        ]

    unfoldable pub get_peer_list : List ℕ → DbWorld W → Option (Bool × List Peer × DbWorld W)
    unfolding peer_column scan_columns exec_rows
    get_peer_list =
        load_list
          (λ n. list_row n 3 zero_peer peer_column (λ p. texts.is_address p.addr_str p.port))
          check_peer_list (codes "select count(*) FROM peer")
          (codes "select id, port, ip_addr FROM peer")

    unfoldable pub get_sensor_fts_list :
        List Peer → List ℕ → DbWorld W → Option (Bool × List (SensorFts F) × DbWorld W)
    unfolding sensor_column scan_columns exec_rows
    get_sensor_fts_list peers =
        load_list (λ n. list_row n 3 zero_sensor (sensor_column peers) (λ s. true))
          check_sensor_fts_list (codes "select count(*) FROM sensor_mapping")
          (codes "select sensor_id, peer_id, remote_id FROM sensor_mapping")

    unfoldable pub get_em_list :
        List Peer → List ℕ → DbWorld W → Option (Bool × List (Em F) × DbWorld W)
    unfolding em_column scan_columns exec_rows
    get_em_list peers =
        load_list (λ n. list_row n 4 zero_em (em_column peers) (λ e. true)) check_em_list
          (codes "select count(*) FROM em_mapping")
          (codes "select em_id, peer_id, remote_id, pwm_rsl FROM em_mapping")
