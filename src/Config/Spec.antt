-- ===== src/Config/Spec.antt =====
-- lib/configl.c: the sensors that a database describes are the ones that are loaded.
use mathlib.Core.Path.{subst}
use regonf.Prelude.{
  if_cases, Succeeds, ℕ, ◌+◌, ◌≤◌, ◌<◌, ◌≡◌, refl, sym, ap, ◌∙◌, Bool, true, false, ◌&&◌, Option,
  none, some, List, [], ◌∷◌, ◌++◌, ◌==◌, arith, length, if◌then◌else◌, append_assoc, append_nil,
  length-append,
}
use regonf.Prelude.Int.{pos}
use regonf.CString.{codes, str_eq}
use regonf.Float.{FloatOps}
use regonf.Acp.{Peer, SensorFts}
use regonf.Config.{
  is_unique, Row, Texts, Sqlite, DbWorld, scan_columns, get_peer_by_id, check_sensor_fts_list,
  db_close, exec_rows, get_int_rows,
}
use regonf.Config.Lists.{zero_sensor, list_row, sensor_column, fill, get_sensor_fts_list}

-- A sensor as the table holds it: its id, the id of its peer, its id at the peer
pub record SensorEntry : Type 0 where
  pub sensor_id : List ℕ
  pub peer_id : List ℕ
  pub remote_id : List ℕ

-- The row that the query gives for an entry
abbrev pub entry_row : SensorEntry → Row
entry_row e =
    (codes "sensor_id", e.sensor_id)
    ∷ (codes "peer_id", e.peer_id)
    ∷ (codes "remote_id", e.remote_id)
    ∷ []

abbrev pub entry_rows : List SensorEntry → List Row
entry_rows [] = []
entry_rows (e ∷ es) = entry_row e ∷ entry_rows es

module _ {F : Type 0} ⦃float : FloatOps F⦄ (texts : Texts F) (peers : List Peer) where
  -- The sensor of an entry, if its peer is known
  abbrev pub entry_sensor : SensorEntry → Peer → SensorFts F
  entry_sensor e p = record (zero_sensor) {
    id = texts.atoi e.sensor_id;
    peer = p;
    remote_id = texts.atoi e.remote_id;
  }

  abbrev pub sensor_of : SensorEntry → Option (SensorFts F)
  sensor_of e = elim (get_peer_by_id e.peer_id peers) as (λ _. Option (SensorFts F)) [
    | none ↦ none
    | some p ↦ some (entry_sensor e p)
  ]

  abbrev pub and_then : SensorFts F → Option (List (SensorFts F)) → Option (List (SensorFts F))
  and_then s none = none
  and_then s (some ss) = some (s ∷ ss)

  -- The sensors of all entries, if all their peers are known
  abbrev pub sensors_of : List SensorEntry → Option (List (SensorFts F))
  sensors_of [] = some []
  sensors_of (e ∷ es) =
      let rest = sensors_of es in
      elim (sensor_of e) as (λ _. Option (List (SensorFts F))) [
        | none ↦ none
        | some s ↦ and_then s rest
      ]

  -- What the loading returns for some entries
  abbrev pub outcome_of : Option (List (SensorFts F)) → Bool × List (SensorFts F)
  outcome_of none = (false, [])
  outcome_of (some ss) = if check_sensor_fts_list ss then (true, ss) else (false, [])

  abbrev callback : ℕ → Row → List (SensorFts F) → Option (Bool × List (SensorFts F))
  callback n = list_row n 3 zero_sensor (sensor_column texts peers) (λ s. true)

  scan_entry :
      (e : SensorEntry)
      → scan_columns (sensor_column texts peers) (entry_row e) (zero_sensor, 0)
        ≡ elim (sensor_of e) as (λ _. Option (SensorFts F × ℕ)) [
          | none ↦ none
          | some s ↦ some (s, 3)
        ]
  unfolding scan_columns sensor_column str_eq
  scan_entry e = ground arith

  row_lem :
      (n : ℕ) (e : SensorEntry) (items : List (SensorFts F))
      → length items < n
      → callback n (entry_row e) items
        ≡ elim (sensor_of e) as (λ _. Option (Bool × List (SensorFts F))) [
          | none ↦ some (false, items)
          | some s ↦ some (true, items ++ s ∷ [])
        ]
  row_lem n e items h = ground (arith, scan_entry e)

  -- The sensors before the first entry whose peer is not known
  abbrev known : List SensorEntry → List (SensorFts F)
  known [] = []
  known (e ∷ es) =
      let rest = known es in
      elim (sensor_of e) as (λ _. List (SensorFts F)) [ none ↦ [] | some s ↦ s ∷ rest ]

  -- The end of the loop over the rows, for the sensors that have been found
  abbrev loop_end :
      List (SensorFts F) → Option (List (SensorFts F)) → Option (Bool × List (SensorFts F))
  loop_end so_far none = some (false, so_far)
  loop_end so_far (some ss) = some (true, ss)

  abbrev behind : List (SensorFts F) → Option (List (SensorFts F)) → Option (List (SensorFts F))
  behind items none = none
  behind items (some ss) = some (items ++ ss)

  behind-and_then :
      (items : List (SensorFts F)) (s : SensorFts F) (o : Option (List (SensorFts F)))
      → behind (items ++ s ∷ []) o ≡ behind items (and_then s o)
  behind-and_then items s none = refl
  behind-and_then items s (some ss) = ap some (append_assoc items (s ∷ []) ss)

  module _ {W : Type 0} (sql : Sqlite W) where
    rows_lem :
        (n : ℕ) (es : List SensorEntry) (items : List (SensorFts F))
        → length items + length es ≤ n
        → exec_rows sql (callback n) (entry_rows es) items
          ≡ loop_end (items ++ known es) (behind items (sensors_of es))
    unfolding exec_rows
    rows_lem n [] items h = ap (λ t. some (true, t)) (sym (append_nil items))
    rows_lem n (e ∷ es) items h =
        ap
          (λ o. elim o as (λ _. Option (Bool × List (SensorFts F))) [
            | none ↦ none
            | some (fine, a') ↦
                if fine then exec_rows sql (callback n) (entry_rows es) a' else some (false, a')
          ])
          (row_lem n e items (omega arith))
        ∙ by_sensor (sensor_of e)
            (λ s. rows_lem n es (items ++ s ∷ []) (omega (arith, h, length-append items (s ∷ []))))
      where
        by_sensor :
            (o : Option (SensorFts F))
            → ((s : SensorFts F)
                → exec_rows sql (callback n) (entry_rows es) (items ++ s ∷ [])
                  ≡ loop_end
                      ((items ++ s ∷ []) ++ known es)
                      (behind (items ++ s ∷ []) (sensors_of es)))
            → (elim (elim o as (λ _. Option (Bool × List (SensorFts F))) [
              | none ↦ some (false, items)
              | some s ↦ some (true, items ++ s ∷ [])
            ])
                as (λ _. Option (Bool × List (SensorFts F))) [
                  | none ↦ none
                  | some (fine, a') ↦
                      if fine
                      then exec_rows sql (callback n) (entry_rows es) a'
                      else some (false, a')
                ])
              ≡ loop_end
                  (items
                    ++ (elim o as (λ _. List (SensorFts F)) [ none ↦ [] | some s ↦ s ∷ known es ]))
                  (behind items (elim o as (λ _. Option (List (SensorFts F))) [
                    | none ↦ none
                    | some s ↦ and_then s (sensors_of es)
                  ]))
        by_sensor none next = ap (λ t. some (false, t)) (sym (append_nil items))
        by_sensor (some s) next =
            next s
            ∙ ap (λ t. loop_end t (behind (items ++ s ∷ []) (sensors_of es)))
                (append_assoc items (s ∷ []) (known es))
            ∙ ap (loop_end (items ++ s ∷ known es)) (behind-and_then items s (sensors_of es))

    -- A loading that returns what is said of the entries
    abbrev Loads : List SensorEntry → Option (Bool × List (SensorFts F) × DbWorld W) → Type 0
    Loads es = Succeeds (λ r. (r.0, r.1) ≡ outcome_of (sensors_of es))

    fill_lem :
        (n : ℕ) (es : List SensorEntry) (text : List ℕ) (d : DbWorld W) (w : W)
        → length es ≤ n
        → sql.query text d.world ≡ (entry_rows es, true, w)
        → Loads es (fill texts sql callback check_sensor_fts_list n text d)
    fill_lem n es text d w h q =
        subst
          (λ t.
            Loads es
              (elim (exec_rows sql (callback n) t.0 [])
                as (λ _. Option (Bool × List (SensorFts F) × DbWorld W)) [
                  | none ↦ none
                  | some (fine, items) ↦ some (
                      if fine && t.1 && check_sensor_fts_list items
                      then (true, items, db_close sql (record d { world = t.2 }))
                      else (false, [], db_close sql (record d { world = t.2 })))
                ]))
          (sym q) (rw (rows_lem n es [] (omega (arith, h))) (by_sensors (sensors_of es)))
      where
        by_sensors :
            (o : Option (List (SensorFts F)))
            → Succeeds
                (λ r. (r.0, r.1) ≡ outcome_of o)
                (elim (loop_end ([] ++ known es) (behind [] o))
                  as (λ _. Option (Bool × List (SensorFts F) × DbWorld W)) [
                    | none ↦ none
                    | some (fine, items) ↦ some (
                        if fine && true && check_sensor_fts_list items
                        then (true, items, db_close sql (record d { world = w }))
                        else (false, [], db_close sql (record d { world = w })))
                  ])
        by_sensors none = refl
        by_sensors (some ss) = ground arith

    -- Where the table of the sensors has these entries, which the two queries find, the sensors are
    -- loaded just when the peers of all of them are known and their ids differ: each with its id, its
    -- peer and its id at the peer, in the order of the rows.
    pub get_sensor_fts_list_lem :
        (es : List SensorEntry) (count_text path : List ℕ) (d : DbWorld W) (w1 w2 w3 : W)
        → sql.open_db path d.world ≡ (true, w1)
        → sql.query (codes "select count(*) FROM sensor_mapping") w1
          ≡ (((codes "count(*)", count_text) ∷ []) ∷ [], true, w2)
        → texts.atoi count_text ≡ pos (length es)
        → sql.query (codes "select sensor_id, peer_id, remote_id FROM sensor_mapping") w2
          ≡ (entry_rows es, true, w3)
        → Succeeds
            (λ r. (r.0, r.1) ≡ outcome_of (sensors_of es))
            (get_sensor_fts_list texts sql peers path d)
    unfolding get_sensor_fts_list get_int_rows is_unique
    get_sensor_fts_list_lem [] count_text path d w1 w2 w3 o c n q = rw (o, c, n) refl
    get_sensor_fts_list_lem (e ∷ es) count_text path d w1 w2 w3 o c n q =
        let world_is =
          ap (λ t. (sql.query (codes "select count(*) FROM sensor_mapping") t.1).2) o
          ∙ ap (λ t. t.2) c in
        rw (o, c, n)
          (if_cases (Loads (e ∷ es)) (length (e ∷ es) == 0) _ _ (λ z. absurd (ground arith))
            (λ z.
              fill_lem (length (e ∷ es)) (e ∷ es) _ _ w3 (omega arith)
                (ap (sql.query _) world_is ∙ q)))
