-- ===== src/Config/Program.antt =====
-- db.c: `getProg_callback`, which makes a program of a row of the table "prog", with
-- `reg_getSecureFDB` of lib/reg.c, which it calls with the open database.
use regonf.Prelude.{
  ℕ, ◌+◌, Bool, true, false, not, ◌&&◌, Option, none, some, List, [], ◌∷◌, ◌++◌, ◌==◌,
  if◌then◌else◌,
}
use regonf.Prelude.Int.{ℤ, pos, eq_ℤ}
use regonf.CString.{codes, str_eq}
use regonf.CString.Decimal.{print_d}
use regonf.Float.{FloatOps}
use regonf.Timef.{timespec}
use regonf.Acp.{SensorFts, Em}
use regonf.Reg.{RegSecure}
use regonf.Regonfhc.{RegOnfHc}
use regonf.Regonfhc.Handlers.{mode_cooler, mode_heater, mode_both, enable, disable_reg}
use regonf.Server.Lifecycle.{Loaded}
use regonf.Config.{
  Column, Row, Texts, Sqlite, column_is, scan_columns, get_sensor_fts_by_id, get_em_by_id,
  exec_rows,
}

module _ {F : Type 0} ⦃float : FloatOps F⦄ (texts : Texts F) where
  -- `memset(item, 0, sizeof *item)`; the pointer `error_code` is set again after the program is read
  abbrev zero_secure : RegSecure F → RegSecure F
  zero_secure s = record {
    id = pos 0;
    active = false;
    timeout = timespec (pos 0) (pos 0);
    heater_duty_cycle = float.zero_f;
    cooler_duty_cycle = float.zero_f;
    tmr = record { start = timespec (pos 0) (pos 0); ready = false };
    done = false;
    error_code = s.error_code;
  }

  -- One column in `getRegSecureList_callback`
  unfoldable pub secure_column : Column → RegSecure F × ℕ → Option (RegSecure F × ℕ)
  secure_column column (s, c) =
      if column_is (codes "id") column
      then some (record s { id = texts.atoi column.1 }, c + 1)
      else if column_is (codes "timeout_sec") column
      then some (record s { timeout = timespec (texts.atoi column.1) (pos 0) }, c + 1)
      else if column_is (codes "heater_duty_cycle") column
      then some (record s { heater_duty_cycle = texts.atof column.1 }, c + 1)
      else if column_is (codes "cooler_duty_cycle") column
      then some (record s { cooler_duty_cycle = texts.atof column.1 }, c + 1)
      else some (s, c)

  -- The rows of the secure settings, of which there is room for one: the settings, and how many rows
  -- have been read. A second row would be written behind them.
  unfoldable pub secure_row : Row → RegSecure F × ℕ → Option (Bool × (RegSecure F × ℕ))
  unfolding secure_column scan_columns
  secure_row row (s, read) =
      if not (read == 0)
      then none
      else elim (scan_columns secure_column row (s, 0))
          as (λ _. Option (Bool × (RegSecure F × ℕ))) [
            | none ↦ some (false, (s, read))
            | some (s', c) ↦ some (
                if c == 4
                then (true, (record s' { active = true }, read + 1))
                else (false, (s', read + 1)))
          ]

  module _ {W : Type 0} (sql : Sqlite W) where
    secure_query : ℤ → List ℕ
    secure_query id =
        codes "SELECT id, timeout_sec, heater_duty_cycle, cooler_duty_cycle FROM secure where id="
        ++ print_d id

    -- `reg_getSecureFDB` with the open database
    unfoldable pub get_secure : RegSecure F → ℤ → W → Option (Bool × RegSecure F × W)
    unfolding secure_row exec_rows secure_query
    get_secure item id w =
        let (rows, ended, w1) = sql.query (secure_query id) w in
        elim (exec_rows sql secure_row rows (zero_secure item, 0))
          as (λ _. Option (Bool × RegSecure F × W)) [
            | none ↦ none
            | some (fine, (s, read)) ↦ some (fine && ended && (read == 1), s, w1)
          ]

-- The program while its row is read, with the local variables `enable`, `load` and `c`, the number of
-- the columns that are known, and the world
pub record ProgScan (F W : Type 0) : Type 0 where
  pub prog : Loaded F
  pub enable : ℤ
  pub load : ℤ
  pub c : ℕ
  pub world : W

-- What a column does: it is refused, or it writes past the end of the secure settings, or it is read
pub data Reading (A : Type 0) : Type 0 where
  refused : A → Reading A
  overrun : Reading A
  reads : A → Reading A

module _ {F W : Type 0} ⦃float : FloatOps F⦄ (texts : Texts F) (sql : Sqlite W) (ems : List (Em F))
    (sensors : List (SensorFts F)) where
  abbrev with_reg : ProgScan F W → RegOnfHc F → ProgScan F W
  with_reg s reg = record s { prog = record (s.prog) { reg = reg } }

  abbrev with_uses : Bool → Bool → RegOnfHc F → RegOnfHc F
  with_uses heater cooler reg = record reg {
    heater = record (reg.heater) { use_em = heater };
    cooler = record (reg.cooler) { use_em = cooler };
  }

  -- The column "em_mode"
  unfoldable pub set_uses : List ℕ → RegOnfHc F → RegOnfHc F
  set_uses value reg =
      if str_eq mode_cooler value
      then with_uses false true reg
      else if str_eq mode_heater value
      then with_uses true false reg
      else if str_eq mode_both value
      then with_uses true true reg
      else with_uses false false reg

  -- The columns that name a sensor or a mechanism
  unfoldable pub set_sensor : List ℕ → ProgScan F W → Reading (ProgScan F W)
  unfolding get_sensor_fts_by_id
  set_sensor value s =
      elim (get_sensor_fts_by_id (texts.atoi value) sensors) as (λ _. Reading (ProgScan F W)) [
        | none ↦ refused s
        | some x ↦ reads (with_reg s (record (s.prog.reg) { sensor = x }))
      ]

  unfoldable pub set_heater_em : List ℕ → ProgScan F W → Reading (ProgScan F W)
  unfolding get_em_by_id
  set_heater_em value s =
      elim (get_em_by_id (texts.atoi value) ems) as (λ _. Reading (ProgScan F W)) [
        | none ↦ refused s
        | some e ↦
            reads
              (with_reg s (record (s.prog.reg) { heater = record (s.prog.reg.heater) { em = e } }))
      ]

  unfoldable pub set_cooler_em : List ℕ → ProgScan F W → Reading (ProgScan F W)
  unfolding get_em_by_id
  set_cooler_em value s =
      elim (get_em_by_id (texts.atoi value) ems) as (λ _. Reading (ProgScan F W)) [
        | none ↦ refused s
        | some e ↦
            reads
              (with_reg s (record (s.prog.reg) { cooler = record (s.prog.reg.cooler) { em = e } }))
      ]

  -- The columns "secure_id" and "green_light_sensor_id"
  unfoldable pub set_secure : List ℕ → ProgScan F W → Reading (ProgScan F W)
  unfolding get_secure
  set_secure value s =
      elim (get_secure texts sql s.prog.reg.secure_out (texts.atoi value) s.world)
        as (λ _. Reading (ProgScan F W)) [
          | none ↦ overrun
          | some (fine, x, w) ↦
              let x' = if fine then x else record x { active = false } in
              reads (with_reg (record s { world = w }) (record (s.prog.reg) { secure_out = x' }))
        ]

  unfoldable pub set_green_light : List ℕ → RegOnfHc F → RegOnfHc F
  unfolding get_sensor_fts_by_id
  set_green_light value reg =
      elim (get_sensor_fts_by_id (texts.atoi value) sensors) as (λ _. RegOnfHc F) [
        | none ↦ record reg { green_light = record (reg.green_light) { active = false } }
        | some x ↦ record reg {
          green_light = record (reg.green_light) { sensor = x; active = true };
        }
      ]

  abbrev pub counted : Reading (ProgScan F W) → Reading (ProgScan F W)
  counted (refused s) = refused s
  counted overrun = overrun
  counted (reads s) = reads (record s { c = s.c + 1 })

  -- The body of the loop over the columns, on a column that is known
  unfoldable pub prog_column : Column → ProgScan F W → Reading (ProgScan F W)
  unfolding set_uses set_sensor set_heater_em set_cooler_em set_secure set_green_light
  prog_column column s =
      let value = column.1 in
      let reg = s.prog.reg in
      if column_is (codes "id") column
      then counted (reads (record s { prog = record (s.prog) { id = texts.atoi value } }))
      else if column_is (codes "sensor_id") column
      then counted (set_sensor value s)
      else if column_is (codes "heater_em_id") column
      then counted (set_heater_em value s)
      else if column_is (codes "cooler_em_id") column
      then counted (set_cooler_em value s)
      else if column_is (codes "em_mode") column
      then counted (reads (with_reg s (set_uses value reg)))
      else if column_is (codes "goal") column
      then counted (reads (with_reg s (record reg { goal = texts.atof value })))
      else if column_is (codes "heater_delta") column
      then counted (
          reads
            (with_reg s (record reg { heater = record (reg.heater) { delta = texts.atof value } })))
      else if column_is (codes "cooler_delta") column
      then counted (
          reads
            (with_reg s (record reg { cooler = record (reg.cooler) { delta = texts.atof value } })))
      else if column_is (codes "change_gap") column
      then counted
          (reads (with_reg s (record reg { change_gap = timespec (texts.atoi value) (pos 0) })))
      else if column_is (codes "secure_id") column
      then counted (set_secure value s)
      else if column_is (codes "green_light_sensor_id") column
      then counted (reads (with_reg s (set_green_light value reg)))
      else if column_is (codes "green_value") column
      then counted (
          reads (
            with_reg s (record reg {
              green_light = record (reg.green_light) { green_value = texts.atof value };
            })))
      else if column_is (codes "save") column
      then counted (reads (record s { prog = record (s.prog) { save = texts.atoi value } }))
      else if column_is (codes "enable") column
      then counted (reads (record s { enable = texts.atoi value }))
      else if column_is (codes "load") column
      then counted (reads (record s { load = texts.atoi value }))
      else reads s

  unfoldable pub prog_columns : Row → ProgScan F W → Reading (ProgScan F W)
  unfolding prog_column
  prog_columns [] s = reads s
  prog_columns (column ∷ row) s = elim (prog_column column s) as (λ _. Reading (ProgScan F W)) [
    | refused s' ↦ refused s'
    | overrun ↦ overrun
    | reads s' ↦ prog_columns row s'
  ]

  -- What follows the loop. `save_load` writes 1 to the column "load" of the program.
  unfoldable pub finish_prog : (save_load : ℤ → W → W) → ProgScan F W → Bool × ProgScan F W
  finish_prog save_load s =
      let reg' = if eq_ℤ s.enable (pos 0) then disable_reg s.prog.reg else enable s.prog.reg in
      let w' = if eq_ℤ s.load (pos 0) then save_load s.prog.id s.world else s.world in
      if s.c == 15 then (true, record (with_reg s reg') { world = w' }) else (false, s)

  -- `getProg_callback`; `none` is a write past the end of the secure settings
  unfoldable pub get_prog_callback :
      (save_load : ℤ → W → W) → Row → Loaded F → W → Option (Bool × Loaded F × W)
  unfolding prog_columns finish_prog
  get_prog_callback save_load row item w =
      let s : ProgScan F W = record {
        prog = item;
        enable = pos 0;
        load = pos 0;
        c = 0;
        world = w;
      } in
      elim (prog_columns row s) as (λ _. Option (Bool × Loaded F × W)) [
        | refused s' ↦ some (false, s'.prog, s'.world)
        | overrun ↦ none
        | reads s' ↦ let (fine, s2) = finish_prog save_load s' in some (fine, s2.prog, s2.world)
      ]
