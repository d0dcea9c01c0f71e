-- ===== src/Server/Query.antt =====
-- main.c and util.c: the commands of `serverRun` that ask for programs, and the rows that `bufCatProg…`
-- make; lib/reg.c: the names of the states. `lockMutex` on a mutex of a program in the list is taken
-- to succeed.
use regonf.Prelude.{ℕ, ◌-◌, Bool, true, false, Option, none, some, List, [], ◌∷◌, ◌++◌, take}
use regonf.Prelude.Int.{ℤ, pos}
use regonf.CString.{codes}
use regonf.CString.Decimal.{print_u, print_d}
use regonf.Timef.{Timespec, Clock, get_time_rest_tmr}
use regonf.Acp.Packet.{
  AcpRequest, AcpResponse, response_pack, str_cat, delimiter_column, delimiter_row,
}
use regonf.Acp.Packet.Parse.{Outcome, fault, fail, done}
use regonf.Acp.Packet.Rows.{line_size}
use regonf.Acp.Packet.ReadRows.{FloatText, data_to_i1_list}
use regonf.Acp.Exchange.FtsRow.{row_fts}
use regonf.Reg.{StateReg}
use regonf.Regonfhc.{RegOnfHc}
use regonf.Regonfhc.Handlers
use regonf.ProgList.{ProgList, Heap, get_prog_by_id}

-- `reg_getStateStr`
unfoldable pub get_state_str : StateReg → List ℕ
get_state_str StateReg.off = codes "OFF"
get_state_str StateReg.init = codes "INIT"
get_state_str StateReg.run_do = codes "DO"
get_state_str StateReg.wait = codes "WAIT"
get_state_str StateReg.busy = codes "BUSY"
get_state_str StateReg.secure = codes "SECURE"
get_state_str StateReg.cooler = codes "COOLER"
get_state_str StateReg.heater = codes "HEATER"
get_state_str StateReg.disable = codes "DISABLE"
get_state_str StateReg.mode_pid = codes "PID"
get_state_str StateReg.mode_onf = codes "ONF"

-- `%d` of a flag
abbrev pub print_flag : Bool → List ℕ
print_flag false = print_d (pos 0)
print_flag true = print_d (pos 1)

-- The columns of a row
unfoldable pub columns : List ℕ → List (List ℕ) → List ℕ
columns c [] = c ++ delimiter_row ∷ []
columns c (d ∷ ds) = c ++ delimiter_column ∷ columns d ds

-- What `snprintf` leaves in a line
abbrev pub line : List ℕ → List ℕ
line q = take (line_size - 1) q

-- PROG_GET_DATA_RUNTIME, PROG_GET_DATA_INIT, and so on
pub data Query : Type 0 where
  get_data_runtime get_data_init get_enabled get_goal get_error get_fts : Query

-- How floats are printed: FLOAT_NUM, which is "%.1f", and ACP_FLOAT_FORMAT
pub record Printer (F : Type 0) : Type 0 where
  pub float_num : F → List ℕ
  pub float_text : FloatText F

-- The columns after the id, of `bufCatProgRuntime` and of `bufCatProgInit`
abbrev pub runtime_cells : {F : Type 0} → Printer F → RegOnfHc F → Timespec → List (List ℕ)
runtime_cells printer reg tm_rest =
    get_state_str reg.state
    ∷ get_state_str reg.state_r
    ∷ printer.float_num reg.heater.output
    ∷ printer.float_num reg.cooler.output
    ∷ print_d tm_rest.tv_sec
    ∷ printer.float_num reg.sensor.value.value
    ∷ print_d reg.sensor.value.state
    ∷ []

abbrev pub init_cells : {F : Type 0} → Printer F → RegOnfHc F → List (List ℕ)
init_cells printer reg =
    print_d reg.change_gap.tv_sec
    ∷ printer.float_num reg.goal
    ∷ print_flag reg.heater.use_em
    ∷ printer.float_num reg.heater.delta
    ∷ printer.float_num reg.heater.em.pwm_rsl
    ∷ print_flag reg.cooler.use_em
    ∷ printer.float_num reg.cooler.delta
    ∷ printer.float_num reg.cooler.em.pwm_rsl
    ∷ []

module _ {F W : Type 0} (clock : Clock W) (printer : Printer F) where
  -- The row of a program
  unfoldable pub row_of : Query → ℤ → RegOnfHc F → W → List ℕ × W
  unfolding columns
  row_of get_data_runtime id reg w =
      let (tm_rest, w1) = get_time_rest_tmr clock reg.change_gap reg.tmr w in
      (line (columns (print_d id) (runtime_cells printer reg tm_rest)), w1)
  row_of get_data_init id reg w = (line (columns (print_d id) (init_cells printer reg)), w)
  row_of get_enabled id reg w =
      (line (columns (print_d id) (print_flag (Handlers.get_enabled reg) ∷ [])), w)
  row_of get_goal id reg w = (line (columns (print_d id) (printer.float_num reg.goal ∷ [])), w)
  row_of get_error id reg w =
      (line (columns (print_d id) (print_u reg.secure_out.error_code ∷ [])), w)
  row_of get_fts id reg w =
      (line (row_fts printer.float_text (record (reg.sensor.value) { id = id })), w)

  -- The program at an address, and its row after the data
  unfoldable pub cat_prog : Query → Option (Option ℕ) → Heap F → List ℕ → W → Outcome (List ℕ) × W
  unfolding row_of
  cat_prog q none h bytes w = (fault, w)
  cat_prog q (some none) h bytes w = (done bytes, w)
  cat_prog q (some (some a)) h bytes w = elim (h a) [
    | none ↦ (fault, w)
    | some p ↦
        let (row, w1) = row_of q p.id p.reg w in
        (elim (str_cat bytes row) [ none ↦ fail | some bytes1 ↦ done bytes1 ], w1)
  ]

  -- The loop over the ids of a request. It is left at the first row that does not fit.
  unfoldable pub cat_progs : Query → List ℤ → Heap F → ProgList → List ℕ → W → Outcome (List ℕ) × W
  unfolding cat_prog
  cat_progs q [] h l bytes w = (done bytes, w)
  cat_progs q (id ∷ ids) h l bytes w =
      let (result, w1) = cat_prog q (get_prog_by_id id h l) h bytes w in
      elim result [
        | fault ↦ (fault, w1)
        | fail ↦ (fail, w1)
        | done bytes1 ↦ cat_progs q ids h l bytes1 w1
      ]

  unfoldable pub packed : AcpResponse → Outcome (List ℕ) × W → Outcome AcpResponse × W
  packed response (fault, w) = (fault, w)
  packed response (fail, w) = (fail, w)
  packed response (done bytes, w) = (done (response_pack (record response { data_buf = bytes })), w)

  -- The branch of a query: the response that is sent, or `fail` where the source returns before
  unfoldable pub serve_query :
      Query → AcpRequest → AcpResponse → Heap F → ProgList → W → Outcome AcpResponse × W
  unfolding cat_progs packed
  serve_query q request response h l w =
      elim (data_to_i1_list request.data_rows_count request.data_buf) [
        | [] ↦ (fail, w)
        | id ∷ ids ↦ packed response (cat_progs q (id ∷ ids) h l response.data_buf w)
      ]
