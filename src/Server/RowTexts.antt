-- ===== src/Server/RowTexts.antt =====
-- main.c and util.c: the rows of answers are texts.
use regonf.Prelude.{ℕ, zero, suc, Bool, true, false, List, [], ◌∷◌, arith, All, All-append, take}
use regonf.Prelude.Int.{ℤ}
use regonf.CString.Buffer.{IsText}
use regonf.CString.Decimal.{print_u, print_d, print_u-AreDigits}
use regonf.Timef.{Clock, get_time_rest_tmr}
use regonf.Acp.Packet.Deliver.{digits-IsText}
use regonf.Acp.Packet.Rows.{plain-IsText, print_d-IsPlain}
use regonf.Acp.Exchange.FtsRow.{col}
use regonf.Reg.{StateReg}
use regonf.Regonfhc.{RegOnfHc}
use regonf.Regonfhc.Handlers
use regonf.Server.Query.{
  Query, get_data_runtime, get_data_init, get_enabled, get_goal, get_error, get_fts, Printer,
  row_of, get_state_str, columns, line, print_flag, runtime_cells, init_cells,
}

-- Floats are printed without a NUL.
pub record PrintsTexts {F : Type 0} (printer : Printer F) : Type 0 where
  pub float_num-IsText : (v : F) → IsText (printer.float_num v)
  pub print_f-IsText : (v : F) → IsText (printer.float_text.print_f v)

take-IsText : (n : ℕ) (s : List ℕ) → IsText s → IsText (take n s)
take-IsText zero s h = tt
take-IsText (suc n) [] h = tt
take-IsText (suc n) (c ∷ s) h = (h.0, take-IsText n s h.1)

columns-IsText :
    (c : List ℕ) (ds : List (List ℕ)) → IsText c → All IsText ds → IsText (columns c ds)
unfolding columns
columns-IsText c [] h k = All-append _ c _ h (omega arith, tt)
columns-IsText c (d ∷ ds) h k = All-append _ c _ h (omega arith, columns-IsText d ds k.0 k.1)

pub print_d-IsText : (v : ℤ) → IsText (print_d v)
print_d-IsText v = plain-IsText (print_d v) (print_d-IsPlain v)

print_flag-IsText : (b : Bool) → IsText (print_flag b)
unfolding print_u
print_flag-IsText false = ground arith
print_flag-IsText true = ground arith

get_state_str-IsText : (s : StateReg) → IsText (get_state_str s)
unfolding get_state_str
get_state_str-IsText s = ground arith

row-IsText :
    (id : ℤ) (cells : List (List ℕ)) → All IsText cells → IsText (line (columns (print_d id) cells))
row-IsText id cells h = take-IsText 255 _ (columns-IsText (print_d id) cells (print_d-IsText id) h)

module _ {F W : Type 0} (clock : Clock W) (printer : Printer F) (prints : PrintsTexts printer) where
  pub row_of-IsText :
      (q : Query) (id : ℤ) (reg : RegOnfHc F) (w : W) → IsText (row_of clock printer q id reg w).0
  unfolding row_of
  row_of-IsText get_data_runtime id reg w =
      let f = prints.float_num-IsText in
      let tm_rest = (get_time_rest_tmr clock reg.change_gap reg.tmr w).0 in
      row-IsText id (runtime_cells printer reg tm_rest) (
        get_state_str-IsText reg.state,
        (
          get_state_str-IsText reg.state_r,
          (
            f reg.heater.output,
            (
              f reg.cooler.output,
              (
                print_d-IsText tm_rest.tv_sec,
                (f reg.sensor.value.value, (print_d-IsText reg.sensor.value.state, tt)),
              ),
            ),
          ),
        ),
      )
  row_of-IsText get_data_init id reg w =
      let f = prints.float_num-IsText in
      row-IsText id (init_cells printer reg) (
        print_d-IsText reg.change_gap.tv_sec,
        (
          f reg.goal,
          (
            print_flag-IsText reg.heater.use_em,
            (
              f reg.heater.delta,
              (
                f reg.heater.em.pwm_rsl,
                (
                  print_flag-IsText reg.cooler.use_em,
                  (f reg.cooler.delta, (f reg.cooler.em.pwm_rsl, tt)),
                ),
              ),
            ),
          ),
        ),
      )
  row_of-IsText get_enabled id reg w =
      row-IsText id (print_flag (Handlers.get_enabled reg) ∷ [])
        (print_flag-IsText (Handlers.get_enabled reg), tt)
  row_of-IsText get_goal id reg w =
      row-IsText id (printer.float_num reg.goal ∷ []) (prints.float_num-IsText reg.goal, tt)
  row_of-IsText get_error id reg w =
      row-IsText id (print_u reg.secure_out.error_code ∷ [])
        (digits-IsText _ (print_u-AreDigits reg.secure_out.error_code), tt)
  row_of-IsText get_fts id reg w = take-IsText 255 _ (
      column _ _ (print_d-IsText id) (
        column _ _ (prints.print_f-IsText reg.sensor.value.value) (
          column _ _ (print_d-IsText reg.sensor.value.tm.tv_sec) (
            column _ _ (print_d-IsText reg.sensor.value.tm.tv_nsec) (
              All-append _ (print_d reg.sensor.value.state) _
                (print_d-IsText reg.sensor.value.state) (omega arith, tt))))))
    where
      column : (s rest : List ℕ) → IsText s → IsText rest → IsText (col s rest)
      column s rest h k = All-append _ s _ h (omega arith, k)
