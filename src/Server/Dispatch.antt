-- ===== src/Server/Dispatch.antt =====
-- main.c and lib/app.h: how `serverRun` recognises a request and reads its rows. The tests of the
-- command stand in tables, in their order.
pub mod Recognise
mod Tests
use regonf.Prelude.{
  ℕ, zero, suc, Bool, true, false, not, Option, none, some, List, [], ◌∷◌, if◌then◌else◌,
}
use regonf.Prelude.Int.{ℤ}
use regonf.CString.{codes}
use regonf.CString.Buffer.{c_str}
use regonf.CString.Scanf.{is_space, scan_d, skip_space}
use regonf.App.{AppRequest, app_start, app_stop, app_reset, app_exit}
use regonf.Acp.Packet.{AcpRequest}
use regonf.Acp.Packet.Parse.{cmdcmp}
use regonf.Acp.Packet.ReadRows.{
  FloatText, Reading, then_column, read_value, data_to_list, data_to_i1_list, data_to_i2_list,
  data_to_i1f1_list,
}
use regonf.Server.{
  Command, prog_enable, prog_disable, prog_set_save, reg_prog_set_heater_power,
  reg_prog_set_cooler_power, reg_prog_set_goal, regonf_prog_set_heater_delta,
  regonf_prog_set_cooler_delta, reg_prog_set_change_gap, reg_prog_set_em_mode,
}
use regonf.Server.Lifecycle.{ListCommand, prog_stop, prog_start, prog_reset}
use regonf.Server.Query.{
  Query, get_data_runtime, get_data_init, get_enabled, get_goal, get_error, get_fts,
}

-- What a request makes the server do
pub data Action (F : Type 0) : Type 0 where
  app_action : AppRequest → Action F
  send_state print_data print_help send_time : Action F
  change_list : ListCommand → Action F
  change : Command F → Action F
  ask : Query → Action F
  send_empty : Action F

-- `%256s`: characters that are not white space, up to a number of them
unfoldable pub scan_word : ℕ → List ℕ → List ℕ × List ℕ
scan_word zero s = ([], s)
scan_word (suc n) [] = ([], [])
scan_word (suc n) (c ∷ cs) =
    let (word, rest) = scan_word n cs in if is_space c then ([], c ∷ cs) else (c ∷ word, rest)

abbrev pub some_word : List ℕ × List ℕ → Reading (List ℕ)
some_word ([], rest) = none
some_word (c ∷ word, rest) = some (c ∷ word, rest)

-- `acp_dataToI1S1List`, less the terminator of a string of LINE_SIZE characters
unfoldable pub scan_i1s1 : List ℕ → Option (ℤ × List ℕ)
unfolding scan_d skip_space scan_word
scan_i1s1 buf =
    read_value (then_column (scan_d buf) (λ s. some_word (scan_word 256 (skip_space s))))

abbrev pub data_to_i1s1_list : ℕ → List ℕ → List (ℤ × List ℕ)
data_to_i1s1_list max_length bytes = data_to_list scan_i1s1 max_length (c_str bytes)

-- The first command of a table that the request begins with
unfoldable pub find_command : {A : Type 0} → AcpRequest → List (List ℕ × A) → Option A
find_command request [] = none
find_command request ((cmd, a) ∷ rest) =
    let found = find_command request rest in if cmdcmp request cmd then some a else found

-- A list without an item makes the server return.
abbrev pub of_list : {F A : Type 0} → (List A → Action F) → List A → Option (Action F)
of_list f [] = none
of_list f (a ∷ list) = some (f (a ∷ list))

-- PARSE_I1LIST, PARSE_I2LIST, PARSE_I1F1LIST and PARSE_I1S1LIST, with what is done with the list
abbrev pub Reader : Type 0 → Type 0
Reader F = AcpRequest → Option (Action F)

abbrev pub with_i1 : {F : Type 0} → (List ℤ → Action F) → Reader F
with_i1 f request = of_list f (data_to_i1_list request.data_rows_count request.data_buf)

abbrev pub with_i2 : {F : Type 0} → (List (ℤ × ℤ) → Action F) → Reader F
with_i2 f request = of_list f (data_to_i2_list request.data_rows_count request.data_buf)

abbrev pub with_i1f1 : {F : Type 0} → FloatText F → (List (ℤ × F) → Action F) → Reader F
with_i1f1 text f request =
    of_list f (data_to_i1f1_list text request.data_rows_count request.data_buf)

abbrev pub with_i1s1 : {F : Type 0} → (List (ℤ × List ℕ) → Action F) → Reader F
with_i1s1 f request = of_list f (data_to_i1s1_list request.data_rows_count request.data_buf)

module _ {F : Type 0} where
  -- SERVER_APP_ACTIONS
  abbrev pub app_table : List (List ℕ × Action F)
  app_table =
      (codes "ast", app_action app_start)
      ∷ (codes "asp", app_action app_stop)
      ∷ (codes "ars", app_action app_reset)
      ∷ (codes "aex", app_action app_exit)
      ∷ (codes "apn", send_state)
      ∷ (codes "apr", print_data)
      ∷ (codes "ahl", print_help)
      ∷ (codes "atm", send_time)
      ∷ []

  -- The chain of `serverRun`
  abbrev pub server_table : FloatText F → List (List ℕ × Reader F)
  server_table text =
      (codes "psp", with_i1 (λ ids. change_list (prog_stop ids)))
      ∷ (codes "pst", with_i1 (λ ids. change_list (prog_start ids)))
      ∷ (codes "prs", with_i1 (λ ids. change_list (prog_reset ids)))
      ∷ (codes "penl", with_i1 (λ ids. change (prog_enable ids)))
      ∷ (codes "pdsl", with_i1 (λ ids. change (prog_disable ids)))
      ∷ (codes "pssave", with_i2 (λ rows. change (prog_set_save rows)))
      ∷ (codes "pgdr", with_i1 (λ ids. ask get_data_runtime))
      ∷ (codes "pgdi", with_i1 (λ ids. ask get_data_init))
      ∷ (codes "pgenl", with_i1 (λ ids. ask get_enabled))
      ∷ (codes "rpggoal", with_i1 (λ ids. ask get_goal))
      ∷ (codes "pgerr", with_i1 (λ ids. ask get_error))
      ∷ (codes "gfts", with_i1 (λ ids. ask get_fts))
      ∷ (codes "rpshp", with_i1f1 text (λ rows. change (reg_prog_set_heater_power rows)))
      ∷ (codes "rpscp", with_i1f1 text (λ rows. change (reg_prog_set_cooler_power rows)))
      ∷ (codes "rpsgoal", with_i1f1 text (λ rows. change (reg_prog_set_goal rows)))
      ∷ (codes "ronfshd", with_i1f1 text (λ rows. change (regonf_prog_set_heater_delta rows)))
      ∷ (codes "ronfscd", with_i1f1 text (λ rows. change (regonf_prog_set_cooler_delta rows)))
      ∷ (codes "rpschgap", with_i2 (λ rows. change (reg_prog_set_change_gap rows)))
      ∷ (codes "rpsemm", with_i1s1 (λ rows. change (reg_prog_set_em_mode rows)))
      ∷ []

  -- `serverRun` on a request that has been read, up to what it makes the server do; a request that
  -- is not in the tables is answered with an empty response
  unfoldable pub server_run : FloatText F → (init_state : Bool) → AcpRequest → Option (Action F)
  unfolding find_command
  server_run text init_state request =
      elim (find_command request app_table) as (λ _. Option (Action F)) [
        | some action ↦ some action
        | none ↦
            if not init_state
            then none
            else elim (find_command request (server_table text)) as (λ _. Option (Action F)) [
              | none ↦ some send_empty
              | some read ↦ read request
            ]
      ]
