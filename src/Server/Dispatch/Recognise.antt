-- ===== src/Server/Dispatch/Recognise.antt =====
-- main.c, lib/app.h and lib/acp/main.c: a request with a list of ids, from the client to what the
-- server does.
use regonf.Prelude.{
  ℕ, zero, suc, append_assoc, ◌+◌, ◌^◌, ◌<◌, ◌≤◌, ◌≡◌, refl, sym, ap, ◌∙◌, Bool, true, false,
  Option, none, some, List, [], ◌∷◌, ◌++◌, arith, All, All-append, length, map, take_all,
  if◌then◌else◌, Succeeds,
}
use regonf.Prelude.Int.{ℤ}
use regonf.CString.{str_eq, str_eq_refl, eq_of_str_eq}
use regonf.CString.Decimal.{print_d}
use regonf.CString.Buffer.{IsText}
use regonf.CString.Scanf.{IsWord}
use regonf.Acp.Packet.{
  AcpRequest, request_init, sent_bytes, command_max_size, data_max_size, delimiter_row,
}
use regonf.Acp.Packet.Check.{IsBlock}
use regonf.Acp.Packet.Parse.{Outcome, fault, fail, done, request_read, cmdcmp, count_data_rows}
use regonf.Acp.Packet.RoundTrip.{Holds, BeginsWith}
use regonf.Acp.Packet.Request.{concat, cmdcmp_iff}
use regonf.Acp.Packet.Rows.{
  row_i1, request_send_i1_list, request_send_rows_lem, Delivered, IsPlain, plain-IsText,
  plain-IsBlock, print_d-IsPlain,
}
use regonf.Acp.Packet.ReadRows.{FloatText, data_to_list, scan_i1, data_to_i1_list}
use regonf.Acp.Packet.ReadRowsTrip.{data_to_i1-concat}
use regonf.Server.Dispatch.{
  Action, send_empty, find_command, of_list, with_i1, app_table, server_table, server_run,
}

-- The search in a table by the command itself
abbrev pub lookup_command : {A : Type 0} → List ℕ → List (List ℕ × A) → Option A
lookup_command cmd [] = none
lookup_command cmd ((c, a) ∷ rest) =
    let found = lookup_command cmd rest in if str_eq c cmd then some a else found

-- The commands of a table have a character or more, and no delimiter of blocks.
abbrev IsCommand : List ℕ → Type 0
IsCommand [] = ⊥
IsCommand (c ∷ cmd) = IsBlock (c ∷ cmd)

abbrev pub AreCommands : {A : Type 0} → List (List ℕ × A) → Type 0
AreCommands = All (λ e. IsCommand (e.0))

bool_iff : (a b : Bool) → (a ≡ true → b ≡ true) → (b ≡ true → a ≡ true) → a ≡ b
bool_iff false false h k = refl
bool_iff false true h k = k refl
bool_iff true false h k = sym (h refl)
bool_iff true true h k = refl

cmdcmp-str_eq :
    (request : AcpRequest) (c cmd : List ℕ)
    → IsCommand c
    → IsBlock cmd
    → BeginsWith cmd request.buf
    → cmdcmp request c ≡ str_eq c cmd
cmdcmp-str_eq request [] cmd hc hb b = elim hc [ ]
cmdcmp-str_eq request (x ∷ c) cmd hc hb b =
    let iff = cmdcmp_iff request x c cmd b.0 b.1 hb hc in
    bool_iff (cmdcmp request (x ∷ c)) (str_eq (x ∷ c) cmd)
      (λ e. ap (λ t. str_eq t cmd) (iff.0 e) ∙ str_eq_refl cmd)
      (λ e. iff.1 (eq_of_str_eq (x ∷ c) cmd e))

find_command-lookup_command :
    {A : Type 0}
    → (request : AcpRequest) (cmd : List ℕ) (table : List (List ℕ × A)) → AreCommands table
    → IsBlock cmd
    → BeginsWith cmd request.buf
    → find_command request table ≡ lookup_command cmd table
unfolding find_command
find_command-lookup_command request cmd [] h hb b = refl
find_command-lookup_command request cmd ((c, a) ∷ rest) h hb b =
    ap (λ t. if t then some a else find_command request rest) (cmdcmp-str_eq request c cmd h.0 hb b)
    ∙ ap (λ t. if str_eq c cmd then some a else t)
        (find_command-lookup_command request cmd rest h.1 hb b)

-- The end of a row counts.
count_data_rows-line :
    (s rest : List ℕ)
    → IsText s
    → suc (count_data_rows rest) ≤ count_data_rows (s ++ delimiter_row ∷ rest)
unfolding count_data_rows
count_data_rows-line [] rest h = ground arith
count_data_rows-line (zero ∷ s) rest h = ground (arith, h.0)
count_data_rows-line (suc c ∷ s) rest h = ground (arith, count_data_rows-line s rest h.1)

-- There are as many rows as ids.
rows-counted : (ids : List ℤ) → length ids ≤ count_data_rows (concat (map row_i1 ids))
rows-counted [] = omega arith
rows-counted (id ∷ ids) =
    let rest = concat (map row_i1 ids) in
    omega (
      arith,
      rows-counted ids,
      count_data_rows-line (print_d id) rest (plain-IsText (print_d id) (print_d-IsPlain id)),
      ap count_data_rows (append_assoc (print_d id) (delimiter_row ∷ []) rest),
    )

row_i1-IsPlain : (id : ℤ) → IsPlain (row_i1 id)
row_i1-IsPlain id =
    All-append _ (print_d id) _ (print_d-IsPlain id) ((omega arith, omega arith), tt)

rows_i1 : (ids : List ℤ) → All IsText (map row_i1 ids) × IsPlain (concat (map row_i1 ids))
rows_i1 [] = (tt, tt)
rows_i1 (id ∷ ids) =
    let (x, y) = rows_i1 ids in
    let p = row_i1-IsPlain id in ((plain-IsText (row_i1 id) p, x), All-append _ (row_i1 id) _ p y)

module _ {F : Type 0} (text : FloatText F) where
  app_table-AreCommands : AreCommands (app_table {F = F})
  app_table-AreCommands = ground arith

  server_table-AreCommands : AreCommands (server_table text)
  server_table-AreCommands = ground arith

  -- What the server does with a request that it has read
  abbrev pub Serves : Option (Action F) → Outcome AcpRequest → Type 0
  Serves action fault = ⊥
  Serves action fail = ⊥
  Serves action (done r) = server_run text true r ≡ action

  served :
      (cmd : List ℕ) (id : ℤ) (ids : List ℤ) (rand : ℕ) (f : List ℤ → Action F)
      (o : Outcome AcpRequest)
      → IsBlock cmd
      → All IsWord (id ∷ ids)
      → lookup_command cmd (app_table {F = F}) ≡ none
      → lookup_command cmd (server_table text) ≡ some (with_i1 f)
      → Holds cmd (concat (map row_i1 (id ∷ ids))) rand o
      → Serves (some (f (id ∷ ids))) o
  unfolding server_run
  served cmd id ids rand f fault hb words e1 e2 h = h
  served cmd id ids rand f fail hb words e1 e2 h = h
  served cmd id ids rand f (done r) hb words e1 e2 h =
      let rows = concat (map row_i1 (id ∷ ids)) in
      let found1 = find_command-lookup_command r cmd app_table app_table-AreCommands hb h.4 ∙ e1 in
      let found2 =
        find_command-lookup_command r cmd (server_table text) server_table-AreCommands hb h.4
        ∙ e2 in
      let room : length (id ∷ ids) ≤ r.data_rows_count =
        omega (arith, h.3, rows-counted (id ∷ ids)) in
      let list : data_to_i1_list r.data_rows_count r.data_buf ≡ id ∷ ids =
        ap (data_to_list scan_i1 r.data_rows_count) h.1
        ∙ data_to_i1-concat r.data_rows_count (id ∷ ids) words
        ∙ take_all r.data_rows_count (id ∷ ids) room in
      ap
        (λ o. elim o as (λ _. Option (Action F)) [
          | some action ↦ some action
          | none ↦ elim (find_command r (server_table text)) as (λ _. Option (Action F)) [
            | none ↦ some send_empty
            | some read ↦ read r
          ]
        ])
        found1
      ∙ ap (λ o. elim o as (λ _. Option (Action F)) [ none ↦ some send_empty | some read ↦ read r ])
          found2
      ∙ ap (of_list f) list

  -- A client sends a command with a list of ids, of 32 bits and a sign, that fits into a packet. The
  -- command is one of those of the server's that take such a list, and the data are initialised. The
  -- server that receives the packet does what the command is for, with the whole list in its order.
  pub i1_command-served :
      (s r : AcpRequest) (cmd : List ℕ) (id : ℤ) (ids : List ℤ) (rand : ℕ) (f : List ℤ → Action F)
      → IsText cmd
      → IsBlock cmd
      → 3 ≤ length cmd
      → length cmd < command_max_size
      → length (concat (map row_i1 (id ∷ ids))) + 1 < data_max_size
      → rand < 2 ^ 32
      → All IsWord (id ∷ ids)
      → lookup_command cmd (app_table {F = F}) ≡ none
      → lookup_command cmd (server_table text) ≡ some (with_i1 f)
      → Succeeds
          (λ p.
            Serves (some (f (id ∷ ids))) (request_read (request_init r) (some (sent_bytes p.buf))))
          (request_send_i1_list cmd (id ∷ ids) rand s)
  i1_command-served s r cmd id ids rand f tc bc l3 lc lr lid words e1 e2 =
      let (texts, plain) = rows_i1 (id ∷ ids) in
      received (request_send_i1_list cmd (id ∷ ids) rand s) (
        request_send_rows_lem s r cmd (map row_i1 (id ∷ ids)) rand tc bc l3 lc texts
          (plain-IsBlock _ plain) lr lid)
    where
      received :
          (o : Option AcpRequest)
          → Delivered r cmd (concat (map row_i1 (id ∷ ids))) rand o
          → Succeeds
              (λ p.
                Serves
                  (some (f (id ∷ ids)))
                  (request_read (request_init r) (some (sent_bytes p.buf))))
              o
      received none h = h
      received (some p) h = served cmd id ids rand f _ bc words e1 e2 h
