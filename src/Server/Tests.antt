-- ===== src/Server/Tests.antt =====
-- main.c: commands at concrete inputs.
use regonf.Prelude.{ℕ, refl, Option, none, some, List, [], ◌∷◌, arith, Succeeds}
use regonf.Prelude.Int.{ℤ, pos}
use regonf.Bench.{World, world, bench_link, int_float, regulator}
use regonf.Prelude.{◌≡◌, false}
use regonf.CString.Buffer.{c_str}
use regonf.CString.Decimal.{print_d, print_u}
use regonf.CString.Scanf.{scan_d}
use regonf.Acp.Packet.{AcpRequest, AcpResponse, response_init, response_coop_request, response_pack}
use regonf.Acp.Packet.Parse.{done}
use regonf.Acp.Packet.Request.{concat, text_array}
use regonf.Server.Query.{Printer, get_goal, row_of, columns, serve_query}
use regonf.Server.RowTexts.{PrintsTexts, print_d-IsText}
use regonf.Server.Answer.{answer_rows, serve_query_lem}
use regonf.ProgList.{Prog, ProgList, Heap, store}
use regonf.ProgList.Chain.{Represents}
use regonf.Server.{Database, reg_prog_set_goal, serve, handle, on_set_goal}
use regonf.Server.Update.{update_id, handle_lem}
use regonf.Server.Soundness.{Keeps, serve-Keeps}
use regonf.Regonfhc.Control.Invariant.{IsSound}

-- A database that notes the ids it is told in the log
abbrev database : Database ℤ World
database = record {
  save_int = λ field id v w. record w { log = (id, v) ∷ w.log };
  save_float = λ field id v w. record w { log = (id, v) ∷ w.log };
  save_text = λ field id v w. record w { log = (id, pos 0) ∷ w.log };
}

abbrev prog : ℤ → Option ℕ → Prog ℤ
prog id next = record { id = id; reg = regulator; save = pos 1; next = next }

abbrev heap : Heap ℤ
heap = store (store (λ b. none) 10 (some (prog (pos 7) (some 11)))) 11 (some (prog (pos 5) none))

abbrev entries : List (ℕ × Prog ℤ)
entries = (10, prog (pos 7) none) ∷ (11, prog (pos 5) none) ∷ []

abbrev list : ProgList
list = record { top = some 10; last = some 11; length = 2 }

list-Represents : Represents heap list entries
list-Represents = record {
  top = refl;
  last = refl;
  counted = refl;
  bounded = omega arith;
  chain = (refl, (refl, tt));
  distinct = (((omega arith), tt), (tt, tt));
}

regulator-IsSound : IsSound regulator
regulator-IsSound = ground arith

handle_lem_example :
    Succeeds
      (λ r.
        Represents r.0 list
          (update_id (pos 5) (on_set_goal database (pos 5, pos 25)) (world 0 []) entries))
      (handle (pos 5) (on_set_goal database (pos 5, pos 25)) heap list (world 0 []))
handle_lem_example =
    handle_lem (pos 5) (on_set_goal database (pos 5, pos 25)) (world 0 []) heap list entries
      list-Represents

serve-Keeps_example :
    Succeeds
      (λ r. Keeps list entries r.0)
      (serve database
        (reg_prog_set_goal ((pos 5, pos 25) ∷ (pos 8, pos 1) ∷ []))
        heap
        list
        (world 0 []))
serve-Keeps_example =
    serve-Keeps database (reg_prog_set_goal ((pos 5, pos 25) ∷ (pos 8, pos 1) ∷ [])) heap list
      entries (world 0 []) list-Represents (regulator-IsSound, (regulator-IsSound, tt))

-- Integers in place of floats
abbrev printer : Printer ℤ
printer = record { float_num = print_d; float_text = record { scan_f = scan_d; print_f = print_d } }

abbrev prints : PrintsTexts printer
prints = record { float_num-IsText = print_d-IsText; print_f-IsText = print_d-IsText }

-- The request for the goals of the programs 5 and 8
abbrev request : AcpRequest
request = record {
  cmd = [];
  data_buf = 53 ∷ 10 ∷ 56 ∷ 10 ∷ 0 ∷ [];
  buf = [];
  id = 305;
  data_rows_count = 2;
  crc = 0;
}

abbrev raw : AcpResponse
raw = record {
  data_buf = [];
  buf = [];
  id = 7;
  seq = 3;
  is_not_last = 1;
  crc = 9;
  last_is_ok = false;
}

-- The list has a program 5 and no program 8: the answer is one row.
goals :
    (answer_rows bench_link.clock printer get_goal (pos 5 ∷ pos 8 ∷ []) entries (world 0 [])).0
    ≡ (53 ∷ 9 ∷ 50 ∷ 48 ∷ 10 ∷ []) ∷ []
unfolding row_of columns print_u
goals = refl

serve_query_lem_example :
    serve_query bench_link.clock printer get_goal request
      (response_coop_request (response_init raw) request)
      heap
      list
      (world 0 [])
    ≡ (
      done (
          response_pack (record (response_init raw) {
            id = 305;
            data_buf = text_array (
                concat
                  (answer_rows bench_link.clock printer get_goal
                    (pos 5 ∷ pos 8 ∷ [])
                    entries
                    (world 0 [])).0);
          })),
      world 0 [],
    )
unfolding print_u c_str row_of
serve_query_lem_example =
    serve_query_lem bench_link.clock printer get_goal prints raw request (pos 5) (pos 8 ∷ []) heap
      list entries (world 0 []) list-Represents (omega arith, (omega arith, tt)) refl (omega arith)
      (omega arith)
