-- ===== src/Server/Dispatch/Tests.antt =====
-- main.c: a command from the client to what the server does, at concrete inputs.
use regonf.Prelude.{refl, some, [], ◌∷◌, arith, Succeeds}
use regonf.Prelude.Int.{ℤ, pos, negsuc}
use regonf.CString.{codes, str_eq}
use regonf.CString.Decimal.{print_u, print_d}
use regonf.CString.Scanf.{scan_d}
use regonf.Acp.Packet.{AcpRequest, request_init, sent_bytes}
use regonf.Acp.Packet.Parse.{request_read}
use regonf.Acp.Packet.Rows.{request_send_i1_list}
use regonf.Acp.Packet.ReadRows.{FloatText}
use regonf.Server.Lifecycle.{prog_reset}
use regonf.Server.Dispatch.{change_list}
use regonf.Server.Dispatch.Recognise.{Serves, i1_command-served}

-- Integers in place of floats
abbrev text : FloatText ℤ
text = record { scan_f = scan_d; print_f = print_d }

abbrev raw : AcpRequest
raw = record { cmd = []; data_buf = []; buf = []; id = 7; data_rows_count = 0; crc = 9 }

-- The reset of the programs 5 and -12
i1_command-served_example :
    Succeeds
      (λ p.
        Serves text
          (some (change_list (prog_reset (pos 5 ∷ negsuc 11 ∷ []))))
          (request_read (request_init raw) (some (sent_bytes p.buf))))
      (request_send_i1_list (codes "prs") (pos 5 ∷ negsuc 11 ∷ []) 305 raw)
unfolding print_u str_eq
i1_command-served_example =
    i1_command-served text raw raw (codes "prs") (pos 5) (negsuc 11 ∷ []) 305
      (λ ids. change_list (prog_reset ids)) (ground arith) (ground arith) (omega arith)
      (omega arith) (omega arith) (omega arith) (omega arith, (omega arith, tt)) refl refl
