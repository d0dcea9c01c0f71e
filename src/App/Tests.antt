-- ===== src/App/Tests.antt =====
-- main.c: turns of the application at concrete inputs.
use regonf.Prelude.{refl, true, false, [], ◌∷◌}
use regonf.App.{Turn, AppRequest, app_stop, other, prog_list_request, turns, app_at_start}
use regonf.App.Consistent.{IsConsistent, Unless, turns-IsConsistent}

abbrev all_ok : AppRequest → Turn
all_ok request = record {
  app_ok = true;
  peers_ok = true;
  sensors_ok = true;
  ems_ok = true;
  progs_ok = true;
  peers_some = true;
  sensors_some = true;
  ems_some = true;
  progs_some = true;
  request = request;
}

app_at_start-IsConsistent : IsConsistent app_at_start
app_at_start-IsConsistent = record { empty = λ e. (refl, refl, refl, refl); fresh = λ e. refl }

turns-IsConsistent_example : Unless IsConsistent (
    turns
      (all_ok other
        ∷ all_ok other
        ∷ all_ok (prog_list_request false)
        ∷ all_ok app_stop
        ∷ all_ok other
        ∷ [])
      app_at_start)
turns-IsConsistent_example =
    turns-IsConsistent
      (all_ok other
        ∷ all_ok other
        ∷ all_ok (prog_list_request false)
        ∷ all_ok app_stop
        ∷ all_ok other
        ∷ [])
      app_at_start app_at_start-IsConsistent
