-- ===== src/Config/Fresh.antt =====
-- db.c: a program that has been read from its row is one that its thread can run.
use regonf.Prelude.{
  WhenSome, Succeeds, ℕ, ◌≤◌, ◌≡◌, Bool, false, Option, none, some, List, [], ◌∷◌, arith, if-elim,
}
use regonf.Prelude.Int.{ℤ, pos}
use regonf.CString.{codes}
use regonf.Float.{FloatOps}
use regonf.Acp.{SensorFts, Em, Link}
use regonf.Regonfhc.{RegOnfHc}
use regonf.Regonfhc.Handlers.{enable, disable_reg}
use regonf.Regonfhc.Control.Invariant.{IsSound, is_running}
use regonf.Regonfhc.Events.{Event, steps, steps-IsSound}
use regonf.Server.Lifecycle.{Loaded}
use regonf.Config.{Column, Row, Texts, Sqlite, column_is}
use regonf.Config.Program.{
  ProgScan, Reading, refused, overrun, reads, set_uses, set_sensor, set_heater_em, set_cooler_em,
  set_secure, set_green_light, counted, prog_column, prog_columns, finish_prog, get_prog_callback,
}

-- A regulator that does not run, and whose mechanisms have no output
pub record IsFresh {F : Type 0} ⦃float : FloatOps F⦄ (reg : RegOnfHc F) : Type 0 where
  pub heater_off : reg.heater.output ≡ float.zero_f
  pub cooler_off : reg.cooler.output ≡ float.zero_f
  pub stands : is_running reg.state ≡ false
  pub count_le : reg.snsrf_count ≤ 8

module _ {F : Type 0} ⦃float : FloatOps F⦄ where
  IsFresh-IsSound : (reg : RegOnfHc F) → IsFresh reg → IsSound reg
  IsFresh-IsSound reg h = ground arith

module _ {F W : Type 0} ⦃float : FloatOps F⦄ (texts : Texts F) (sql : Sqlite W) (ems : List (Em F))
    (sensors : List (SensorFts F)) where
  abbrev ReadsFresh : Reading (ProgScan F W) → Type 0
  ReadsFresh (refused s) = IsFresh s.prog.reg
  ReadsFresh overrun = Unit
  ReadsFresh (reads s) = IsFresh s.prog.reg

  counted-ReadsFresh :
      (r : Reading (ProgScan F W)) → ReadsFresh r → ReadsFresh (counted texts sql ems sensors r)
  counted-ReadsFresh (refused s) h = h
  counted-ReadsFresh overrun h = h
  counted-ReadsFresh (reads s) h = h

  set_uses-IsFresh :
      (value : List ℕ) (reg : RegOnfHc F)
      → IsFresh reg
      → IsFresh (set_uses texts sql ems sensors value reg)
  unfolding set_uses
  set_uses-IsFresh value reg h = ground arith

  set_sensor-ReadsFresh :
      (value : List ℕ) (s : ProgScan F W)
      → IsFresh s.prog.reg
      → ReadsFresh (set_sensor texts sql ems sensors value s)
  unfolding set_sensor
  set_sensor-ReadsFresh value s h = ground arith

  set_heater_em-ReadsFresh :
      (value : List ℕ) (s : ProgScan F W)
      → IsFresh s.prog.reg
      → ReadsFresh (set_heater_em texts sql ems sensors value s)
  unfolding set_heater_em
  set_heater_em-ReadsFresh value s h = ground arith

  set_cooler_em-ReadsFresh :
      (value : List ℕ) (s : ProgScan F W)
      → IsFresh s.prog.reg
      → ReadsFresh (set_cooler_em texts sql ems sensors value s)
  unfolding set_cooler_em
  set_cooler_em-ReadsFresh value s h = ground arith

  set_secure-ReadsFresh :
      (value : List ℕ) (s : ProgScan F W)
      → IsFresh s.prog.reg
      → ReadsFresh (set_secure texts sql ems sensors value s)
  unfolding set_secure
  set_secure-ReadsFresh value s h = ground arith

  set_green_light-IsFresh :
      (value : List ℕ) (reg : RegOnfHc F)
      → IsFresh reg
      → IsFresh (set_green_light texts sql ems sensors value reg)
  unfolding set_green_light
  set_green_light-IsFresh value reg h = ground arith

  prog_column-ReadsFresh :
      (column : Column) (s : ProgScan F W)
      → IsFresh s.prog.reg
      → ReadsFresh (prog_column texts sql ems sensors column s)
  unfolding prog_column
  prog_column-ReadsFresh column s h =
      let value = column.1 in
      let also = counted-ReadsFresh in
      if-elim ReadsFresh (column_is (codes "id") column) _ _ h (
        if-elim ReadsFresh (column_is (codes "sensor_id") column) _ _
          (also (set_sensor texts sql ems sensors value s) (set_sensor-ReadsFresh value s h))
          (if-elim ReadsFresh (column_is (codes "heater_em_id") column) _ _
            (also (set_heater_em texts sql ems sensors value s)
              (set_heater_em-ReadsFresh value s h))
            (if-elim ReadsFresh (column_is (codes "cooler_em_id") column) _ _
              (also (set_cooler_em texts sql ems sensors value s)
                (set_cooler_em-ReadsFresh value s h))
              (if-elim ReadsFresh (column_is (codes "em_mode") column) _ _
                (set_uses-IsFresh value s.prog.reg h)
                (if-elim ReadsFresh (column_is (codes "goal") column) _ _
                  (record {
                    heater_off = h.heater_off;
                    cooler_off = h.cooler_off;
                    stands = h.stands;
                    count_le = h.count_le;
                  })
                  (if-elim ReadsFresh (column_is (codes "heater_delta") column) _ _
                    (record {
                      heater_off = h.heater_off;
                      cooler_off = h.cooler_off;
                      stands = h.stands;
                      count_le = h.count_le;
                    })
                    (if-elim ReadsFresh (column_is (codes "cooler_delta") column) _ _
                      (record {
                        heater_off = h.heater_off;
                        cooler_off = h.cooler_off;
                        stands = h.stands;
                        count_le = h.count_le;
                      })
                      (if-elim ReadsFresh (column_is (codes "change_gap") column) _ _
                        (record {
                          heater_off = h.heater_off;
                          cooler_off = h.cooler_off;
                          stands = h.stands;
                          count_le = h.count_le;
                        })
                        (if-elim ReadsFresh (column_is (codes "secure_id") column) _ _
                          (also (set_secure texts sql ems sensors value s)
                            (set_secure-ReadsFresh value s h))
                          (if-elim ReadsFresh (column_is (codes "green_light_sensor_id") column) _ _
                            (set_green_light-IsFresh value s.prog.reg h)
                            (if-elim ReadsFresh (column_is (codes "green_value") column) _ _
                              (record {
                                heater_off = h.heater_off;
                                cooler_off = h.cooler_off;
                                stands = h.stands;
                                count_le = h.count_le;
                              })
                              (if-elim ReadsFresh (column_is (codes "save") column) _ _ h (
                                if-elim ReadsFresh (column_is (codes "enable") column) _ _ h (
                                  if-elim ReadsFresh (column_is (codes "load") column) _ _ h
                                    (h)))))))))))))))

  prog_columns-ReadsFresh :
      (row : Row) (s : ProgScan F W)
      → IsFresh s.prog.reg
      → ReadsFresh (prog_columns texts sql ems sensors row s)
  unfolding prog_columns
  prog_columns-ReadsFresh [] s h = h
  prog_columns-ReadsFresh (column ∷ row) s h =
      rest (prog_column texts sql ems sensors column s) (prog_column-ReadsFresh column s h)
        (λ s' h'. prog_columns-ReadsFresh row s' h')
    where
      rest :
          (r : Reading (ProgScan F W))
          → ReadsFresh r
          → ((s' : ProgScan F W)
              → IsFresh s'.prog.reg
              → ReadsFresh (prog_columns texts sql ems sensors row s'))
          → ReadsFresh (elim r as (λ _. Reading (ProgScan F W)) [
            | refused s' ↦ refused s'
            | overrun ↦ overrun
            | reads s' ↦ prog_columns texts sql ems sensors row s'
          ])
      rest (refused s') k next = k
      rest overrun k next = tt
      rest (reads s') k next = next s' k

  finish_prog-IsFresh :
      (save_load : ℤ → W → W) (s : ProgScan F W)
      → IsFresh s.prog.reg
      → IsFresh (finish_prog texts sql ems sensors save_load s).1.prog.reg
  unfolding finish_prog enable disable_reg
  finish_prog-IsFresh save_load s h = ground arith

  pub get_prog_callback-IsFresh :
      (save_load : ℤ → W → W) (row : Row) (item : Loaded F) (w : W)
      → IsFresh item.reg
      → WhenSome
          (λ r. IsFresh r.1.reg)
          (get_prog_callback texts sql ems sensors save_load row item w)
  unfolding get_prog_callback
  get_prog_callback-IsFresh save_load row item w h =
      let s : ProgScan F W = record {
        prog = item;
        enable = pos 0;
        load = pos 0;
        c = 0;
        world = w;
      } in
      by_reading (prog_columns texts sql ems sensors row s) (prog_columns-ReadsFresh row s h)
    where
      by_reading :
          (r : Reading (ProgScan F W))
          → ReadsFresh r
          → WhenSome
              (λ r. IsFresh r.1.reg)
              (elim r as (λ _. Option (Bool × Loaded F × W)) [
                | refused s' ↦ some (false, s'.prog, s'.world)
                | overrun ↦ none
                | reads s' ↦
                    let (fine, s2) = finish_prog texts sql ems sensors save_load s' in
                    some (fine, s2.prog, s2.world)
              ])
      by_reading (refused s') k = k
      by_reading overrun k = tt
      by_reading (reads s') k = finish_prog-IsFresh save_load s' k

module _ {F W V : Type 0} ⦃float : FloatOps F⦄ ⦃link : Link F V⦄ (texts : Texts F) (sql : Sqlite W)
    (ems : List (Em F)) (sensors : List (SensorFts F)) where
  -- Whatever the row of a program holds, if reading it writes nothing past the end of the secure
  -- settings, the regulator that comes of it can be run, from one that stands and whose mechanisms have
  -- no output: whatever its cycles meet and the server does to it, no cycle reaches a null pointer.
  pub get_prog_callback-steps :
      (save_load : ℤ → W → W) (row : Row) (item : Loaded F) (w : W) (es : List (Event F)) (v : V)
      → IsFresh item.reg
      → WhenSome
          (λ r. Succeeds (λ q. IsSound q.0) (steps es r.1.reg v))
          (get_prog_callback texts sql ems sensors save_load row item w)
  get_prog_callback-steps save_load row item w es v h =
      by_result (get_prog_callback texts sql ems sensors save_load row item w)
        (get_prog_callback-IsFresh texts sql ems sensors save_load row item w h)
    where
      by_result :
          (o : Option (Bool × Loaded F × W))
          → WhenSome (λ r. IsFresh r.1.reg) o
          → WhenSome (λ r. Succeeds (λ q. IsSound q.0) (steps es r.1.reg v)) o
      by_result none k = tt
      by_result (some r) k = steps-IsSound es r.1.reg v (IsFresh-IsSound r.1.reg k)
